-- ===== src/Stcp/Tests/Sockets.antt =====
-- Runs of mysockets on small inputs.
use computer_networks.Prelude.{
  ℕ, ◌≤◌, ◌≡◌, ◌≢◌, ◌↔◌, refl, [], ◌∷◌, ◌++◌, Option, none, some, true, false, arith, length,
  replicate, Outcome, returns, undefined, assert_fails, diverges, bytes_eq, ◌>>=◌, Bytes,
}
use computer_networks.Stcp.HashTable.{find, hash_lookup_ptr, hash_insert, overwrite, hash_set_entry}
use computer_networks.Stcp.PacketQueue.{
  Heap, update, link_behind, enqueue_buffer, take_partial, take_whole, dequeue_buffer, free_nodes,
  free_queue,
}
use computer_networks.Stcp.PacketQueue.Segment.{Nodes, Holds}
use computer_networks.Stcp.PacketQueue.Stream.{stream}
use computer_networks.Stcp.World.{
  Context, World, fresh_context, get_context, find_free, new_mysocket,
}
use computer_networks.Stcp.Queues.{app_recv, app_send, enqueue, dequeue, free_all}
use computer_networks.Stcp.Queues.Laws.{state_of}
use computer_networks.Stcp.Backlog.{
  find_slot, take_slot, find_sd, complete, get_request, get_sd, accept_from, accept, resize,
  is_queued, set_backlog, establish, queue_request, enqueue_connection, passive_connection_complete,
  dequeue_connection, get_connection_queue,
}
use computer_networks.Stcp.Calls.{
  Called, done, failed, blocked, mybind, transport_init, bind_ephemeral, myconnect,
  wait_for_connection, myaccept, mylisten, free_context, request_close, join_thread, myclose,
  mywrite, myread, mygetpeername,
}
use computer_networks.Stcp.Calls.Read.{myread-end}
use computer_networks.Stcp.Calls.Write.{mywrite-receive_from_app}
use computer_networks.Stcp.Transport.Events.{reported, wait_for_event_lem, wait-close_once}
use computer_networks.Stcp.Transport.Exit.{exit-wait_for_connection}
use computer_networks.Stcp.Transport.{
  app_data, network_data, app_close_requested, unblock_application, events, wake, wait_for_event,
  receive_from_app, send_to_app, fin_received, transport_exit, network_round,
}

-- What a call leaves, if it is done.
abbrev world_after : {A : Type 0} → Outcome (Called A) → Outcome World
world_after o =
    o >>= λ c. elim c [ blocked ↦ undefined | failed w ↦ returns w | done a w ↦ returns w ]

abbrev start : World
start = record {
  heap = λ p. none;
  global_ctx = none ∷ none ∷ [];
  listen_table = [] ∷ [];
  errno = 0;
}

abbrev address : Bytes
address = 2 ∷ 0 ∷ 0 ∷ 80 ∷ []

abbrev peer : Bytes
peer = 2 ∷ 0 ∷ 0 ∷ 99 ∷ []

-- A SYN.
abbrev syn : Bytes
syn = replicate 13 0 ++ 2 ∷ replicate 6 0

-- A socket that listens on port 80, with its packets coming from `peer`.
abbrev listening_world : Outcome World
listening_world = do
  (w, sd) ← new_mysocket start true
  w ← world_after (mybind w 0 address none)
  w ← world_after (mylisten w 0 1 80 7 none)
  ctx ← get_context w 0
  returns (record w {
    global_ctx = some (record ctx { peer_addr = peer; peer_addr_len = 4 }) ∷ none ∷ [];
  })

-- It gets a connection, which is established and accepted; then both sides write, and it is closed.
abbrev session : Outcome (Called (ℕ × Bytes))
session = do
  w ← listening_world
  (w, more) ← network_round w 0 true 1 (some syn)
  (w, again) ← network_round w 0 true 2 (some syn)
  w ← unblock_application w 1
  w ← world_after (myaccept w 0)
  w ← world_after (mywrite w 1 2 (5 ∷ 6 ∷ 7 ∷ []))
  read ← receive_from_app w 1 2
  elim read [
    | none ↦ undefined
    | some (n, out, w) ↦ do
      w ← send_to_app w 1 3 (out ++ n ∷ [])
      w ← fin_received w 1 4
      myread w 1 9
  ]

abbrev answer : Outcome (Called (ℕ × Bytes)) → Option (ℕ × Bytes)
answer (returns (done out w)) = some out
answer (returns (failed w)) = none
answer (returns blocked) = none
answer assert_fails = none
answer undefined = none
answer diverges = none

session_runs : answer session ≡ some (3, 5 ∷ 6 ∷ 2 ∷ [])
unfolding new_mysocket find_free mybind mylisten set_backlog get_connection_queue resize
    hash_set_entry hash_insert hash_lookup_ptr find overwrite get_context network_round
    enqueue_connection is_queued queue_request take_slot find_slot establish enqueue_buffer
    link_behind unblock_application passive_connection_complete complete find_sd myaccept
    dequeue_connection accept accept_from get_request get_sd mywrite enqueue receive_from_app
    dequeue dequeue_buffer take_partial take_whole send_to_app fin_received myread bytes_eq
session_runs = refl

-- A connection that the transport layer gives up, and that is closed.
abbrev refused_world : Outcome World
refused_world = do
  (w, sd) ← new_mysocket start true
  w ← world_after (myconnect w 0 peer 4 none)
  transport_exit w 0 1

abbrev errno_of : Outcome World → ℕ
errno_of (returns w) = w.errno
errno_of assert_fails = 0
errno_of undefined = 0
errno_of diverges = 0

connect_fails : errno_of (refused_world >>= λ w. world_after (wait_for_connection w 0)) ≡ 111
unfolding new_mysocket find_free myconnect bind_ephemeral transport_init get_context transport_exit
    unblock_application enqueue enqueue_buffer link_behind wait_for_connection
connect_fails = refl

abbrev closed_world : Outcome (Option World)
closed_world = do w ← refused_world; w ← request_close w 0; myclose 3 w 0

closes_socket :
    closed_world
    ≡ returns (
        some (record start {
          errno = 111;
          heap = update (update (λ p. none) 1 (some (record { data_bytes = []; next = 0 }))) 1 none;
        }))
unfolding new_mysocket find_free myconnect bind_ephemeral transport_init get_context transport_exit
    unblock_application enqueue enqueue_buffer link_behind request_close myclose join_thread
    free_context free_all free_queue free_nodes
closes_socket = refl

peer_name :
    mygetpeername
      (record start {
        global_ctx = some (record fresh_context { peer_addr = peer; peer_addr_len = 4 }) ∷ [];
      })
      0
      2
    ≡ returns (
        done
          (2 ∷ 0 ∷ [], 4)
          (record start {
            global_ctx = some (record fresh_context { peer_addr = peer; peer_addr_len = 4 }) ∷ [];
          }))
unfolding mygetpeername get_context
peer_name = refl

abbrev packet : Bytes
packet = 7 ∷ 8 ∷ 9 ∷ []

-- A socket with a packet in one of its queues.
abbrev stored : Heap
stored = update (λ p. none) 1 (some (record { data_bytes = packet; next = 0 }))

abbrev nodes : Nodes
nodes = (1, packet) ∷ []

abbrev to_read : Context
to_read = record fresh_context { app_send_queue = record { head = 1; tail = 1 } }

abbrev to_send : Context
to_send = record fresh_context { app_recv_queue = record { head = 1; tail = 1 } }

abbrev with_context : Context → World
with_context ctx = record {
  heap = stored;
  global_ctx = some ctx ∷ [];
  listen_table = [] ∷ [];
  errno = 0;
}

Holds-read : Holds (state_of (with_context to_read) to_read app_send) nodes
Holds-read = record { linked = ((λ e. omega arith), refl, tt, tt); head_is = refl; tail_is = refl }

Holds-send : Holds (state_of (with_context to_send) to_send app_recv) nodes
Holds-send = record { linked = ((λ e. omega arith), refl, tt, tt); head_is = refl; tail_is = refl }

abbrev at_end : World
at_end = with_context (record to_read { eof = true })

reads_end : myread at_end 0 5 ≡ returns (done (0, []) at_end)
unfolding myread get_context
reads_end = refl

myread-end_example : myread at_end 0 6 ≡ returns (done (0, []) at_end)
myread-end_example = myread-end at_end at_end 0 5 6 [] reads_end

mywrite-receive_from_app_example :
    (w' : World) × (n : ℕ) × (out : Bytes) × (w'' : World) × (ctx'' : Context) × (ns' : Nodes)
    × (mywrite (with_context to_send) 0 2 (5 ∷ []) ≡ returns (done 1 w'))
    × (receive_from_app w' 0 2 ≡ returns (some (n, out, w'')))
    × (get_context w'' 0 ≡ returns ctx'')
    × Holds (state_of w'' ctx'' app_recv) ns'
    × (n ≡ length out)
    × (n ≤ 2)
    × (out ++ stream ns' ≡ stream nodes ++ 5 ∷ [])
unfolding get_context
mywrite-receive_from_app_example =
    mywrite-receive_from_app (with_context to_send) 0 2 (5 ∷ []) to_send nodes 2 refl refl refl
      Holds-send (λ e. omega arith) ((λ e. omega arith), tt) (omega arith, tt) (omega arith)

-- A socket that is to be closed, with nothing left to send.
abbrev closing : Context
closing = record fresh_context { close_requested = true }

abbrev still : Context
still = record closing { close_requested = false }

wakes : wait_for_event (with_context closing) 0 1 ≡ returns (some (4, with_context still))
unfolding wait_for_event wake events get_context
wakes = refl

sleeps : wait_for_event (with_context still) 0 1 ≡ returns none
unfolding wait_for_event wake events get_context
sleeps = refl

wait-close_once_example :
    (closing.app_recv_queue.head ≡ 0) × (app_close_requested (reported none) ≡ false)
unfolding get_context
wait-close_once_example =
    wait-close_once (with_context closing) (with_context still) 0 1 4 1 closing none refl wakes refl
      sleeps

wait_for_event_lem_example :
    (app_data 4 ≡ false)
    × (network_data 4 ≡ false)
    × (app_close_requested 4 ≡ true)
    × ((◌≡◌ {A = Option (ℕ × World)} (some (4, with_context still)) none) ↔ (◌≡◌ {A = ℕ} 4 0))
unfolding get_context
wait_for_event_lem_example =
    wait_for_event_lem (with_context closing) 0 1 closing (some (4, with_context still)) refl wakes

abbrev connecting : Context
connecting = record fresh_context { is_active = true }

exit-wait_for_connection_example :
    (w' : World) × (w'' : World) × (transport_exit (with_context connecting) 0 1 ≡ returns w')
    × (wait_for_connection w' 0 ≡ returns (failed w''))
    × (w''.errno ≡ 111)
    × (w''.errno ≢ 0)
unfolding get_context
exit-wait_for_connection_example =
    exit-wait_for_connection (with_context connecting) 0 1 connecting [] refl refl refl
      (record { linked = tt; head_is = refl; tail_is = refl }) (λ e. omega arith) tt
