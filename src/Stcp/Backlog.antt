-- ===== src/Stcp/Backlog.antt =====
-- Assignment3/src/connection_demux.c: the requests that a listening socket holds until they are
-- accepted. The functions on one listen queue come first, then those of the source, which find the
-- queue in `listen_table`. Each function is one step; that
-- `_mysock_enqueue_connection` may run while `_mysock_dequeue_connection` does, since both hold
-- `listen_lock` only for reading, is left to Race.
pub mod Slots
pub mod Inversion
pub mod Steps
pub mod Invariant
pub mod Exact
pub mod Race
pub mod Fifo
pub mod Safety
use computer_networks.Prelude.{
  ℕ, zero, suc, ◌+◌, ◌-◌, ◌*◌, ◌/◌, ◌%◌, ◌^◌, List, [], ◌∷◌, ◌++◌, Option, none, some, Bool, true,
  false, if◌then◌else◌, ◌==◌, ◌&&◌, ◌||◌, not, ltb, take, length, get_elem?, set, replicate,
  Outcome, returns, assert_fails, undefined, assert, ◌>>=◌, ◌>>◌, Bytes, bytes_eq, read8,
}
use computer_networks.Stcp.HashTable.{hash_lookup_ptr, hash_insert, hash_set_entry}
use computer_networks.Stcp.PacketQueue.{enqueue_buffer}
use computer_networks.Stcp.TcpSum.{tcphdr_size}
use computer_networks.Stcp.World.{
  ConnectRequest, ListenQueue, Context, World, get_context, put_context, new_mysocket,
}

-- INVALIDATE_CONNECT_REQUEST
abbrev pub invalid : ConnectRequest
invalid = record { peer_addr = replicate 16 0; peer_addr_len = 0; sd = none }

abbrev pub is_free : ConnectRequest → Bool
is_free r = elim r.sd [ none ↦ true | some sd ↦ false ]

-- The loop that looks for a retransmission.
unfoldable pub is_queued : List ConnectRequest → Bytes → ℕ → Outcome Bool
is_queued [] peer_addr len = returns false
is_queued (r ∷ rest) peer_addr len =
    assert (is_free r || len == r.peer_addr_len)
    >> elim (bytes_eq (take len r.peer_addr) (take len peer_addr)) [
      | true ↦ returns true
      | false ↦ is_queued rest peer_addr len
    ]

-- The loop that looks for an empty slot.
unfoldable pub find_slot : List ConnectRequest → Option ℕ
find_slot [] = none
find_slot (r ∷ rest) = elim (is_free r) [
  | true ↦ some 0
  | false ↦ elim (find_slot rest) [ none ↦ none | some k ↦ some (suc k) ]
]

-- A slot and a higher count, if the backlog is not exhausted, in one step.
unfoldable pub take_slot : ListenQueue → Outcome (Option (ℕ × ListenQueue))
unfolding find_slot
take_slot q =
    if ltb q.cur_len q.max_len
    then elim (find_slot (take q.max_len q.connection_queue)) [
      | none ↦ assert_fails
      | some k ↦ returns (some (k, record q { cur_len = q.cur_len + 1 }))
    ]
    else returns none

abbrev pub put_request : ListenQueue → ℕ → ConnectRequest → ListenQueue
put_request q k r = record q { connection_queue = set q.connection_queue k r }

abbrev pub has_sd : ConnectRequest → ℕ → Bool
has_sd r sd = elim r.sd [ none ↦ false | some k ↦ k == sd ]

-- The loop that looks for the slot of a connection.
unfoldable pub find_sd : List ConnectRequest → ℕ → Option ℕ
find_sd [] sd = none
find_sd (r ∷ rest) sd = elim (has_sd r sd) [
  | true ↦ some 0
  | false ↦ elim (find_sd rest sd) [ none ↦ none | some k ↦ some (suc k) ]
]

-- The connection joins the tail of the completed ones.
unfoldable pub complete : ListenQueue → ℕ → Outcome ListenQueue
unfolding find_sd
complete q sd = elim (find_sd (take q.max_len q.connection_queue) sd) [
  | none ↦ assert_fails
  | some k ↦ returns (record q { completed_queue = q.completed_queue ++ (q.array, k) ∷ [] })
]

-- What a completed connection points to; a pointer into an array that `realloc` has moved is dangling.
unfoldable pub get_request : ListenQueue → ℕ × ℕ → Outcome ConnectRequest
get_request q request = elim (request.0 == q.array) [
  | false ↦ undefined
  | true ↦ elim (get_elem? q.connection_queue request.1) [ none ↦ undefined | some r ↦ returns r ]
]

-- `_mysock_get_context` refuses the descriptor -1.
unfoldable pub get_sd : ConnectRequest → Outcome ℕ
get_sd r = elim r.sd [ none ↦ assert_fails | some sd ↦ returns sd ]

-- The first completed connection leaves the queue; none is the wait for one.
unfoldable pub accept_from : ListenQueue → List (ℕ × ℕ) → Outcome (Option (ℕ × ListenQueue))
unfolding get_request get_sd
accept_from q [] = returns none
accept_from q (request ∷ next) = do
  r ← get_request q request
  sd ← get_sd r
  assert (ltb 0 q.cur_len)
  returns (
      some (
        sd,
        record q {
          completed_queue = next;
          connection_queue = set q.connection_queue request.1 invalid;
          cur_len = q.cur_len - 1;
        },
      ))

unfoldable pub accept : ListenQueue → Outcome (Option (ℕ × ListenQueue))
unfolding accept_from
accept q = accept_from q q.completed_queue

-- The new maximum; `array` is what `realloc` returns where it is called.
unfoldable pub resize : ListenQueue → ℕ → ℕ → ListenQueue
resize q max_len array =
    if ltb q.max_len max_len
    then record q {
      array = array;
      connection_queue =
          take q.max_len q.connection_queue ++ replicate (max_len - q.max_len) invalid;
      max_len = max_len;
    }
    else record q { max_len = max_len }

-- What `calloc` leaves, with the port.
abbrev pub new_queue : ℕ → ListenQueue
new_queue port = record {
  local_port = port;
  max_len = 0;
  cur_len = 0;
  array = 0;
  connection_queue = [];
  completed_queue = [];
}

unfoldable pub get_connection_queue : World → ℕ → Outcome (Option ListenQueue)
get_connection_queue w sd = do
  ctx ← get_context w sd
  assert (ctx.listening && ctx.bound)
  hash_lookup_ptr w.listen_table sd

-- A write through the pointer to a queue of the table.
abbrev pub put_queue : World → ℕ → ListenQueue → Outcome World
put_queue w sd q =
    hash_set_entry w.listen_table sd q >>= λ t. returns (record w { listen_table = t })

-- The local port is that of the network layer.
unfoldable pub set_backlog : World → ℕ → ℕ → ℕ → ℕ → Outcome World
unfolding get_connection_queue resize
set_backlog w sd backlog port array = do
  let max_len = (backlog + 1) % 2 ^ 32
  ctx ← get_context w sd
  assert (ctx.listening && ctx.bound)
  assert (ltb 0 port)
  found ← get_connection_queue w sd
  elim found [
    | none ↦ do
      t ← hash_insert w.listen_table sd (new_queue port)
      put_queue (record w { listen_table = t }) sd (resize (new_queue port) max_len array)
    | some q ↦ assert (q.local_port == port) >> put_queue w sd (resize q max_len array)
  ]

-- The new context of a request, with the assertions of `_network_update_passive_state`, and its first packet; `p` is the node that is allocated for it.
unfoldable pub establish : World → ℕ → ℕ → Bytes → ℕ → ℕ → Bytes → Outcome World
establish w listen_sd sd peer_addr peer_addr_len p packet = do
  ctx ← get_context w sd
  let ctx = record ctx {
    listen_sd = some listen_sd;
    peer_addr = peer_addr;
    peer_addr_len = peer_addr_len;
    peer_addr_valid = true;
  }
  assert (not ctx.listening)
  assert (not ctx.is_active)
  s ← enqueue_buffer (w.heap, ctx.network_recv_queue) p packet
  returns
      (record (put_context w sd (record ctx {
        is_active = false;
        transport_thread_started = true;
        network_recv_queue = s.1;
      })) { heap = s.0 })

-- The request in a slot, or in none.
unfoldable pub queue_request :
    World → ℕ → Bool → ℕ → Bytes → Bytes → ℕ → ListenQueue → Outcome (World × Bool)
unfolding take_slot establish
queue_request w sd network_init p packet peer_addr peer_addr_len q = do
  slot ← take_slot q
  elim slot [
    | none ↦ returns (w, false)
    | some (k, q') ↦ do
      out ← new_mysocket w network_init
      elim out.1 [
        | none ↦ do w' ← put_queue out.0 sd (put_request q k invalid); returns (w', false)
        | some new_sd ↦ do
          let r : ConnectRequest = record {
            peer_addr = peer_addr;
            peer_addr_len = peer_addr_len;
            sd = some new_sd;
          }
          w' ← put_queue out.0 sd (put_request q' k r)
          w'' ← establish w' sd new_sd peer_addr peer_addr_len p packet
          returns (w'', true)
      ]
  ]

-- `th_flags & TH_SYN`
abbrev pub is_syn : Bytes → Outcome Bool
is_syn packet = elim (ltb (length packet) tcphdr_size) [
  | true ↦ returns false
  | false ↦ do flags ← read8 packet 13; returns (flags / 2 % 2 == 1)
]

unfoldable pub enqueue_connection :
    World → ℕ → Bool → ℕ → Bytes → Bytes → ℕ → Outcome (World × Bool)
unfolding get_connection_queue is_queued queue_request
enqueue_connection w sd network_init p packet peer_addr peer_addr_len = do
  ctx ← get_context w sd
  assert (ctx.listening && ctx.bound)
  assert (ltb 0 peer_addr_len)
  syn ← is_syn packet
  elim syn [
    | false ↦ returns (w, false)
    | true ↦ do
      found ← get_connection_queue w sd
      elim found [
        | none ↦ returns (w, false)
        | some q ↦ do
          queued ← is_queued (take q.max_len q.connection_queue) peer_addr peer_addr_len
          elim queued [
            | true ↦ returns (w, false)
            | false ↦ queue_request w sd network_init p packet peer_addr peer_addr_len q
          ]
      ]
  ]

unfoldable pub passive_connection_complete : World → ℕ → Outcome World
unfolding get_connection_queue complete
passive_connection_complete w sd = do
  ctx ← get_context w sd
  elim ctx.listen_sd [
    | none ↦ assert_fails
    | some listen_sd ↦ do
      found ← get_connection_queue w listen_sd
      elim found [
        | none ↦ returns w
        | some q ↦ complete q ctx.my_sd >>= λ q'. put_queue w listen_sd q'
      ]
  ]

-- The descriptor of the accepted connection; none is the wait for one.
unfoldable pub dequeue_connection : World → ℕ → Outcome (Option (World × ℕ))
unfolding get_connection_queue accept
dequeue_connection w sd = do
  found ← get_connection_queue w sd
  elim found [
    | none ↦ assert_fails
    | some q ↦ do
      out ← accept q
      elim out [
        | none ↦ returns none
        | some (new_sd, q') ↦ do
          ctx ← get_context w new_sd
          w' ← put_queue w sd q'
          returns (some (w', ctx.my_sd))
      ]
  ]
