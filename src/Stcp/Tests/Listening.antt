-- ===== src/Stcp/Tests/Listening.antt =====
-- Runs of a listening socket on small inputs.
use computer_networks.Prelude.{
  ℕ, ◌+◌, ◌≡◌, refl, [], ◌∷◌, ◌++◌, none, some, true, arith, returns, undefined,
}
use computer_networks.Stcp.World.{ConnectRequest, ListenQueue, Context, World, fresh_context}
use computer_networks.Stcp.Backlog.{
  invalid, find_slot, take_slot, find_sd, complete, accept, resize, new_queue,
}
use computer_networks.Stcp.Backlog.Steps.{IsQueue, arrive, establish, resized, Reach, here, next}
use computer_networks.Stcp.Backlog.Invariant.{Reach-IsQueue, new_queue-IsQueue}
use computer_networks.Stcp.Backlog.Exact.{IsExact, Reach-IsExact, new_queue-IsExact}
use computer_networks.Stcp.Backlog.Fifo.{sd_at, pending, completed, accepted, accept-fifo}
use computer_networks.Stcp.Backlog.Safety.{accept-safe, accept-moved}

abbrev request : ℕ → ConnectRequest
request sd = record { peer_addr = 2 ∷ 0 ∷ []; peer_addr_len = 2; sd = some sd }

-- A queue with room for two, with a request, and with its connection established.
abbrev queue : ListenQueue
queue = record {
  local_port = 80;
  max_len = 2;
  cur_len = 0;
  array = 7;
  connection_queue = invalid ∷ invalid ∷ [];
  completed_queue = [];
}

abbrev requested : ListenQueue
requested = record queue { cur_len = 1; connection_queue = request 5 ∷ invalid ∷ [] }

abbrev established : ListenQueue
established = record requested { completed_queue = (7, 0) ∷ [] }

abbrev emptied : ListenQueue
emptied = queue

to_queue : resize (new_queue 80) 2 7 ≡ queue
unfolding resize
to_queue = refl

grown : Reach (new_queue 80) (resize (new_queue 80) 2 7)
grown = next here (resized (new_queue 80) 2 7 (λ l. refl))

reached : Reach (new_queue 80) established
unfolding resize take_slot find_slot find_sd complete
reached =
    next (next grown (arrive queue (record queue { cur_len = 1 }) 0 5 (request 5) refl refl))
      (establish requested established 0 5 refl tt refl)

accept-fifo_example : completed reached ≡ accepted reached ++ pending established
accept-fifo_example = accept-fifo 80 established reached

Reach-IsExact_example : IsQueue established × IsExact established
unfolding reached grown
Reach-IsExact_example =
    Reach-IsExact (new_queue 80) established reached (((tt, omega arith), tt), tt)
      (new_queue-IsQueue 80) (new_queue-IsExact 80)

established-IsQueue : IsQueue established
established-IsQueue = Reach-IsQueue (new_queue 80) established reached (new_queue-IsQueue 80)

accept-safe_example :
    (sd : ℕ) × (q' : ListenQueue) × (accept established ≡ returns (some (sd, q')))
    × (sd_at (request 5 ∷ invalid ∷ []) 0 ≡ some sd)
    × (sd_at q'.connection_queue 0 ≡ none)
    × (q'.cur_len + 1 ≡ 1)
    × (q'.completed_queue ≡ [])
accept-safe_example = accept-safe 80 established (7, 0) [] reached refl

accept-moved_example : accept (resize established 9 8) ≡ undefined
accept-moved_example =
    accept-moved established (7, 0) [] 9 8 established-IsQueue refl (omega arith) (λ e. omega arith)

-- The listening socket 0 with the connection 1, which is not announced yet.
abbrev listener : Context
listener = record fresh_context { bound = true; listening = true; my_sd = 0 }

abbrev joining : Context
joining = record fresh_context { my_sd = 1; listen_sd = some 0; transport_thread_started = true }

abbrev waiting_queue : ListenQueue
waiting_queue = record queue { cur_len = 1; connection_queue = invalid ∷ request 1 ∷ [] }

abbrev world : World
world = record {
  heap = λ p. none;
  global_ctx = some listener ∷ some joining ∷ [];
  listen_table = ((0, waiting_queue) ∷ []) ∷ [];
  errno = 0;
}
