-- ===== src/Stcp/Queues.antt =====
-- Assignment3/src/mysock.c: the three packet queues of a mysocket in the state that all mysockets share.
pub mod Laws
use computer_networks.Prelude.{
  ℕ, List, [], ◌∷◌, Option, none, some, Bool, true, false, Outcome, returns, ◌>>=◌, Bytes,
}
use computer_networks.Stcp.PacketQueue.{
  Heap, PacketQueue, Dequeued, waits, copied, enqueue_buffer, dequeue_buffer, free_queue,
}
use computer_networks.Stcp.World.{Context, World, get_context, put_context}

-- The queue from the network, that of `mywrite`, and that of `myread`.
pub data Which : Type 0 where
  network_recv : Which
  app_recv : Which
  app_send : Which

abbrev pub queue_of : Which → Context → PacketQueue
queue_of network_recv ctx = ctx.network_recv_queue
queue_of app_recv ctx = ctx.app_recv_queue
queue_of app_send ctx = ctx.app_send_queue

abbrev pub set_queue : Which → PacketQueue → Context → Context
set_queue network_recv pq ctx = record ctx { network_recv_queue = pq }
set_queue app_recv pq ctx = record ctx { app_recv_queue = pq }
set_queue app_send pq ctx = record ctx { app_send_queue = pq }

-- The heap and a queue of a mysocket after a call on them.
abbrev pub put_state : World → ℕ → Context → Which → Heap × PacketQueue → World
put_state w sd ctx which s = put_context (record w { heap = s.0 }) sd (set_queue which s.1 ctx)

-- `_mysock_enqueue_buffer`; `p` is the node that is allocated.
unfoldable pub enqueue : World → ℕ → Which → ℕ → Bytes → Outcome World
enqueue w sd which p packet = do
  ctx ← get_context w sd
  s ← enqueue_buffer (w.heap, queue_of which ctx) p packet
  returns (put_state w sd ctx which s)

-- What `_mysock_dequeue_buffer` leaves: the number that it returns and the bytes that it copies; none is
-- the wait.
abbrev pub read_of : World → ℕ → Context → Which → Dequeued → Option (ℕ × Bytes × World)
read_of w sd ctx which waits = none
read_of w sd ctx which (copied n bytes s) = some (n, bytes, put_state w sd ctx which s)

-- `_mysock_dequeue_buffer`
unfoldable pub dequeue : World → ℕ → Which → ℕ → Bool → Outcome (Option (ℕ × Bytes × World))
dequeue w sd which max_len remove_partial = do
  ctx ← get_context w sd
  out ← dequeue_buffer (w.heap, queue_of which ctx) max_len remove_partial
  returns (read_of w sd ctx which out)

-- The queues that `_mysock_free_context` frees, one after the other; none is that the rounds ran out.
unfoldable pub free_all : ℕ → Heap → List PacketQueue → Outcome (Option Heap)
free_all rounds heap [] = returns (some heap)
free_all rounds heap (pq ∷ rest) = do
  freed ← free_queue rounds (heap, pq)
  elim freed [ none ↦ returns none | some out ↦ free_all rounds (out.1.0) rest ]
