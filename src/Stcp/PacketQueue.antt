-- ===== src/Stcp/PacketQueue.antt =====
-- Assignment3/src/mysock.c: the packet queues between the application, the transport layer and the
-- network, as linked nodes on a heap. A pointer is a number, and 0 is the null pointer.
-- The locks make each function one step. The wait for a packet is an outcome of its own: the call
-- goes on when a later step has queued a packet.
pub mod Segment
pub mod Enqueue
pub mod Dequeue
pub mod Stream
pub mod Release
use computer_networks.Prelude.{
  ℕ, zero, suc, ◌+◌, ◌-◌, List, [], ◌∷◌, Option, none, some, Bool, true, false, if◌then◌else◌, ◌==◌,
  ◌&&◌, not, ltb, leb, take, drop, length, min, Outcome, returns, undefined, assert, ◌>>=◌, ◌>>◌,
}

-- `packet_queue_node_t`; its `data_len` is the length of `data`.
pub record Node : Type 0 where
  pub data_bytes : List ℕ
  pub next : ℕ

abbrev pub Heap : Type 0
Heap = ℕ → Option Node

abbrev pub update : Heap → ℕ → Option Node → Heap
update heap p node q = if p == q then node else heap q

abbrev pub load : Heap → ℕ → Outcome Node
load heap p = elim (heap p) [ none ↦ undefined | some node ↦ returns node ]

-- `packet_queue_t`
pub record PacketQueue : Type 0 where
  pub head : ℕ
  pub tail : ℕ

abbrev pub empty_queue : PacketQueue
empty_queue = record { head = 0; tail = 0 }

abbrev pub State : Type 0
State = Heap × PacketQueue

-- The `else` branch: the node behind the last one.
unfoldable pub link_behind : Heap → PacketQueue → ℕ → Outcome State
link_behind heap pq p = do
  assert (not (pq.tail == 0))
  last ← load heap pq.tail
  assert (last.next == 0)
  returns (update heap pq.tail (some (record last { next = p })), record pq { tail = p })

-- `_mysock_enqueue_buffer`; `p` is the node that `calloc` returns.
unfoldable pub enqueue_buffer : State → ℕ → List ℕ → Outcome State
unfolding link_behind
enqueue_buffer (heap, pq) p packet = do
  let heap' = update heap p (some (record { data_bytes = packet; next = 0 }))
  elim (pq.head == 0) [
    | true ↦ assert (pq.tail == 0) >> returns (heap', record { head = p; tail = p })
    | false ↦ link_behind heap' pq p
  ]

-- What a call of `_mysock_dequeue_buffer` comes to, once it holds the lock.
pub data Dequeued : Type 0 where
  waits : Dequeued
  -- the number that it returns, and the bytes that it copied to `dst`
  copied : ℕ → List ℕ → State → Dequeued

-- The first part of the packet: `memcpy` moves the rest within one buffer, which is undefined where
-- the two areas overlap. (A copy of an area to its own place is taken to leave it.)
unfoldable pub take_partial : Heap → PacketQueue → Node → ℕ → Outcome Dequeued
take_partial heap pq node max_len =
    if ltb 0 max_len && ltb max_len (length node.data_bytes - max_len)
    then undefined
    else returns (
        copied max_len (take max_len node.data_bytes) (
          update heap pq.head (some (record node { data_bytes = drop max_len node.data_bytes })),
          pq,
        ))

-- The whole packet, whose node is freed.
unfoldable pub take_whole : Heap → PacketQueue → Node → ℕ → Outcome Dequeued
take_whole heap pq node max_len = do
  let len = length node.data_bytes
  let out = take (min max_len len) node.data_bytes
  let heap' = update heap pq.head none
  elim (node.next == 0) [
    | true ↦ assert (pq.tail == pq.head) >> returns (copied len out (heap', empty_queue))
    | false ↦ returns (copied len out (heap', record pq { head = node.next }))
  ]

unfoldable pub dequeue_buffer : State → ℕ → Bool → Outcome Dequeued
unfolding take_partial take_whole
dequeue_buffer (heap, pq) max_len remove_partial = elim (pq.head == 0) [
  | true ↦ returns waits
  | false ↦ do
    node ← load heap pq.head
    elim (ltb max_len (length node.data_bytes) && remove_partial) [
      | true ↦ take_partial heap pq node max_len
      | false ↦ take_whole heap pq node max_len
    ]
]

-- The loop of `_mysock_free_queue`: whether it met a node with data, and the heap without the nodes.
-- `none` is that the rounds ran out.
unfoldable pub free_nodes : ℕ → Heap → ℕ → Bool → Outcome (Option (Bool × Heap))
free_nodes zero heap p result = returns none
free_nodes (suc rounds) heap p result = elim (p == 0) [
  | true ↦ returns (some (result, heap))
  | false ↦ do
    node ← load heap p
    free_nodes rounds (update heap p none) node.next
        (if ltb 0 (length node.data_bytes) then true else result)
]

-- The loop starts from `pq->head != NULL`.
unfoldable pub free_queue : ℕ → State → Outcome (Option (Bool × State))
unfolding free_nodes
free_queue rounds (heap, pq) = do
  freed ← free_nodes rounds heap pq.head (not (pq.head == 0))
  returns (elim freed [ none ↦ none | some (result, heap') ↦ some (result, (heap', empty_queue)) ])
