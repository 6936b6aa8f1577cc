-- ===== src/Stcp/PacketQueue/Dequeue.antt =====
-- Taking a packet, or the first part of one, from the head of the queue.
use computer_networks.Prelude.{
  ℕ, ◌+◌, ◌⊎◌, inl, inr, ◌<◌, ◌≤◌, ◌≡◌, ◌≢◌, List, [], ◌∷◌, none, some, Bool, true, false, ◌&&◌,
  ltb, arith, refl, ap, sym, ◌∙◌, returns, undefined, ==_of_ne, take, drop, length, min, subst,
}
use computer_networks.Stcp.PacketQueue.{
  Node, Heap, update, load, PacketQueue, State, waits, copied, take_partial, take_whole,
  dequeue_buffer, empty_queue,
}
use computer_networks.Stcp.PacketQueue.Segment.{Nodes, first, last, Linked, Holds, Linked-update}

-- On an empty queue the call waits.
dequeue_empty :
    (s : State) (max_len : ℕ) (remove_partial : Bool)
    → Holds s []
    → dequeue_buffer s max_len remove_partial ≡ returns waits
unfolding dequeue_buffer
dequeue_empty (heap, pq) max_len remove_partial v = rw v.head_is

first-eq-zero : (heap : Heap) (ns : Nodes) → Linked heap ns → first ns ≡ 0 → ns ≡ []
first-eq-zero heap [] l e = refl
first-eq-zero heap ((p, d) ∷ rest) l e = absurd (l.0 e)

take_whole_last :
    (heap : Heap) (pq : PacketQueue) (node : Node) (max_len : ℕ)
    → node.next ≡ 0
    → pq.tail ≡ pq.head
    → take_whole heap pq node max_len
      ≡ returns (
          copied
            (length node.data_bytes)
            (take (min max_len (length node.data_bytes)) node.data_bytes)
            (update heap pq.head none, empty_queue))
unfolding take_whole
take_whole_last heap pq node max_len e f = ground arith

take_whole_more :
    (heap : Heap) (pq : PacketQueue) (node : Node) (max_len : ℕ)
    → node.next ≢ 0
    → take_whole heap pq node max_len
      ≡ returns (
          copied
            (length node.data_bytes)
            (take (min max_len (length node.data_bytes)) node.data_bytes)
            (update heap pq.head none, record pq { head = node.next }))
unfolding take_whole
take_whole_more heap pq node max_len e = rw (==_of_ne node.next 0 e, take_whole)

-- The call with the head's node in hand.
dequeue_head :
    (heap : Heap) (pq : PacketQueue) (node : Node) (max_len : ℕ) (remove_partial : Bool)
    → pq.head ≢ 0
    → heap pq.head ≡ some node
    → dequeue_buffer (heap, pq) max_len remove_partial
      ≡ elim (ltb max_len (length node.data_bytes) && remove_partial) [
        | true ↦ take_partial heap pq node max_len
        | false ↦ take_whole heap pq node max_len
      ]
unfolding dequeue_buffer
dequeue_head heap pq node max_len remove_partial nz h =
    rw (==_of_ne pq.head 0 nz, dequeue_buffer) (rw (h, load))

whole_test : (a b : ℕ) (c : Bool) → (b ≤ a) ⊎ (c ≡ false) → (ltb a b && c) ≡ false
whole_test a b c h = ground arith

-- Unlinking the node at the head leaves the others.
unlinked :
    (heap : Heap) (pq : PacketQueue) (p : ℕ) (d : List ℕ) (rest : Nodes) (max_len : ℕ)
    → Holds (heap, pq) ((p, d) ∷ rest)
    → (s' : State) × (take_whole heap pq (record { data_bytes = d; next = first rest }) max_len
        ≡ returns (copied (length d) (take (min max_len (length d)) d) s'))
      × Holds s' rest
      × (s'.0 p ≡ none)
unlinked heap pq p d [] max_len v = (
  (update heap pq.head none, empty_queue),
  take_whole_last heap pq _ max_len refl (v.tail_is ∙ sym v.head_is),
  record { linked = tt; head_is = refl; tail_is = refl },
  ground (arith, v.head_is),
)
unlinked heap pq p d ((q, e) ∷ rest) max_len v = (
  (update heap pq.head none, record pq { head = q }),
  take_whole_more heap pq _ max_len v.linked.3.0,
  record {
    linked =
        subst (λ h. Linked (update heap h none) ((q, e) ∷ rest)) (sym v.head_is)
          (Linked-update heap p none ((q, e) ∷ rest) v.linked.2 v.linked.3);
    head_is = refl;
    tail_is = v.tail_is;
  },
  ground (arith, v.head_is),
)

-- A packet that fits the destination, or any packet if no part is asked for, is taken whole: the
-- call returns its length, copies as much of it as fits, unlinks its node and frees it.
pub dequeue_whole :
    (s : State) (p : ℕ) (d : List ℕ) (rest : Nodes) (max_len : ℕ) (remove_partial : Bool)
    → Holds s ((p, d) ∷ rest)
    → (length d ≤ max_len) ⊎ (remove_partial ≡ false)
    → (s' : State) × (dequeue_buffer s max_len remove_partial
        ≡ returns (copied (length d) (take (min max_len (length d)) d) s'))
      × Holds s' rest
      × (s'.0 p ≡ none)
dequeue_whole (heap, pq) p d rest max_len remove_partial v h =
    let node : Node = record { data_bytes = d; next = first rest } in
    let found : heap pq.head ≡ some node = ap heap v.head_is ∙ v.linked.1 in
    let out = unlinked heap pq p d rest max_len v in
    (
      out.0,
      dequeue_head heap pq node max_len remove_partial (λ z. v.linked.0 (sym v.head_is ∙ z)) found
          ∙ rw (whole_test max_len (length d) remove_partial h) out.1,
      out.2,
      out.3,
    )

partial_lem :
    (heap : Heap) (pq : PacketQueue) (p : ℕ) (d : List ℕ) (rest : Nodes) (max_len : ℕ)
    → Holds (heap, pq) ((p, d) ∷ rest)
    → (length d ≤ max_len + max_len) ⊎ (max_len ≡ 0)
    → (s' : State) × (take_partial heap pq (record { data_bytes = d; next = first rest }) max_len
        ≡ returns (copied max_len (take max_len d) s'))
      × Holds s' ((p, drop max_len d) ∷ rest)
unfolding take_partial
partial_lem heap pq p d rest max_len v h =
    let node : Node = record { data_bytes = drop max_len d; next = first rest } in
    (
      (update heap pq.head (some node), pq),
      ground arith,
      record {
        linked =
            subst (λ q. Linked (update heap q (some node)) ((p, drop max_len d) ∷ rest))
              (sym v.head_is)
              (
                v.linked.0,
                ground arith,
                v.linked.2,
                Linked-update heap p (some node) rest v.linked.2 v.linked.3,
              );
        head_is = v.head_is;
        tail_is = v.tail_is ∙ same_last rest;
      },
    )
  where
    same_last : (ns : Nodes) → last ((p, d) ∷ ns) ≡ last ((p, drop max_len d) ∷ ns)
    same_last [] = refl
    same_last (n ∷ ns) = refl

partial_test : (a b : ℕ) → a < b → (ltb a b && true) ≡ true
partial_test a b h = ground arith

-- If a part is asked for and the packet does not fit, then the call copies as much as fits and
-- returns its length, and the rest of the packet stays at the head, provided that the packet is at
-- most twice as long as the destination.
pub dequeue_partial :
    (s : State) (p : ℕ) (d : List ℕ) (rest : Nodes) (max_len : ℕ)
    → Holds s ((p, d) ∷ rest)
    → max_len < length d
    → length d ≤ max_len + max_len
    → (s' : State) × (dequeue_buffer s max_len true ≡ returns (copied max_len (take max_len d) s'))
      × Holds s' ((p, drop max_len d) ∷ rest)
dequeue_partial (heap, pq) p d rest max_len v h k =
    let node : Node = record { data_bytes = d; next = first rest } in
    let found : heap pq.head ≡ some node = ap heap v.head_is ∙ v.linked.1 in
    let out = partial_lem heap pq p d rest max_len v (inl k) in
    (
      out.0,
      dequeue_head heap pq node max_len true (λ z. v.linked.0 (sym v.head_is ∙ z)) found
          ∙ rw (partial_test max_len (length d) h) out.1,
      out.2,
    )

overlap_lem :
    (heap : Heap) (pq : PacketQueue) (node : Node) (max_len : ℕ)
    → 0 < max_len
    → max_len + max_len < length node.data_bytes
    → take_partial heap pq node max_len ≡ undefined
unfolding take_partial
overlap_lem heap pq node max_len z h = ground arith

-- If a part is asked for of a packet more than twice as long as the destination, which is not
-- empty, then the rest of the packet is moved within its buffer by a `memcpy` between areas that overlap, which is undefined.
pub dequeue_overlap :
    (s : State) (p : ℕ) (d : List ℕ) (rest : Nodes) (max_len : ℕ)
    → Holds s ((p, d) ∷ rest)
    → 0 < max_len
    → max_len + max_len < length d
    → dequeue_buffer s max_len true ≡ undefined
dequeue_overlap (heap, pq) p d rest max_len v z h =
    let node : Node = record { data_bytes = d; next = first rest } in
    let found : heap pq.head ≡ some node = ap heap v.head_is ∙ v.linked.1 in
    dequeue_head heap pq node max_len true (λ z. v.linked.0 (sym v.head_is ∙ z)) found
    ∙ rw (partial_test max_len (length d) (omega arith)) (overlap_lem heap pq node max_len z h)

-- Where the destination is empty, nothing is copied, and the packet stays.
pub dequeue_nothing :
    (s : State) (p : ℕ) (d : List ℕ) (rest : Nodes)
    → Holds s ((p, d) ∷ rest)
    → 0 < length d
    → (s' : State) × (dequeue_buffer s 0 true ≡ returns (copied 0 [] s')) × Holds s' ((p, d) ∷ rest)
dequeue_nothing (heap, pq) p d rest v h =
    let node : Node = record { data_bytes = d; next = first rest } in
    let found : heap pq.head ≡ some node = ap heap v.head_is ∙ v.linked.1 in
    let out = partial_lem heap pq p d rest 0 v (inr refl) in
    (
      out.0,
      dequeue_head heap pq node 0 true (λ z. v.linked.0 (sym v.head_is ∙ z)) found
          ∙ rw (partial_test 0 (length d) h) out.1,
      out.2,
    )
