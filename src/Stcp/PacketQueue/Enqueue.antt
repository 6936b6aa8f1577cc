-- ===== src/Stcp/PacketQueue/Enqueue.antt =====
-- Queueing a packet.
use computer_networks.Prelude.{
  ℕ, ◌≡◌, ◌≢◌, List, [], ◌∷◌, ◌++◌, some, arith, refl, ap, sym, ◌∙◌, returns, ==_of_ne, subst,
}
use computer_networks.Stcp.PacketQueue.{
  Node, Heap, update, load, PacketQueue, State, link_behind, enqueue_buffer,
}
use computer_networks.Stcp.PacketQueue.Segment.{
  Nodes, last, NotIn, Linked, Holds, Linked-update, last-ne, last-ne-zero, last_data, last_node,
}

NotIn-append :
    (p q : ℕ) (d : List ℕ) (ns : Nodes) → NotIn p ns → p ≢ q → NotIn p (ns ++ (q, d) ∷ [])
NotIn-append p q d [] n h = (h, tt)
NotIn-append p q d ((r, e) ∷ rest) n h = (n.0, NotIn-append p q d rest n.1 h)

-- Linking a node behind the last one.
Linked-append :
    (heap : Heap) (p q : ℕ) (d e : List ℕ) (rest : Nodes)
    → Linked heap ((q, e) ∷ rest)
    → NotIn p ((q, e) ∷ rest)
    → p ≢ 0
    → heap p ≡ some (record { data_bytes = d; next = 0 })
    → Linked
        (update heap
          (last ((q, e) ∷ rest))
          (some (record { data_bytes = last_data e rest; next = p })))
        ((q, e) ∷ rest ++ (p, d) ∷ [])
Linked-append heap p q d e [] l n nz h =
    (l.0, ground arith, ((λ x. n.0 (sym x)), tt), (nz, ground (arith, n.0, h), tt, tt))
Linked-append heap p q d e ((r, f) ∷ rest) l n nz h =
    let ne = last-ne q r f rest l.2 in
    (
      l.0,
      ground (arith, ne, l.1),
      NotIn-append q p d ((r, f) ∷ rest) l.2 (λ x. n.0 (sym x)),
      Linked-append heap p r d f rest l.3 n.1 nz h,
    )

last-append : (p : ℕ) (d : List ℕ) (ns : Nodes) → last (ns ++ (p, d) ∷ []) ≡ p
last-append p d [] = refl
last-append p d ((q, e) ∷ []) = refl
last-append p d ((q, e) ∷ (r, f) ∷ rest) = last-append p d ((r, f) ∷ rest)

link_behind_lem :
    (heap : Heap) (pq : PacketQueue) (p : ℕ) (d : List ℕ)
    → pq.tail ≢ 0
    → heap pq.tail ≡ some (record { data_bytes = d; next = 0 })
    → link_behind heap pq p
      ≡ returns
          (update heap pq.tail (some (record { data_bytes = d; next = p })), record pq { tail = p })
unfolding link_behind
link_behind_lem heap pq p d nz h = rw (==_of_ne pq.tail 0 nz, load) (rw (h, load))

-- Queueing a packet in a queue of linked nodes returns, with no assertion failed, and leaves those
-- nodes with the new one behind them, provided that the memory allocated is not that of a node.
pub enqueue_buffer-Holds :
    (s : State) (ns : Nodes) (p : ℕ) (packet : List ℕ)
    → Holds s ns
    → p ≢ 0
    → NotIn p ns
    → (s' : State) × (enqueue_buffer s p packet ≡ returns s') × Holds s' (ns ++ (p, packet) ∷ [])
unfolding enqueue_buffer
enqueue_buffer-Holds (heap, pq) [] p packet v nz n =
    let heap' = update heap p (some (record { data_bytes = packet; next = 0 })) in
    (
      (heap', record { head = p; tail = p }),
      ground (arith, v.head_is, v.tail_is),
      record { linked = (nz, ground arith, tt, tt); head_is = refl; tail_is = refl },
    )
enqueue_buffer-Holds (heap, pq) ((q, e) ∷ rest) p packet v nz n =
    let ns : Nodes = (q, e) ∷ rest in
    let node : Node = record { data_bytes = packet; next = 0 } in
    let heap' : Heap = update heap p (some node) in
    let l : Linked heap' ns = Linked-update heap p (some node) ns n v.linked in
    let headed : pq.head ≢ 0 = λ z. l.0 (sym v.head_is ∙ z) in
    let tailed : pq.tail ≢ 0 = λ z. last-ne-zero heap' q e rest l (sym v.tail_is ∙ z) in
    let at_tail = ap heap' v.tail_is ∙ last_node heap' q e rest l in
    let linked' : Node = record { data_bytes = last_data e rest; next = p } in
    (
      (update heap' pq.tail (some linked'), record pq { tail = p }),
      rw (==_of_ne pq.head 0 headed, enqueue_buffer)
          (link_behind_lem heap' pq p (last_data e rest) tailed at_tail),
      record {
        linked =
            subst (λ t. Linked (update heap' t (some linked')) (ns ++ (p, packet) ∷ []))
              (sym v.tail_is) (Linked-append heap' p q packet e rest l n nz (ground arith));
        head_is = v.head_is;
        tail_is = sym (last-append p packet ns);
      },
    )
