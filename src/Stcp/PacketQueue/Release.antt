-- ===== src/Stcp/PacketQueue/Release.antt =====
-- Freeing what is left in a queue.
use computer_networks.Prelude.{
  ℕ, zero, suc, ◌<◌, ◌≡◌, ◌≢◌, [], ◌∷◌, Option, none, some, Bool, true, false, if◌then◌else◌, ltb,
  arith, refl, ◌∙◌, Outcome, returns, ==_of_ne, length, All, ◌↔◌,
}
use computer_networks.Stcp.PacketQueue.{
  Node, Heap, update, load, State, empty_queue, free_nodes, free_queue,
}
use computer_networks.Stcp.PacketQueue.Segment.{Nodes, first, NotIn, Linked, Holds, Linked-update}

-- What the loop leaves: the nodes are gone, and nothing else has changed.
record Freed (heap : Heap) (ns : Nodes) (result : Bool) (out : Outcome (Option (Bool × Heap)))
    : Type 0 where
  heap' : Heap
  result' : Bool
  returned : out ≡ returns (some (result', heap'))
  stays : result ≡ true → result' ≡ true
  starts : ns ≡ [] → result' ≡ result
  gone : All (λ n. heap' n.0 ≡ none) ns
  others : (q : ℕ) → NotIn q ns → heap' q ≡ heap q

free_nodes_step :
    (rounds : ℕ) (heap : Heap) (p : ℕ) (node : Node) (result : Bool)
    → p ≢ 0
    → heap p ≡ some node
    → free_nodes (suc rounds) heap p result
      ≡ free_nodes rounds
          (update heap p none)
          node.next
          (if ltb 0 (length node.data_bytes) then true else result)
unfolding free_nodes
free_nodes_step rounds heap p node result nz h = rw (==_of_ne p 0 nz, free_nodes) (rw (h, load))

free_nodes-Freed :
    (ns : Nodes) (rounds : ℕ) (heap : Heap) (result : Bool)
    → length ns < rounds
    → Linked heap ns
    → Freed heap ns result (free_nodes rounds heap (first ns) result)
unfolding free_nodes
free_nodes-Freed ns zero heap result f l = absurd (omega arith)
free_nodes-Freed [] (suc rounds) heap result f l = record {
  heap' = heap;
  result' = result;
  returned = refl;
  stays = λ e. e;
  starts = λ _. refl;
  gone = tt;
  others = λ q _. refl;
}
free_nodes-Freed ((p, d) ∷ rest) (suc rounds) heap result f l =
    let node : Node = record { data_bytes = d; next = first rest } in
    let result' = if ltb 0 (length d) then true else result in
    let ih =
      free_nodes-Freed rest rounds (update heap p none) result' (omega arith)
        (Linked-update heap p none rest l.2 l.3) in
    record {
      heap' = ih.heap';
      result' = ih.result';
      returned = free_nodes_step rounds heap p node result l.0 l.1 ∙ ih.returned;
      stays = λ e. ih.stays (ground arith);
      starts = λ e. ground arith;
      gone = (ih.others p l.2 ∙ ground arith, ih.gone);
      others = λ q n. ih.others q n.1 ∙ ground (arith, n.0);
    }

-- With more rounds than nodes the release of a queue returns: each node is freed, nothing else on
-- the heap changes, the queue is empty, and the answer is TRUE exactly if there was a packet, even
-- if all packets were of length 0.
pub free_queue_lem :
    (s : State) (ns : Nodes) (rounds : ℕ)
    → Holds s ns
    → length ns < rounds
    → (heap' : Heap) × (result : Bool) × (free_queue rounds s
        ≡ returns (some (result, (heap', empty_queue))))
      × All (λ n. heap' n.0 ≡ none) ns
      × ((q : ℕ) → NotIn q ns → heap' q ≡ s.0 q)
      × ((result ≡ false) ↔ (ns ≡ []))
unfolding free_queue
free_queue_lem (heap, pq) [] rounds v f =
    let fr = free_nodes-Freed [] rounds heap false f tt in
    (
      fr.heap',
      fr.result',
      rw v.head_is (rw (fr.returned)),
      tt,
      fr.others,
      ((λ _. refl), (λ e. fr.starts e)),
    )
free_queue_lem (heap, pq) ((p, d) ∷ rest) rounds v f =
    let fr = free_nodes-Freed ((p, d) ∷ rest) rounds heap true f v.linked in
    (
      fr.heap',
      fr.result',
      rw v.head_is (rw (==_of_ne p 0 v.linked.0) (rw (fr.returned))),
      fr.gone,
      fr.others,
      ((λ e. cc (e, fr.stays refl)), (λ e. cc e)),
    )
