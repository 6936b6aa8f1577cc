-- ===== src/Stcp/PacketQueue/Segment.antt =====
-- When the nodes of a heap form a queue: the packets in order, each with its node.
use computer_networks.Prelude.{ℕ, ◌≡◌, ◌≢◌, List, [], ◌∷◌, Option, some, arith}
use computer_networks.Stcp.PacketQueue.{Node, Heap, update, State}

abbrev pub Nodes : Type 0
Nodes = List (ℕ × List ℕ)

abbrev pub first : Nodes → ℕ
first [] = 0
first ((p, d) ∷ rest) = p

abbrev pub last : Nodes → ℕ
last [] = 0
last ((p, d) ∷ []) = p
last ((p, d) ∷ (q, e) ∷ rest) = last ((q, e) ∷ rest)

abbrev pub NotIn : ℕ → Nodes → Type 0
NotIn p [] = Unit
NotIn p ((q, d) ∷ rest) = (p ≢ q) × NotIn p rest

-- The nodes stand on the heap, each linked to the next, at different places.
abbrev pub Linked : Heap → Nodes → Type 0
Linked heap [] = Unit
Linked heap ((p, d) ∷ rest) =
    (p ≢ 0)
    × (heap p ≡ some (record { data_bytes = d; next = first rest }))
    × NotIn p rest
    × Linked heap rest

-- The queue's two pointers are those of the nodes.
pub record Holds (s : State) (ns : Nodes) : Type 0 where
  pub linked : Linked s.0 ns
  pub head_is : s.1.head ≡ first ns
  pub tail_is : s.1.tail ≡ last ns

-- The packets of the nodes, oldest first.
abbrev pub packets : Nodes → List (List ℕ)
packets [] = []
packets ((p, d) ∷ rest) = d ∷ packets rest

-- A write outside the nodes leaves them.
pub Linked-update :
    (heap : Heap) (p : ℕ) (stored : Option Node) (ns : Nodes)
    → NotIn p ns
    → Linked heap ns
    → Linked (update heap p stored) ns
Linked-update heap p stored [] n l = tt
Linked-update heap p stored ((q, d) ∷ rest) n l =
    (l.0, ground (arith, n.0, l.1), l.2, Linked-update heap p stored rest n.1 l.3)

pub last-ne :
    (p q : ℕ) (d : List ℕ) (rest : Nodes) → NotIn p ((q, d) ∷ rest) → p ≢ last ((q, d) ∷ rest)
last-ne p q d [] n = n.0
last-ne p q d ((r, e) ∷ rest) n = last-ne p r e rest n.1

pub last-ne-zero :
    (heap : Heap) (q : ℕ) (d : List ℕ) (rest : Nodes)
    → Linked heap ((q, d) ∷ rest)
    → last ((q, d) ∷ rest) ≢ 0
last-ne-zero heap q d [] l = l.0
last-ne-zero heap q d ((r, e) ∷ rest) l = last-ne-zero heap r e rest l.3

-- The last node, with its packet.
abbrev pub last_data : List ℕ → Nodes → List ℕ
last_data d [] = d
last_data d ((r, e) ∷ rest) = last_data e rest

pub last_node :
    (heap : Heap) (q : ℕ) (d : List ℕ) (rest : Nodes)
    → Linked heap ((q, d) ∷ rest)
    → heap (last ((q, d) ∷ rest)) ≡ some (record { data_bytes = last_data d rest; next = 0 })
last_node heap q d [] l = l.1
last_node heap q d ((r, e) ∷ rest) l = last_node heap r e rest l.3
