-- ===== src/Stcp/PacketQueue/Stream.antt =====
-- The queue between `mywrite` and the transport layer, and between it and `myread`, as a stream of
-- bytes.
use mathlib.Core.List.{append_assoc, append-nil}
use computer_networks.Prelude.{
  ℕ, ◌+◌, ◌≤◌, ◌≡◌, ◌≢◌, inl, List, [], ◌∷◌, ◌++◌, true, arith, ap, sym, ◌∙◌, returns, take, drop,
  length, min, take-append-drop, take-eq_self, length-take, dec_le,
}
use computer_networks.Stcp.PacketQueue.{State, copied, enqueue_buffer, dequeue_buffer}
use computer_networks.Stcp.PacketQueue.Segment.{Nodes, NotIn, Holds}
use computer_networks.Stcp.PacketQueue.Enqueue.{enqueue_buffer-Holds}
use computer_networks.Stcp.PacketQueue.Dequeue.{dequeue_whole, dequeue_partial}

-- The bytes in the queue, oldest first.
abbrev pub stream : Nodes → List ℕ
stream [] = []
stream ((p, d) ∷ rest) = d ++ stream rest

pub stream-append : (ns : Nodes) (p : ℕ) (d : List ℕ) → stream (ns ++ (p, d) ∷ []) ≡ stream ns ++ d
stream-append [] p d = append-nil d
stream-append ((q, e) ∷ rest) p d =
    ap (◌++◌ e) (stream-append rest p d) ∙ sym (append_assoc e (stream rest) d)

-- Queueing a packet puts its bytes at the end of the stream.
pub enqueue-stream :
    (s : State) (ns : Nodes) (p : ℕ) (packet : List ℕ)
    → Holds s ns
    → p ≢ 0
    → NotIn p ns
    → (s' : State) × (ns' : Nodes) × (enqueue_buffer s p packet ≡ returns s')
      × Holds s' ns'
      × (stream ns' ≡ stream ns ++ packet)
enqueue-stream s ns p packet v nz n =
    let e = enqueue_buffer-Holds s ns p packet v nz n in
    (e.0, ns ++ (p, packet) ∷ [], e.1, e.2, stream-append ns p packet)

-- A read of at most `max_len` bytes, parts allowed, takes bytes from the front of the stream: it
-- returns their number, at most `max_len`, and what it copied followed by what is left is the stream
-- as it was. (The first packet is at most twice as long as the destination.)
pub dequeue-stream :
    (s : State) (p : ℕ) (d : List ℕ) (rest : Nodes) (max_len : ℕ)
    → Holds s ((p, d) ∷ rest)
    → length d ≤ max_len + max_len
    → (n : ℕ) × (out : List ℕ) × (s' : State) × (ns' : Nodes) × (dequeue_buffer s max_len true
        ≡ returns (copied n out s'))
      × Holds s' ns'
      × (n ≡ length out)
      × (n ≤ max_len)
      × (out ++ stream ns' ≡ stream ((p, d) ∷ rest))
dequeue-stream s p d rest max_len v h = elim (dec_le (length d) max_len) [
  | yes fits ↦
      let w = dequeue_whole s p d rest max_len true v (inl fits) in
      let all : take (min max_len (length d)) d ≡ d = take-eq_self _ d (omega arith) in
      (
        length d,
        take (min max_len (length d)) d,
        w.0,
        rest,
        w.1,
        w.2,
        ap length (sym all),
        fits,
        ap (λ x. x ++ stream rest) all,
      )
  | no long ↦
      let w = dequeue_partial s p d rest max_len v (omega arith) h in
      (
        max_len,
        take max_len d,
        w.0,
        (p, drop max_len d) ∷ rest,
        w.1,
        w.2,
        omega (arith, length-take max_len d),
        omega arith,
        sym (append_assoc (take max_len d) (drop max_len d) (stream rest))
            ∙ ap (λ x. x ++ stream rest) (take-append-drop max_len d),
      )
]
