-- ===== src/Stcp/Transport/Receive.antt =====
-- Packets of the network on their way to the transport layer.
use computer_networks.Prelude.{
  ℕ, zero, suc, ◌/◌, ◌%◌, ◌<◌, ◌≤◌, ◌≡◌, ◌≢◌, inr, refl, ap, ◌∙◌, List, [], ◌∷◌, some, Bool, true,
  false, if◌then◌else◌, ltb, leb, arith, take, drop, length, length-drop, length-take, take-eq_self,
  min, set, returns, undefined, assert, ◌>>=◌, ◌>>◌, >>=-eq-returns, assert-eq-returns, ◌==◌,
  read16, copy_to, Bytes,
}
use computer_networks.Stcp.TcpSum.{
  tcphdr_size, af_inet, Summable, set_checksum, verify_checksum, verify-set_checksum,
}
use computer_networks.Stcp.PacketQueue.{State, copied}
use computer_networks.Stcp.PacketQueue.Segment.{Nodes, Holds}
use computer_networks.Stcp.PacketQueue.Enqueue.{enqueue_buffer-Holds}
use computer_networks.Stcp.PacketQueue.Dequeue.{dequeue_whole}
use computer_networks.Stcp.World.{Context, World, get_context}
use computer_networks.Stcp.Queues.{network_recv, set_queue, put_state, enqueue, dequeue}
use computer_networks.Stcp.Queues.Laws.{state_of, get_context-put_state, enqueue_lem, dequeue_lem}
use computer_networks.Stcp.Transport.{
  max_ip_payload_len, check_received, received, network_receive, gather, make_segment, network_send,
  network_round,
}

check_received-whole :
    (peer_addr : Bytes) (family addr : ℕ) (ends : ℕ × ℕ) (d : Bytes)
    → read16 peer_addr 0 ≡ returns family
    → verify_checksum family addr ends d ≡ returns true
    → check_received peer_addr addr ends (length d) d ≡ returns tt
check_received-whole peer_addr family addr ends [] f c = refl
check_received-whole peer_addr family addr ends (x ∷ d) f c =
    let t : ltb (length (x ∷ d)) (length (x ∷ d)) ≡ false = ground arith in
    let verify = λ (family : ℕ). verify_checksum family addr ends (x ∷ d) >>= λ ok. assert ok in
    ap (λ b. if b then undefined else (read16 peer_addr 0 >>= verify)) t
    ∙ ap (λ o. o >>= verify) f
    ∙ ap (λ o. o >>= λ ok. assert ok) c

check_received-short :
    (peer_addr : Bytes) (addr : ℕ) (ends : ℕ × ℕ) (len : ℕ) (out : Bytes)
    → length out < len
    → check_received peer_addr addr ends len out ≡ undefined
check_received-short peer_addr addr ends zero out h = absurd (omega arith)
check_received-short peer_addr addr ends (suc len) out h =
    let t : ltb (length out) (suc len) ≡ true = ground arith in
    let verify = λ (family : ℕ). verify_checksum family addr ends out >>= λ ok. assert ok in
    ap (λ b. if b then undefined else (read16 peer_addr 0 >>= verify)) t

-- A packet whose checksum is right is received whole.
pub network_receive-whole :
    (w : World) (sd addr : ℕ) (ends : ℕ × ℕ) (max_len : ℕ) (ctx : Context) (p : ℕ) (d : Bytes)
    (rest : Nodes) (family : ℕ)
    → get_context w sd ≡ returns ctx
    → read16 ctx.peer_addr 0 ≡ returns family
    → Holds (state_of w ctx network_recv) ((p, d) ∷ rest)
    → length d ≤ max_len
    → verify_checksum family addr ends d ≡ returns true
    → (s : State) × (network_receive w sd addr ends max_len
        ≡ returns (some (length d, d, put_state w sd ctx network_recv s)))
      × Holds s rest
unfolding network_receive
network_receive-whole w sd addr ends max_len ctx p d rest family g f v h c =
    let (s, q, v', gone) =
      dequeue_whole (state_of w ctx network_recv) p d rest max_len false v (inr refl) in
    let all : take (min max_len (length d)) d ≡ d = take-eq_self _ d (omega arith) in
    let r = dequeue_lem w sd ctx network_recv max_len false (copied (length d) _ s) g q in
    (
      s,
      ap
            (λ o. o >>= λ c. dequeue w sd network_recv max_len false >>= λ read.
              received c.peer_addr addr ends read)
            g
          ∙ ap (λ o. o >>= λ read. received ctx.peer_addr addr ends read) r
          ∙ ap
              (λ out.
                received ctx.peer_addr addr ends
                  (some (length d, out, put_state w sd ctx network_recv s)))
              all
          ∙ ap (λ o. o >> returns (some (length d, d, put_state w sd ctx network_recv s)))
              (check_received-whole ctx.peer_addr family addr ends d f c),
      v',
    )

-- A packet longer than the buffer is cut to its size, but its whole length is returned, and the checksum
-- is computed over bytes behind the buffer.
pub network_receive-short :
    (w : World) (sd addr : ℕ) (ends : ℕ × ℕ) (max_len : ℕ) (ctx : Context) (p : ℕ) (d : Bytes)
    (rest : Nodes)
    → get_context w sd ≡ returns ctx
    → Holds (state_of w ctx network_recv) ((p, d) ∷ rest)
    → max_len < length d
    → network_receive w sd addr ends max_len ≡ undefined
unfolding network_receive
network_receive-short w sd addr ends max_len ctx p d rest g v h =
    let (s, q, v', gone) =
      dequeue_whole (state_of w ctx network_recv) p d rest max_len false v (inr refl) in
    let r = dequeue_lem w sd ctx network_recv max_len false (copied (length d) _ s) g q in
    let cut : length (take (min max_len (length d)) d) < length d =
      omega (arith, length-take (min max_len (length d)) d) in
    ap
      (λ o. o >>= λ c.
        dequeue w sd network_recv max_len false >>= λ read. received c.peer_addr addr ends read)
      g
    ∙ ap (λ o. o >>= λ read. received ctx.peer_addr addr ends read) r
    ∙ ap
        (λ o.
          o
          >> returns
              (some (length d, take (min max_len (length d)) d, put_state w sd ctx network_recv s)))
        (check_received-short ctx.peer_addr addr ends (length d) _ cut)

network_round_lem :
    (w : World) (sd : ℕ) (network_init : Bool) (p : ℕ) (packet : Bytes) (ctx : Context) (w' : World)
    → get_context w sd ≡ returns ctx
    → ctx.listening ≡ false
    → length packet ≤ max_ip_payload_len
    → enqueue w sd network_recv p packet ≡ returns w'
    → network_round w sd network_init p (some packet) ≡ returns (w', true)
unfolding network_round
network_round_lem w sd network_init p packet ctx w' g l h e =
    let t : leb (length packet) max_ip_payload_len ≡ true = ground arith in
    rw (t, network_round) (rw g (rw l (rw e refl)))

is_af_inet : (family : ℕ) → (family == af_inet) ≡ true → family ≡ af_inet
is_af_inet family e = ground (arith, e)

-- A packet is made only for a peer whose address is one of the internet.
make_segment-family :
    (w : World) (sd : ℕ) (port : Bytes) (bufs : List Bytes) {segment : Bytes}
    → make_segment w sd port bufs ≡ returns segment
    → (ctx : Context) × (get_context w sd ≡ returns ctx)
      × (read16 ctx.peer_addr 0 ≡ returns af_inet)
unfolding make_segment
make_segment-family w sd port bufs m =
    let (ctx, g, a) = >>=-eq-returns (get_context w sd) _ m in
    let (packet, _, b) = >>=-eq-returns (gather [] bufs) _ a in
    let (_, _, c) = >>=-eq-returns (assert (leb tcphdr_size (length packet))) _ b in
    let (_, _, d) = >>=-eq-returns (copy_to packet 0 port) _ c in
    let (family, f, e) = >>=-eq-returns (read16 ctx.peer_addr 0) _ d in
    let (_, is_inet, _) = >>=-eq-returns (assert (family == af_inet)) _ e in
    (ctx, g, f ∙ ap returns (is_af_inet family (assert-eq-returns (family == af_inet) is_inet)))

-- What one end sends, the receive thread of the other end queues and its transport layer receives whole,
-- without an assertion failing. The two ends have each other's address, neither of them 0, and the receiver
-- knows its peer by an internet address; the segment has a whole header and fewer than 2^14 bytes, is aligned
-- at both ends, and fits the limit of a packet and the buffer; the receiver does not listen and has no packet
-- waiting.
pub network_send-receive :
    (w v : World) (sd peer_sd addr addr' : ℕ) (ends : ℕ × ℕ) (port : Bytes) (bufs : List Bytes)
    (segment : Bytes) (network_init : Bool) (ctx : Context) (p max_len : ℕ)
    → make_segment w sd port bufs ≡ returns segment
    → Summable addr ends segment
    → addr' / 2 % 2 ≡ 0
    → get_context v peer_sd ≡ returns ctx
    → ctx.listening ≡ false
    → read16 ctx.peer_addr 0 ≡ returns af_inet
    → Holds (state_of v ctx network_recv) []
    → p ≢ 0
    → length segment ≤ max_ip_payload_len
    → length segment ≤ max_len
    → (sent : Bytes) × (v' : World) × (v'' : World) × (network_send w sd port addr ends bufs
        ≡ returns sent)
      × (take 16 sent ≡ take 16 segment)
      × (drop 18 sent ≡ drop 18 segment)
      × (network_round v peer_sd network_init p (some sent) ≡ returns (v', true))
      × (network_receive v' peer_sd addr' (ends.1, ends.0) max_len
          ≡ returns (some (length sent, sent, v'')))
unfolding network_send
network_send-receive w v sd peer_sd addr addr' ends port bufs segment network_init ctx p max_len m h
      a g l inet empty nz small fits =
    let (sent, set, before, behind, ok) = verify-set_checksum addr addr' ends segment h a in
    let (from, gf, family) = make_segment-family w sd port bufs m in
    let same : length sent ≡ length segment =
      omega (arith, h.0, ap length behind, length-drop 18 sent, length-drop 18 segment) in
    let (s, e, v1) = enqueue_buffer-Holds (state_of v ctx network_recv) [] p sent empty nz tt in
    let v' = put_state v peer_sd ctx network_recv s in
    let g' = get_context-put_state v peer_sd ctx network_recv s g in
    let r =
      network_receive-whole v' peer_sd addr' (ends.1, ends.0) max_len
        (set_queue network_recv s.1 ctx) p sent [] af_inet g' inet v1 (omega (arith, same, fits))
        ok in
    (
      sent,
      v',
      _,
      ap
            (λ o. o >>= λ packet. get_context w sd >>= λ c.
              read16 c.peer_addr 0 >>= λ family. set_checksum family addr ends packet)
            m
          ∙ ap
              (λ o.
                o >>= λ c. read16 c.peer_addr 0 >>= λ family. set_checksum family addr ends segment)
              gf
          ∙ ap (λ o. o >>= λ family. set_checksum family addr ends segment) family
          ∙ set,
      before,
      behind,
      network_round_lem v peer_sd network_init p sent ctx v' g l (omega (arith, same, small))
          (enqueue_lem v peer_sd ctx network_recv p sent s g e),
      r.1,
    )
