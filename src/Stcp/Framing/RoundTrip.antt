-- ===== src/Stcp/Framing/RoundTrip.antt =====
-- A packet over a stream, from its sender to its receiver.
use computer_networks.Prelude.{
  ℕ, zero, suc, ◌+◌, ◌-◌, ◌*◌, ◌/◌, ◌%◌, ◌^◌, ◌<◌, ◌≤◌, ◌≡◌, refl, ap, sym, ◌∙◌, List, [], ◌∷◌,
  ◌++◌, true, false, ◌==◌, ltb, leb, take, drop, length, take-prefix, drop-prefix, take-eq_self,
  min, arith, returns, assert, ◌>>=◌, ◌>>◌, Bytes,
}
use computer_networks.Stcp.Framing.{
  Call, moves, all, prepend, tcp_io, network16, sent, sent_behind, send_body, network_send_packet,
  received, discarded, receive_body, receive_length, network_recv_packet,
}

-- Calls that move so many bytes each, and one more.
abbrev pub chunks : List ℕ → List Call → List Call
chunks [] calls = calls
chunks (k ∷ ks) calls = moves k ∷ chunks ks calls

abbrev pub total : List ℕ → ℕ
total [] = 0
total (k ∷ ks) = suc k + total ks

take-nil : (n : ℕ) → take {A = ℕ} n [] ≡ []
take-nil zero = refl
take-nil (suc n) = refl

drop-nil : (n : ℕ) → drop {A = ℕ} n [] ≡ []
drop-nil zero = refl
drop-nil (suc n) = refl

take-split : (m j n : ℕ) (l : Bytes) → j + m ≡ n → take m l ++ take j (drop m l) ≡ take n l
take-split zero j n l e = ap (λ x. take x l) (omega (arith, e))
take-split (suc m) j n [] e = take-nil j ∙ sym (take-nil n)
take-split (suc m) j zero (x ∷ l) e = absurd (omega (arith, e))
take-split (suc m) j (suc n) (x ∷ l) e = ap (◌∷◌ x) (take-split m j n l (omega (arith, e)))

drop-split : (m j n : ℕ) (l : Bytes) → j + m ≡ n → drop j (drop m l) ≡ drop n l
drop-split zero j n l e = ap (λ x. drop x l) (omega (arith, e))
drop-split (suc m) j n [] e = drop-nil j ∙ sym (drop-nil n)
drop-split (suc m) j zero (x ∷ l) e = absurd (omega (arith, e))
drop-split (suc m) j (suc n) (x ∷ l) e = drop-split m j n l (omega (arith, e))

pub take-short : (m : ℕ) (l r : Bytes) → m ≤ length l → take m (l ++ r) ≡ take m l
take-short zero l r h = refl
take-short (suc m) [] r h = absurd (omega arith)
take-short (suc m) (x ∷ l) r h = ap (◌∷◌ x) (take-short m l r (omega arith))

pub tcp_io-chunks :
    (ks : List ℕ) (calls : List Call) (source : Bytes) (n : ℕ)
    → n ≡ total ks
    → tcp_io (chunks ks calls) source n ≡ returns (all (take n source) (drop n source) calls)
unfolding tcp_io
tcp_io-chunks [] calls source zero e = refl
tcp_io-chunks [] calls source (suc n) e = absurd (omega (arith, e))
tcp_io-chunks (k ∷ ks) calls source zero e = absurd (omega (arith, e))
tcp_io-chunks (k ∷ ks) calls source (suc n) e =
    let t : leb (suc k) (suc n) ≡ true = ground arith in
    ap
      (λ b.
        assert b
        >> (tcp_io (chunks ks calls) (drop (suc k) source) (n - k) >>= λ rest.
            returns (prepend (take (suc k) source) rest)))
      t
    ∙ ap (λ o. o >>= λ rest. returns (prepend (take (suc k) source) rest))
        (tcp_io-chunks ks calls (drop (suc k) source) (n - k) (omega (arith, e)))
    ∙ ap (λ a. returns (all a (drop (n - k) (drop (suc k) source)) calls))
        (take-split (suc k) (n - k) (suc n) source (omega (arith, e)))
    ∙ ap (λ a. returns (all (take (suc n) source) a calls))
        (drop-split (suc k) (n - k) (suc n) source (omega (arith, e)))

-- A packet on the wire.
abbrev pub frame : Bytes → Bytes
frame packet = network16 (length packet) ++ packet

-- All of the packet is written behind its length.
pub network_send_packet-frame :
    (packet : Bytes) (ks ls : List ℕ) (calls : List Call)
    → 2 ≡ total ks
    → length packet ≡ total ls
    → network_send_packet (chunks ks (chunks ls calls)) packet ≡ returns (sent (frame packet) calls)
unfolding network_send_packet
network_send_packet-frame packet ks ls calls h b =
    ap (λ o. o >>= send_body packet)
      (tcp_io-chunks ks (chunks ls calls) (network16 (length packet)) 2 h)
    ∙ ap (λ o. o >>= λ body. returns (sent_behind (network16 (length packet)) body))
        (tcp_io-chunks ls calls packet (length packet) b)
    ∙ ap (λ x. returns (sent (network16 (length packet) ++ x) calls))
        (take-eq_self _ packet (omega arith))

-- The length that is read.
abbrev read_length : ℕ → ℕ
read_length n = 256 * (n / 256 % 256) + n % 256

read_length_lem : (n : ℕ) → n < 2 ^ 16 → read_length n ≡ n
read_length_lem n h = omega (arith, h)

receive_body-all :
    (packet rest : Bytes) (n : ℕ) (calls : List Call) (max_len : ℕ)
    → 0 < n
    → n ≡ length packet
    → n ≤ max_len
    → receive_body n max_len (all (take n (packet ++ rest)) (drop n (packet ++ rest)) calls)
      ≡ returns (received n packet rest calls)
receive_body-all packet rest n calls max_len nz e fits =
    let some_body : (min n max_len == 0) ≡ false = ground arith in
    let not_long : ltb max_len n ≡ false = ground arith in
    rw (some_body, not_long)
      (rw (take-prefix packet rest n e, drop-prefix packet rest n 0 (omega (arith, e))) refl)

receive_body-long :
    (packet rest : Bytes) (n : ℕ) (ms : List ℕ) (calls : List Call) (max_len : ℕ)
    → 0 < max_len
    → n ≡ length packet
    → max_len < n
    → n - max_len ≡ total ms
    → receive_body n max_len
        (all (take max_len (packet ++ rest)) (drop max_len (packet ++ rest)) (chunks ms calls))
      ≡ returns (received n (take max_len packet) rest calls)
receive_body-long packet rest n ms calls max_len nz e long d =
    let some_body : (min n max_len == 0) ≡ false = ground arith in
    let too_long : ltb max_len n ≡ true = ground arith in
    let dst = take max_len (packet ++ rest) in
    let left = drop max_len (packet ++ rest) in
    rw (some_body, too_long)
      (ap (λ o. o >>= λ dummy. returns (discarded n dst dummy))
          (tcp_io-chunks ms calls left (n - max_len) d)
        ∙ ap (λ x. returns (received n x (drop (n - max_len) left) calls))
            (take-short max_len packet rest (omega (arith, long, e)))
        ∙ ap (λ x. returns (received n (take max_len packet) x calls))
            (drop-split max_len (n - max_len) n (packet ++ rest) (omega (arith, long))
              ∙ drop-prefix packet rest n 0 (omega (arith, e))))

-- A packet on the wire, with more of the stream behind it, is received as it was sent.
pub network_recv_packet-frame :
    (packet rest : Bytes) (ks ls : List ℕ) (calls : List Call) (max_len : ℕ)
    → 0 < length packet
    → length packet ≤ max_len
    → length packet < 2 ^ 16
    → 2 ≡ total ks
    → length packet ≡ total ls
    → network_recv_packet (chunks ks (chunks ls calls)) (frame packet ++ rest) max_len
      ≡ returns (received (length packet) packet rest calls)
unfolding network_recv_packet
network_recv_packet-frame packet rest ks ls calls max_len nz fits small h b =
    ap (λ o. o >>= receive_length max_len)
      (tcp_io-chunks ks (chunks ls calls) (frame packet ++ rest) 2 h)
    ∙ ap (λ n. tcp_io (chunks ls calls) (packet ++ rest) (min n max_len) >>= receive_body n max_len)
        (read_length_lem (length packet) small)
    ∙ ap (λ m. tcp_io (chunks ls calls) (packet ++ rest) m >>= receive_body (length packet) max_len)
        (omega (arith, fits))
    ∙ ap (λ o. o >>= receive_body (length packet) max_len)
        (tcp_io-chunks ls calls (packet ++ rest) (length packet) b)
    ∙ receive_body-all packet rest (length packet) calls max_len nz refl fits

-- Of a packet that is longer than the buffer, the first `max_len` bytes are stored and the others
-- discarded, but the length that is returned is that of the packet. (The buffer is not empty, the packet
-- has fewer than 2^16 bytes, and no call fails.)
pub network_recv_packet-long :
    (packet rest : Bytes) (ks ls ms : List ℕ) (calls : List Call) (max_len : ℕ)
    → 0 < max_len
    → max_len < length packet
    → length packet < 2 ^ 16
    → 2 ≡ total ks
    → max_len ≡ total ls
    → length packet - max_len ≡ total ms
    → network_recv_packet (chunks ks (chunks ls (chunks ms calls))) (frame packet ++ rest) max_len
      ≡ returns (received (length packet) (take max_len packet) rest calls)
unfolding network_recv_packet
network_recv_packet-long packet rest ks ls ms calls max_len nz long small h b d =
    ap (λ o. o >>= receive_length max_len)
      (tcp_io-chunks ks (chunks ls (chunks ms calls)) (frame packet ++ rest) 2 h)
    ∙ ap
        (λ n.
          tcp_io (chunks ls (chunks ms calls)) (packet ++ rest) (min n max_len)
          >>= receive_body n max_len)
        (read_length_lem (length packet) small)
    ∙ ap
        (λ m.
          tcp_io (chunks ls (chunks ms calls)) (packet ++ rest) m
          >>= receive_body (length packet) max_len)
        (omega (arith, long))
    ∙ ap (λ o. o >>= receive_body (length packet) max_len)
        (tcp_io-chunks ls (chunks ms calls) (packet ++ rest) max_len b)
    ∙ receive_body-long packet rest (length packet) ms calls max_len nz refl long d

-- However the calls of `write` and `read` cut the stream, the peer receives the packet that was sent, and
-- what follows in the stream stays there. (The packet has at least 1 and fewer than 2^16 bytes, and fits the
-- buffer; no call fails.)
pub send-recv_packet :
    (packet rest : Bytes) (ks ls ks' ls' : List ℕ) (calls calls' : List Call) (max_len : ℕ)
    → 0 < length packet
    → length packet ≤ max_len
    → length packet < 2 ^ 16
    → 2 ≡ total ks
    → length packet ≡ total ls
    → 2 ≡ total ks'
    → length packet ≡ total ls'
    → (wire : Bytes) × (network_send_packet (chunks ks (chunks ls calls)) packet
        ≡ returns (sent wire calls))
      × (network_recv_packet (chunks ks' (chunks ls' calls')) (wire ++ rest) max_len
          ≡ returns (received (length packet) packet rest calls'))
send-recv_packet packet rest ks ls ks' ls' calls calls' max_len nz fits small h b h' b' = (
  frame packet,
  network_send_packet-frame packet ks ls calls h b,
  network_recv_packet-frame packet rest ks' ls' calls' max_len nz fits small h' b',
)
