-- ===== src/Stcp/TcpSum.antt =====
-- Assignment3/src/tcp_sum.c: the checksum of a segment, on a little-endian host. An `int32_t` that
-- overflows is undefined.
use computer_networks.Prelude.{
  ℕ, zero, suc, ◌+◌, ◌-◌, ◌*◌, ◌/◌, ◌%◌, ◌^◌, ◌≤◌, ◌<◌, ◌≡◌, refl, ap, ◌∙◌, [], ◌∷◌, ◌++◌, Bool,
  true, if◌then◌else◌, ltb, leb, ◌==◌, ==_refl, length, length-append, length-take, length-drop,
  take, drop, Outcome, returns, undefined, assert, ◌>>=◌, ◌>>◌, arith, All, Bytes, read16, copy_to,
  read16-append, take-prefix, drop-prefix,
}
use mathlib.Core.List.{append_assoc}
use computer_networks.Prelude.Words.{swap16, store16}

abbrev pub tcphdr_size : ℕ
tcphdr_size = 20

-- `offsetof(struct tcphdr, th_sum)`
abbrev pub th_sum : ℕ
th_sum = 16

abbrev word : ℕ → ℕ
word x = x % 65536

-- The sum of the words of the pseudo header: the two addresses, the protocol and the length.
pub pseudo_sum : ℕ → ℕ → ℕ → ℕ
pseudo_sum src_addr dst_addr len =
    word src_addr
    + word (src_addr / 65536)
    + (word dst_addr + word (dst_addr / 65536))
    + 6 * 256
    + swap16 (word len)

-- The sum of the words of the segment from word `k` on, without the checksum; a last byte alone is a
-- word of its own.
pub segment_sum : ℕ → Bytes → ℕ
segment_sum k [] = 0
segment_sum k (a ∷ []) = a
segment_sum k (a ∷ b ∷ rest) =
    (if k == th_sum / 2 then 0 else a + 256 * b) + segment_sum (suc k) rest

-- The two folds, and the complement as a `uint16_t`.
pub fold_sum : ℕ → ℕ
fold_sum sum =
    let once = sum / 65536 + sum % 65536 in let twice = once + once / 65536 in 65535 - twice % 65536

-- `addr` is the address of the packet.
pub tcp_checksum : ℕ → ℕ → ℕ → Bytes → Outcome ℕ
unfolding pseudo_sum segment_sum fold_sum
tcp_checksum addr src_addr dst_addr packet =
    let sum = pseudo_sum src_addr dst_addr (length packet) + segment_sum 0 packet in
    assert (leb tcphdr_size (length packet))
    >> (assert (ltb 0 src_addr)
        >> (assert (ltb 0 dst_addr)
            >> (assert (addr / 2 % 2 == 0)
                >> (if ltb sum (2 ^ 31) then returns (fold_sum sum) else undefined))))

abbrev pub af_inet : ℕ
af_inet = 2

-- Both take `sa_family` of the peer's address, and the addresses of the two ends of the connection, the
-- local one first.
pub set_checksum : ℕ → ℕ → ℕ × ℕ → Bytes → Outcome Bytes
unfolding tcp_checksum
set_checksum family addr ends packet =
    assert (family == af_inet)
    >> (tcp_checksum addr ends.0 ends.1 packet >>= λ sum. copy_to packet th_sum (store16 sum))

pub verify_checksum : ℕ → ℕ → ℕ × ℕ → Bytes → Outcome Bool
unfolding tcp_checksum
verify_checksum family addr ends packet =
    assert (family == af_inet)
    >> (tcp_checksum addr ends.1 ends.0 packet >>= λ my_sum.
        read16 packet th_sum >>= λ there. returns (my_sum == there))

segment_sum-le : (k : ℕ) (l : Bytes) → All (λ b. b < 256) l → segment_sum k l ≤ 65535 * length l
unfolding segment_sum
segment_sum-le k [] h = omega arith
segment_sum-le k (a ∷ []) h = omega arith
segment_sum-le k (a ∷ b ∷ rest) h = let ih = segment_sum-le (suc k) rest h.1.1 in ground arith

abbrev double : ℕ → ℕ
double zero = 0
double (suc n) = suc (suc (double n))

-- The sum does not see what stands in the place of the checksum.
segment_sum-skip :
    (n k : ℕ) (l : Bytes) (x y : ℕ)
    → k + n ≡ 8
    → suc (suc (double n)) ≤ length l
    → segment_sum k (take (double n) l ++ (x ∷ y ∷ []) ++ drop (suc (suc (double n))) l)
      ≡ segment_sum k l
unfolding segment_sum
segment_sum-skip zero k [] x y e h = absurd (omega arith)
segment_sum-skip zero k (a ∷ []) x y e h = absurd (omega arith)
segment_sum-skip zero k (a ∷ b ∷ rest) x y e h = ground arith
segment_sum-skip (suc n) k [] x y e h = absurd (omega arith)
segment_sum-skip (suc n) k (a ∷ []) x y e h = absurd (omega arith)
segment_sum-skip (suc n) k (a ∷ b ∷ rest) x y e h =
    let ih = segment_sum-skip n (suc k) rest x y (omega arith) (omega arith) in ground (arith, ih)

fold_sum-bound : (s : ℕ) → fold_sum s < 2 ^ 16
unfolding fold_sum
fold_sum-bound s = ground arith

-- RFC 1071: with its checksum, a sum comes to a multiple of 2^16 - 1.
fold_sum-completes : (s : ℕ) → s < 2 ^ 31 → (s + fold_sum s) % 65535 ≡ 0
unfolding fold_sum
fold_sum-completes s h = omega arith

-- The conditions under which a checksum is computed: a whole header, fewer than 2^14 bytes, an aligned
-- address, and both ends known.
abbrev pub Summable : ℕ → ℕ × ℕ → Bytes → Type 0
Summable addr ends packet =
    (tcphdr_size ≤ length packet)
    × (length packet < 2 ^ 14)
    × All (λ b. b < 256) packet
    × (addr / 2 % 2 ≡ 0)
    × (0 < ends.0)
    × (0 < ends.1)

pseudo_sum_comm : (a b len : ℕ) → pseudo_sum a b len ≡ pseudo_sum b a len
unfolding pseudo_sum
pseudo_sum_comm a b len = omega arith

total_small :
    (a b : ℕ) (packet : Bytes)
    → length packet < 2 ^ 14
    → All (λ b. b < 256) packet
    → pseudo_sum a b (length packet) + segment_sum 0 packet < 2 ^ 31
unfolding pseudo_sum
total_small a b packet h bytes = omega (arith, segment_sum-le 0 packet bytes)

checksum-returns :
    (addr a b : ℕ) (packet : Bytes)
    → tcphdr_size ≤ length packet
    → addr / 2 % 2 ≡ 0
    → 0 < a
    → 0 < b
    → pseudo_sum a b (length packet) + segment_sum 0 packet < 2 ^ 31
    → tcp_checksum addr a b packet
      ≡ returns (fold_sum (pseudo_sum a b (length packet) + segment_sum 0 packet))
unfolding tcp_checksum
checksum-returns addr a b packet len at pa pb small =
    let e1 : leb tcphdr_size (length packet) ≡ true = ground arith in
    let e2 : ltb 0 a ≡ true = ground arith in
    let e3 : ltb 0 b ≡ true = ground arith in
    let e4 : (addr / 2 % 2 == 0) ≡ true = ground arith in
    let e5 : ltb (pseudo_sum a b (length packet) + segment_sum 0 packet) (2 ^ 31) ≡ true =
      ground arith in
    rw (e1, e2, e3, e4, e5, tcp_checksum) refl

-- Under these conditions the checksum is computed, whichever end computes it, and with it the sum of the
-- pseudo header and the segment is a multiple of 2^16 - 1, as RFC 1071 wants.
pub tcp_checksum_lem :
    (addr : ℕ) (ends : ℕ × ℕ) (packet : Bytes)
    → Summable addr ends packet
    → let sum = pseudo_sum ends.0 ends.1 (length packet) + segment_sum 0 packet in
      (tcp_checksum addr ends.0 ends.1 packet ≡ returns (fold_sum sum))
      × (tcp_checksum addr ends.1 ends.0 packet ≡ returns (fold_sum sum))
      × ((sum + fold_sum sum) % 65535 ≡ 0)
tcp_checksum_lem addr ends packet h =
    let small = total_small ends.0 ends.1 packet h.1 h.2 in
    let comm = pseudo_sum_comm ends.1 ends.0 (length packet) in
    let sum' = segment_sum 0 packet in
    (
      checksum-returns addr ends.0 ends.1 packet h.0 h.3 h.4 h.5 small,
      checksum-returns addr ends.1 ends.0 packet h.0 h.3 h.5 h.4
            (total_small ends.1 ends.0 packet h.1 h.2)
          ∙ ap (λ s. returns (fold_sum (s + sum'))) comm,
      fold_sum-completes (pseudo_sum ends.0 ends.1 (length packet) + sum') small,
    )

abbrev patched : ℕ → Bytes → Bytes
patched ck packet = take 16 packet ++ store16 ck ++ drop 18 packet

patched_lem :
    (ck : ℕ) (packet : Bytes)
    → ck < 2 ^ 16
    → 18 ≤ length packet
    → (copy_to packet th_sum (store16 ck) ≡ returns (patched ck packet))
      × (take 16 (patched ck packet) ≡ take 16 packet)
      × (drop 18 (patched ck packet) ≡ drop 18 packet)
      × (length (patched ck packet) ≡ length packet)
      × (read16 (patched ck packet) th_sum ≡ returns ck)
      × (segment_sum 0 (patched ck packet) ≡ segment_sum 0 packet)
patched_lem ck packet b h =
    let pre = take 16 packet in
    let end = drop 18 packet in
    let n : 16 ≡ length pre = omega (arith, length-take 16 packet, h) in
    let two = pre ++ store16 ck in
    let fits : leb (th_sum + 2) (length packet) ≡ true = ground arith in
    let assoc = append_assoc pre (store16 ck) end in
    (
      rw fits refl,
      ap (take 16) assoc ∙ take-prefix pre (store16 ck ++ end) 16 n,
      drop-prefix two end 18 0 (omega (arith, n, length-append pre (store16 ck))),
      omega
          (arith, n, length-append two end, length-append pre (store16 ck), length-drop 18 packet),
      ap (λ l. read16 l th_sum) assoc
          ∙ read16-append pre (ck % 256) (ck / 256) end 16 n
          ∙ ap returns (omega (arith, b)),
      segment_sum-skip 8 0 packet (ck % 256) (ck / 256) refl h,
    )

verify-returns :
    (addr : ℕ) (ends : ℕ × ℕ) (packet : Bytes) (ck : ℕ)
    → tcp_checksum addr ends.1 ends.0 packet ≡ returns ck
    → read16 packet th_sum ≡ returns ck
    → verify_checksum af_inet addr ends packet ≡ returns true
unfolding verify_checksum
verify-returns addr ends packet ck e r =
    ap (λ o. o >>= λ my_sum. read16 packet th_sum >>= λ there. returns (my_sum == there)) e
    ∙ ap (λ o. o >>= λ there. returns (ck == there)) r
    ∙ ap returns (==_refl ck)

-- A segment whose checksum one end sets is accepted by the other end, which has the same two addresses
-- the other way round; nothing but the two bytes of the checksum is changed.
pub verify-set_checksum :
    (addr addr' : ℕ) (ends : ℕ × ℕ) (packet : Bytes)
    → Summable addr ends packet
    → addr' / 2 % 2 ≡ 0
    → (sent : Bytes) × (set_checksum af_inet addr ends packet ≡ returns sent)
      × (take 16 sent ≡ take 16 packet)
      × (drop 18 sent ≡ drop 18 packet)
      × (verify_checksum af_inet addr' (ends.1, ends.0) sent ≡ returns true)
unfolding set_checksum
verify-set_checksum addr addr' ends packet h a =
    let sum = pseudo_sum ends.0 ends.1 (length packet) + segment_sum 0 packet in
    let ck = fold_sum sum in
    let p = patched_lem ck packet (fold_sum-bound sum) (omega (arith, h.0)) in
    let sent = patched ck packet in
    let same : pseudo_sum ends.0 ends.1 (length sent) + segment_sum 0 sent ≡ sum =
      ap (λ n. pseudo_sum ends.0 ends.1 n + segment_sum 0 sent) p.3
      ∙ ap (λ s. pseudo_sum ends.0 ends.1 (length packet) + s) p.5 in
    (
      sent,
      ap (λ o. o >>= λ s. copy_to packet th_sum (store16 s)) (tcp_checksum_lem addr ends packet h).0
          ∙ p.0,
      p.1,
      p.2,
      verify-returns addr' (ends.1, ends.0) sent ck
          (checksum-returns addr' ends.0 ends.1 sent (omega (arith, h.0, p.3)) a h.4 h.5
              (omega (arith, same, total_small ends.0 ends.1 packet h.1 h.2))
            ∙ ap (λ s. returns (fold_sum s)) same)
          p.4,
    )
