-- ===== src/Router/Checksum/Verify.antt =====
-- The checksum as a receiver checks it, over the data and the checksum.
use computer_networks.Prelude.{
  ℕ, ◌+◌, ◌*◌, ◌/◌, ◌%◌, ◌^◌, ◌≤◌, ◌<◌, ◌≡◌, ◌↔◌, List, [], ◌∷◌, ◌++◌, Option, none, some, arith,
  length, length-append, All, ap, ◌∙◌,
}
use computer_networks.Prelude.Words.{swap16, store16}
use computer_networks.Router.Checksum.{sum_words, fold, rounds, finish, cksum}
use computer_networks.Router.Checksum.Fold.{
  IsByte, word_sum, word_sum_le, sum_words-eq-word_sum, Folded, fold-Folded,
}

abbrev result : Option ℕ → Option ℕ
result o = elim o [ none ↦ none | some sum ↦ some (finish sum) ]

-- The loop's sum and what it folds to, for data whose words cannot overflow 32 bits.
folded :
    (bytes : List ℕ)
    → All IsByte bytes
    → length bytes ≤ 2 ^ 16
    → (t : ℕ) × (cksum bytes ≡ some (finish t)) × Folded (word_sum bytes) t
unfolding cksum
folded bytes h l =
    let fits : word_sum bytes < 2 ^ 32 = omega (arith, word_sum_le bytes h) in
    let e : sum_words 0 bytes ≡ word_sum bytes =
      omega (arith, sum_words-eq-word_sum bytes 0 (omega arith)) in
    let f = fold-Folded (word_sum bytes) fits in
    (f.0, ap (λ s. result (fold rounds s)) e ∙ ap result f.1, f.2)

-- For at most 2 ^ 16 bytes the checksum is computed, is a non-zero 16-bit number, and completes
-- the one's complement sum of the words of the data to 0 modulo 0xffff.
pub cksum-completes :
    (bytes : List ℕ)
    → All IsByte bytes
    → length bytes ≤ 2 ^ 16
    → (r : ℕ) × (cksum bytes ≡ some r)
      × (0 < r)
      × (r ≤ 0xffff)
      × ((word_sum bytes + swap16 r) % 0xffff ≡ 0)
unfolding finish
cksum-completes bytes h l =
    let f = folded bytes h l in (finish f.0, f.1, ground arith, ground arith, ground arith)

-- For at most 2 ^ 16 bytes the checksum is 0xffff exactly if the words sum up to 0 modulo 0xffff.
pub cksum-eq-ffff_iff :
    (bytes : List ℕ)
    → All IsByte bytes
    → length bytes ≤ 2 ^ 16
    → (cksum bytes ≡ some 0xffff) ↔ (word_sum bytes % 0xffff ≡ 0)
unfolding finish
cksum-eq-ffff_iff bytes h l = let f = folded bytes h l in ((λ e. ground arith), (λ e. ground arith))

word_sum-append_store :
    (bytes : List ℕ) (r : ℕ)
    → length bytes % 2 ≡ 0
    → word_sum (bytes ++ store16 r) ≡ word_sum bytes + (r % 256 * 256 + r / 256)
word_sum-append_store [] r h = omega arith
word_sum-append_store (a ∷ []) r h = absurd (omega arith)
word_sum-append_store (a ∷ b ∷ rest) r h = omega (arith, word_sum-append_store rest r)

All-append_store :
    (bytes : List ℕ) (r : ℕ) → r ≤ 0xffff → All IsByte bytes → All IsByte (bytes ++ store16 r)
All-append_store [] r l h = omega arith
All-append_store (a ∷ rest) r l h = (h.0, All-append_store rest r l h.1)

-- If an even number of at most 65534 bytes is followed by its own checksum as it lies in memory,
-- the checksum of the whole is 0xffff.
pub cksum-append_cksum :
    (bytes : List ℕ) {r : ℕ}
    → All IsByte bytes
    → length bytes % 2 ≡ 0
    → length bytes ≤ 65534
    → cksum bytes ≡ some r
    → cksum (bytes ++ store16 r) ≡ some 0xffff
cksum-append_cksum bytes {r} h even l e =
    let c = cksum-completes bytes h (omega arith) in
    let same : r ≡ c.0 = ground (arith, c.1) in
    (cksum-eq-ffff_iff (bytes ++ store16 r) (All-append_store bytes r (omega arith) h)
        (omega (arith, length-append bytes (store16 r)))).1
      (omega (arith, word_sum-append_store bytes r even))
