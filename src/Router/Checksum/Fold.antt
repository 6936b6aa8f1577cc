-- ===== src/Router/Checksum/Fold.antt =====
-- The folding loop of `cksum`.
use computer_networks.Prelude.{
  ℕ, suc, ◌+◌, ◌*◌, ◌/◌, ◌%◌, ◌^◌, ◌≤◌, ◌<◌, ◌≡◌, List, [], ◌∷◌, some, arith, length, All, dec_lt,
  ◌∙◌,
}
use computer_networks.Router.Checksum.{sum_words, fold, rounds}

abbrev pub IsByte : ℕ → Type 0
IsByte b = b < 256

-- The sum of the big-endian 16-bit words, an odd byte being the high half of a last word.
abbrev pub word_sum : List ℕ → ℕ
word_sum [] = 0
word_sum (a ∷ []) = a * 256
word_sum (a ∷ b ∷ rest) = a * 256 + b + word_sum rest

pub word_sum_le : (bytes : List ℕ) → All IsByte bytes → word_sum bytes ≤ 0xffff * length bytes
word_sum_le [] h = omega arith
word_sum_le (a ∷ []) h = omega arith
word_sum_le (a ∷ b ∷ rest) h = omega (arith, word_sum_le rest h.1.1)

-- While the true sum fits 32 bits, the loop computes it.
pub sum_words-eq-word_sum :
    (bytes : List ℕ) (sum : ℕ)
    → sum + word_sum bytes < 2 ^ 32
    → sum_words sum bytes ≡ sum + word_sum bytes
unfolding sum_words
sum_words-eq-word_sum [] sum h = omega arith
sum_words-eq-word_sum (a ∷ []) sum h = omega arith
sum_words-eq-word_sum (a ∷ b ∷ rest) sum h =
    omega (arith, sum_words-eq-word_sum rest ((sum + (a * 256 + b)) % 2 ^ 32))

pub sum_words-lt : (bytes : List ℕ) (sum : ℕ) → sum < 2 ^ 32 → sum_words sum bytes < 2 ^ 32
unfolding sum_words
sum_words-lt [] sum h = h
sum_words-lt (a ∷ []) sum h = omega arith
sum_words-lt (a ∷ b ∷ rest) sum h = sum_words-lt rest ((sum + (a * 256 + b)) % 2 ^ 32) (omega arith)

abbrev pub Folded : ℕ → ℕ → Type 0
Folded sum t = (t ≤ 0xffff) × (t % 0xffff ≡ sum % 0xffff) × ((t ≡ 0) → sum ≡ 0)

fold_one : (n s : ℕ) → s ≤ 0xffff → fold (suc n) s ≡ some s
unfolding fold
fold_one n s h = ground arith

fold_step : (n s : ℕ) → 0xffff < s → fold (suc n) s ≡ fold n (s / 2 ^ 16 + s % 2 ^ 16)
unfolding fold
fold_step n s h = ground arith

-- From any 32-bit sum the loop ends within its rounds, at a 16-bit sum equal modulo 0xffff.
pub fold-Folded : (s : ℕ) → s < 2 ^ 32 → (t : ℕ) × (fold rounds s ≡ some t) × Folded s t
fold-Folded s h = elim (dec_lt 0xffff s) [
  | no small ↦ (s, fold_one 2 s (omega arith), (omega arith))
  | yes large ↦ elim (dec_lt 0xffff s') [
    | no small' ↦ (s', fold_step 2 s large ∙ fold_one 1 s' (omega arith), (omega arith))
    | yes large' ↦ (
      s' / 2 ^ 16 + s' % 2 ^ 16,
      fold_step 2 s large ∙ fold_step 1 s' large' ∙ fold_one 0 _ (omega arith),
      (omega arith),
    )
  ]
]
  where
    s' : ℕ
    s' = s / 2 ^ 16 + s % 2 ^ 16
