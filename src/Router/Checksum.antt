-- ===== src/Router/Checksum.antt =====
-- Assignment2/src/router/sr_utils.c: the Internet checksum, and the two header field readers.
-- The bytes of a buffer are a list; what `int len` counts is the length of that list.
pub mod Fold
pub mod Verify
use computer_networks.Prelude.{
  ℕ, zero, suc, ◌+◌, ◌-◌, ◌*◌, ◌/◌, ◌%◌, ◌^◌, List, [], ◌∷◌, Option, none, some, true, false,
  if◌then◌else◌, ◌==◌, ltb,
}
use computer_networks.Prelude.Words.{swap16, complement16}

abbrev pub add32 : ℕ → ℕ → ℕ
add32 a b = (a + b) % 2 ^ 32

-- The `for` loop and the odd byte after it. `data[0] << 8 | data[1]` joins two bytes, so that the
-- `|` is a sum.
unfoldable pub sum_words : ℕ → List ℕ → ℕ
sum_words sum [] = sum
sum_words sum (a ∷ []) = add32 sum (a * 256)
sum_words sum (a ∷ b ∷ rest) = sum_words (add32 sum (a * 256 + b)) rest

-- `while (sum > 0xffff)`; `none` is that the rounds ran out.
unfoldable pub fold : ℕ → ℕ → Option ℕ
fold zero sum = none
fold (suc rounds) sum = elim (ltb 0xffff sum) [
  | true ↦ fold rounds (sum / 2 ^ 16 + sum % 2 ^ 16)
  | false ↦ some sum
]

-- `sum = htons (~sum); return sum ? sum : 0xffff;`
unfoldable pub finish : ℕ → ℕ
finish sum = let sum' = swap16 (complement16 sum) in if sum' == 0 then 0xffff else sum'

-- Two rounds bring any 32-bit sum below 2 ^ 16, and the third meets the test that ends the loop.
abbrev pub rounds : ℕ
rounds = 3

unfoldable pub cksum : List ℕ → Option ℕ
cksum bytes = elim (fold rounds (sum_words 0 bytes)) [ none ↦ none | some sum ↦ some (finish sum) ]

-- `ethertype`: the two bytes behind the two addresses, in host order. A read past the end of the
-- buffer is `none`.
pub ethertype : List ℕ → Option ℕ
ethertype (_ ∷ _ ∷ _ ∷ _ ∷ _ ∷ _ ∷ _ ∷ _ ∷ _ ∷ _ ∷ _ ∷ _ ∷ a ∷ b ∷ _) = some (swap16 (a + b * 256))
ethertype _ = none

-- `ip_protocol`: byte 9 of the header.
pub ip_protocol : List ℕ → Option ℕ
ip_protocol (_ ∷ _ ∷ _ ∷ _ ∷ _ ∷ _ ∷ _ ∷ _ ∷ _ ∷ p ∷ _) = some p
ip_protocol _ = none
