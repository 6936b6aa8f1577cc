-- ===== src/Transfer/Numbers.antt =====
-- The conversions of the C library that client.c and server.c use for the length of a file: `%lu` of
-- `sprintf`, and `%d` and `%u` of `sscanf`.
pub mod RoundTrip
use computer_networks.Prelude.{
  ℕ, zero, suc, ◌+◌, ◌-◌, ◌*◌, ◌/◌, ◌%◌, List, [], ◌∷◌, Option, none, some, Bool, true, false,
  if◌then◌else◌, ◌==◌, ◌&&◌, ◌||◌, ltb, leb, Bytes,
}

-- The rounds are one more than the number, which is more than it has digits.
unfoldable pub digits : ℕ → ℕ → Bytes → Bytes
digits zero n out = out
digits (suc rounds) n out =
    let rest = digits rounds (n / 10) ((48 + n % 10) ∷ out) in
    if n / 10 == 0 then (48 + n % 10) ∷ out else rest

-- `%lu`
unfoldable pub decimal : ℕ → Bytes
unfolding digits
decimal n = digits (suc n) n []

abbrev pub is_digit : ℕ → Bool
is_digit c = leb 48 c && leb c 57

-- The digits in front.
unfoldable pub scan_digits : ℕ → Bytes → ℕ
scan_digits n [] = n
scan_digits n (c ∷ rest) =
    let more = scan_digits (n * 10 + (c - 48)) rest in if is_digit c then more else n

abbrev pub is_space : ℕ → Bool
is_space c = c == 32 || leb 9 c && leb c 13

unfoldable pub skip_spaces : Bytes → Bytes
skip_spaces [] = []
skip_spaces (c ∷ rest) = let skipped = skip_spaces rest in if is_space c then skipped else c ∷ rest

-- A number with its sign, true for minus.
unfoldable pub scan_unsigned : Bytes → Option ℕ
unfolding scan_digits
scan_unsigned [] = none
scan_unsigned (c ∷ rest) = if is_digit c then some (scan_digits 0 (c ∷ rest)) else none

abbrev signed : Bool → Option ℕ → Option (Bool × ℕ)
signed b none = none
signed b (some n) = some (b, n)

-- `%d` before its range is looked at; none where nothing is converted.
unfoldable pub scan_int : Bytes → Option (Bool × ℕ)
unfolding skip_spaces scan_unsigned
scan_int s = elim (skip_spaces s) [
  | [] ↦ none
  | c ∷ rest ↦
      if c == 45
      then signed true (scan_unsigned rest)
      else if c == 43
      then signed false (scan_unsigned rest)
      else signed false (scan_unsigned (c ∷ rest))
]
