-- ===== src/Transfer/Numbers/RoundTrip.antt =====
-- Printing a number and reading it.
use computer_networks.Prelude.{
  ℕ, zero, suc, ◌+◌, ◌*◌, ◌/◌, ◌%◌, ◌<◌, ◌≡◌, inl, inr, refl, sym, ap, ◌∙◌, [], ◌∷◌, some, true,
  false, ◌==◌, Bool-cases, arith, All, Bytes,
}
use computer_networks.Transfer.Numbers.{
  digits, decimal, is_digit, scan_digits, scan_unsigned, skip_spaces, scan_int,
}

abbrev pub IsDigits : Bytes → Type 0
IsDigits = All (λ c. is_digit c ≡ true)

scan_digits-digit :
    (m n : ℕ) (out : Bytes)
    → scan_digits m ((48 + n % 10) ∷ out) ≡ scan_digits (m * 10 + n % 10) out
unfolding scan_digits
scan_digits-digit m n out = ground arith

scan_digits-digits :
    (rounds n : ℕ) (out : Bytes)
    → n < rounds
    → scan_digits 0 (digits rounds n out) ≡ scan_digits n out
unfolding digits
scan_digits-digits zero n out h = absurd (omega arith)
scan_digits-digits (suc rounds) n out h = elim (Bool-cases (n / 10 == 0)) [
  | inl e ↦
      let low : 0 * 10 + n % 10 ≡ n = ground arith in
      rw e (scan_digits-digit 0 n out ∙ ap (λ k. scan_digits k out) low)
  | inr e ↦
      let step : n / 10 * 10 + n % 10 ≡ n = omega arith in
      rw e (
        scan_digits-digits rounds (n / 10) ((48 + n % 10) ∷ out) (ground arith)
        ∙ scan_digits-digit (n / 10) n out
        ∙ ap (λ k. scan_digits k out) step)
]

digits-IsDigits : (rounds n : ℕ) (out : Bytes) → IsDigits out → IsDigits (digits rounds n out)
unfolding digits
digits-IsDigits zero n out h = h
digits-IsDigits (suc rounds) n out h =
    let d : is_digit (48 + n % 10) ≡ true = ground arith in
    elim (Bool-cases (n / 10 == 0)) [
      | inl e ↦ rw e (d, h)
      | inr e ↦ rw e (digits-IsDigits rounds (n / 10) ((48 + n % 10) ∷ out) (d, h))
    ]

pub decimal-IsDigits : (n : ℕ) → IsDigits (decimal n)
unfolding decimal
decimal-IsDigits n = digits-IsDigits (suc n) n [] tt

-- The first of the digits.
first_digit :
    (rounds n : ℕ) (out : Bytes)
    → n < rounds
    → (c : ℕ) × (s : Bytes) × (digits rounds n out ≡ c ∷ s) × (is_digit c ≡ true)
unfolding digits
first_digit zero n out h = absurd (omega arith)
first_digit (suc rounds) n out h =
    let d : is_digit (48 + n % 10) ≡ true = ground arith in
    elim (Bool-cases (n / 10 == 0)) [
      | inl e ↦ (48 + n % 10, out, rw e refl, d)
      | inr e ↦
          let (c, s, q, p) = first_digit rounds (n / 10) ((48 + n % 10) ∷ out) (ground arith) in
          (c, s, rw e q, p)
    ]

scan_int-digit :
    (c : ℕ) (s : Bytes) → is_digit c ≡ true → scan_int (c ∷ s) ≡ some (false, scan_digits 0 (c ∷ s))
unfolding scan_int skip_spaces scan_unsigned
scan_int-digit c s d = ground arith

-- `%d` reads what `%lu` has printed.
pub scan_int-decimal : (n : ℕ) → scan_int (decimal n) ≡ some (false, n)
unfolding decimal scan_digits
scan_int-decimal n =
    let (c, s, q, d) = first_digit (suc n) n [] (omega arith) in
    ap scan_int q
    ∙ scan_int-digit c s d
    ∙ ap (λ x. some (false, scan_digits 0 x)) (sym q)
    ∙ ap (λ k. some (false, k)) (scan_digits-digits (suc n) n [] (omega arith))
