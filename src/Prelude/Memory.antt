-- ===== src/Prelude/Memory.antt =====
-- Memory that is read and copied, on a little-endian host: `memcpy` out of a buffer and into it. An access outside the buffer is
-- undefined.
use Prim.Native.Nat.{ℕ, zero, suc, ◌+◌, ◌*◌, ◌≤◌}
use mathlib.Core.Path.{◌≡◌, refl, sym, ap, ◌∙◌}
use mathlib.Core.Bool.{true}
use mathlib.Core.List.{List, [], ◌∷◌, ◌++◌}
use mathlib.Core.List.{append_assoc}
use mathlib.Core.Option.{Option, none, some}
use native.Mathlib.Omega.{arith}
use computer_networks.Prelude.Tests.{if◌then◌else◌, leb}
use computer_networks.Prelude.Lists.{length, get_elem?, take, drop, length-append, length-drop}
use computer_networks.Prelude.Outcomes.{Outcome, returns, undefined, ◌>>=◌}

abbrev pub Bytes : Type 0
Bytes = List ℕ

abbrev read_at : Option ℕ → Outcome ℕ
read_at none = undefined
read_at (some b) = returns b

abbrev pub read8 : Bytes → ℕ → Outcome ℕ
read8 buf i = read_at (get_elem? buf i)

abbrev pub read16 : Bytes → ℕ → Outcome ℕ
read16 buf i = do a ← read8 buf i; b ← read8 buf (i + 1); returns (a + 256 * b)

abbrev pub read32 : Bytes → ℕ → Outcome ℕ
read32 buf i = do a ← read16 buf i; b ← read16 buf (i + 2); returns (a + 65536 * b)

abbrev pub copy_from : Bytes → ℕ → ℕ → Outcome Bytes
copy_from buf i n = if leb (i + n) (length buf) then returns (take n (drop i buf)) else undefined

abbrev pub copy_to : Bytes → ℕ → Bytes → Outcome Bytes
copy_to buf i bs =
    if leb (i + length bs) (length buf)
    then returns (take i buf ++ bs ++ drop (i + length bs) buf)
    else undefined

-- Copies in a row, each behind the one before.
abbrev pub copy_all : Bytes → ℕ → List Bytes → Outcome Bytes
copy_all buf i [] = returns buf
copy_all buf i (bs ∷ rest) = copy_to buf i bs >>= λ buf'. copy_all buf' (i + length bs) rest

abbrev pub concat : List Bytes → Bytes
concat [] = []
concat (bs ∷ rest) = bs ++ concat rest

take-append : (pre old : Bytes) → take (length pre) (pre ++ old) ≡ pre
take-append [] old = refl
take-append (x ∷ pre) old = ap (◌∷◌ x) (take-append pre old)

drop-append : (pre old : Bytes) (n : ℕ) → drop (length pre + n) (pre ++ old) ≡ drop n old
drop-append [] old n = let e : 0 + n ≡ n = omega arith in ap (λ k. drop k old) e
drop-append (x ∷ pre) old n =
    let e : suc (length pre) + n ≡ suc (length pre + n) = omega arith in
    ap (λ k. drop k (x ∷ (pre ++ old))) e ∙ drop-append pre old n

get_elem?-append :
    (pre r : Bytes) (n i : ℕ) → n ≡ length pre + i → get_elem? (pre ++ r) n ≡ get_elem? r i
get_elem?-append [] r n i e = ap (get_elem? r) (omega (arith, e))
get_elem?-append (a ∷ pre) r zero i e = absurd (omega arith)
get_elem?-append (a ∷ pre) r (suc n) i e = get_elem?-append pre r n i (omega (arith, e))

-- The two bytes behind a prefix, read as a number.
pub read16-append :
    (pre : Bytes) (x y : ℕ) (r : Bytes) (n : ℕ)
    → n ≡ length pre
    → read16 (pre ++ x ∷ y ∷ r) n ≡ returns (x + 256 * y)
read16-append pre x y r n e =
    let first : read8 (pre ++ x ∷ y ∷ r) n ≡ returns x =
      ap read_at (get_elem?-append pre (x ∷ y ∷ r) n 0 (omega (arith, e))) in
    let second : read8 (pre ++ x ∷ y ∷ r) (n + 1) ≡ returns y =
      ap read_at (get_elem?-append pre (x ∷ y ∷ r) (n + 1) 1 (omega (arith, e))) in
    ap (λ o. o >>= λ a. read8 (pre ++ x ∷ y ∷ r) (n + 1) >>= λ b. returns (a + 256 * b)) first
    ∙ ap (λ o. o >>= λ b. returns (x + 256 * b)) second

pub take-prefix : (pre old : Bytes) (n : ℕ) → n ≡ length pre → take n (pre ++ old) ≡ pre
take-prefix pre old n e = ap (λ k. take k (pre ++ old)) e ∙ take-append pre old

pub drop-prefix :
    (pre old : Bytes) (n m : ℕ) → n ≡ length pre + m → drop n (pre ++ old) ≡ drop m old
drop-prefix pre old n m e = ap (λ k. drop k (pre ++ old)) e ∙ drop-append pre old m

pub copy_to-append :
    (pre old bs : Bytes)
    → length bs ≤ length old
    → copy_to (pre ++ old) (length pre) bs ≡ returns (pre ++ (bs ++ drop (length bs) old))
copy_to-append pre old bs h =
    let e : leb (length pre + length bs) (length (pre ++ old)) ≡ true =
      ground (arith, length-append pre old) in
    rw (e, take-append pre old, drop-append pre old (length bs))
      (ap returns (append_assoc pre bs (drop (length bs) old)))

drop-nil : (n : ℕ) → drop {A = ℕ} n [] ≡ []
drop-nil zero = refl
drop-nil (suc n) = refl

pub drop-drop : (m n : ℕ) (xs : Bytes) → drop n (drop m xs) ≡ drop (m + n) xs
drop-drop zero n xs = let e : 0 + n ≡ n = omega arith in sym (ap (λ k. drop k xs) e)
drop-drop (suc m) n [] = drop-nil n ∙ sym (drop-nil (suc m + n))
drop-drop (suc m) n (x ∷ xs) =
    let e : suc m + n ≡ suc (m + n) = omega arith in
    drop-drop m n xs ∙ sym (ap (λ k. drop k (x ∷ xs)) e)

pub copy_all-append :
    (pre old : Bytes) (chunks : List Bytes)
    → length (concat chunks) ≤ length old
    → copy_all (pre ++ old) (length pre) chunks
      ≡ returns (pre ++ (concat chunks ++ drop (length (concat chunks)) old))
copy_all-append pre old [] h = refl
copy_all-append pre old (bs ∷ rest) h =
    let more = drop (length bs) old in
    let end = drop (length (concat rest)) more in
    let h' : length (concat rest) ≤ length more =
      omega (arith, length-append bs (concat rest), length-drop (length bs) old) in
    ap (λ o. o >>= λ buf'. copy_all buf' (length pre + length bs) rest)
      (copy_to-append pre old bs (omega (arith, length-append bs (concat rest))))
    ∙ cc (
      copy_all-append (pre ++ bs) more rest h',
      append_assoc pre bs more,
      length-append pre bs,
      append_assoc pre bs (concat rest ++ end),
      append_assoc bs (concat rest) end,
      drop-drop (length bs) (length (concat rest)) old,
      length-append bs (concat rest),
    )

-- Two texts one behind the other are one text.
pub append_after :
    (pre c tail old : Bytes)
    → (pre ++ c) ++ (tail ++ drop (length tail) (drop (length c) old))
      ≡ pre ++ ((c ++ tail) ++ drop (length (c ++ tail)) old)
append_after pre c tail old =
    let end = drop (length tail) (drop (length c) old) in
    cc (
      append_assoc pre c (tail ++ end),
      append_assoc c tail end,
      drop-drop (length c) (length tail) old,
      length-append c tail,
    )
