-- ===== src/Proxy/Parse/Tokens.antt =====
-- What `strtok_r` finds, and a request line without a version.
use computer_networks.Prelude.{
  ℕ, zero, suc, ◌+◌, ◌≤◌, ◌≡◌, ◌≢◌, refl, ap, ◌∙◌, [], ◌∷◌, ◌++◌, some, true, false, if◌then◌else◌,
  ◌==◌, arith, All, set, drop, length, length-append, drop-prefix, returns, undefined, ◌>>=◌, Bytes,
  read8, ◌⊎◌, inl, inr, Bool-cases, ==_of_ne,
}
use mathlib.Core.List.{append_assoc}
use computer_networks.Proxy.Parse.{
  is_in, string_from, spn, cspn, Token, strtok, has_prefix, space, take_version, split_line,
}

-- No character of the text is 0 or one of these.
abbrev pub Clean : Bytes → Bytes → Type 0
Clean delims s = All (λ c. (c ≢ 0) × (is_in c delims ≡ false)) s

pub cspn-Clean :
    (delims s post : Bytes) (d : ℕ)
    → Clean delims s
    → (d ≡ 0) ⊎ (is_in d delims ≡ true)
    → cspn delims (s ++ d ∷ post) ≡ returns (length s)
unfolding cspn
cspn-Clean delims [] post d h (inl z) = let t : (d == 0) ≡ true = ground arith in rw t refl
cspn-Clean delims [] post d h (inr i) = elim (Bool-cases (d == 0)) [
  | inl t ↦ rw t refl
  | inr t ↦ rw (t, i) refl
]
cspn-Clean delims (c ∷ s) post d ((z, i), h) e =
    rw (==_of_ne c 0 z, i) (ap (λ o. o >>= λ n. returns (suc n)) (cspn-Clean delims s post d h e))

pub string_from-Clean :
    (delims s post : Bytes) → Clean delims s → string_from (s ++ 0 ∷ post) ≡ returns s
unfolding string_from
string_from-Clean delims [] post h = refl
string_from-Clean delims (c ∷ s) post ((z, i), h) =
    rw (==_of_ne c 0 z) (ap (λ o. o >>= λ s. returns (c ∷ s)) (string_from-Clean delims s post h))

pub spn-Clean :
    (delims s post : Bytes) (c : ℕ)
    → Clean delims (c ∷ s)
    → spn delims (c ∷ (s ++ post)) ≡ returns 0
unfolding spn
spn-Clean delims s post c ((z, i), h) = rw (==_of_ne c 0 z, i) refl

pub read8-middle :
    (pre s post : Bytes) (d n : ℕ)
    → n ≡ length pre + length s
    → read8 (pre ++ (s ++ d ∷ post)) n ≡ returns d
read8-middle [] [] post d zero e = refl
read8-middle [] [] post d (suc n) e = absurd (omega (arith, e))
read8-middle [] (c ∷ s) post d zero e = absurd (omega (arith, e))
read8-middle [] (c ∷ s) post d (suc n) e = read8-middle [] s post d n (omega (arith, e))
read8-middle (a ∷ pre) s post d zero e = absurd (omega (arith, e))
read8-middle (a ∷ pre) s post d (suc n) e = read8-middle pre s post d n (omega (arith, e))

-- A token that starts where the search does, up to the character behind it.
strtok_lem :
    (delims mem pre s post : Bytes) (start c d : ℕ)
    → mem ≡ pre ++ (c ∷ s ++ d ∷ post)
    → start ≡ length pre
    → Clean delims (c ∷ s)
    → (d ≡ 0) ⊎ (is_in d delims ≡ true)
    → strtok mem start delims
      ≡ returns (
          if d == 0
          then record {
            place = some (length pre);
            mem = mem;
            saveptr = length pre + length (c ∷ s);
          }
          else record {
            place = some (length pre);
            mem = set mem (length pre + length (c ∷ s)) 0;
            saveptr = suc (length pre + length (c ∷ s));
          })
unfolding strtok
strtok_lem delims mem pre s post start c d m b h e =
    let at : (k : ℕ) → k ≡ length pre → drop k mem ≡ c ∷ (s ++ d ∷ post) =
      λ k q. ap (drop k) m ∙ drop-prefix pre (c ∷ (s ++ d ∷ post)) k 0 (omega (arith, q)) in
    let e1 : spn delims (drop start mem) ≡ returns 0 =
      ap (spn delims) (at start b) ∙ spn-Clean delims s (d ∷ post) c h in
    let z : start + 0 ≡ length pre = omega (arith, b) in
    let e2 : cspn delims (drop (length pre) mem) ≡ returns (length (c ∷ s)) =
      ap (cspn delims) (at (length pre) refl) ∙ cspn-Clean delims (c ∷ s) post d h e in
    let e3 : read8 mem (length pre + length (c ∷ s)) ≡ returns d =
      ap (λ x. read8 x (length pre + length (c ∷ s))) m ∙ read8-middle pre (c ∷ s) post d _ refl in
    let t : (length (c ∷ s) == 0) ≡ false = ground arith in
    rw (e1, strtok) (rw z (rw e2 (rw e3 (rw t refl))))

pub set-middle :
    (pre post : Bytes) (x y n : ℕ)
    → n ≡ length pre
    → set (pre ++ x ∷ post) n y ≡ (pre ++ y ∷ []) ++ post
set-middle [] post x y zero e = refl
set-middle [] post x y (suc n) e = absurd (omega (arith, e))
set-middle (a ∷ pre) post x y zero e = absurd (omega (arith, e))
set-middle (a ∷ pre) post x y (suc n) e = ap (◌∷◌ a) (set-middle pre post x y n (omega (arith, e)))

drop-all : (n : ℕ) (l : Bytes) → length l ≤ n → drop n l ≡ []
drop-all zero [] h = refl
drop-all zero (x ∷ l) h = absurd (omega arith)
drop-all (suc n) [] h = refl
drop-all (suc n) (x ∷ l) h = drop-all n l (omega arith)

-- An address at the very end of the memory.
take_version-end :
    (t : Token) (pre a : Bytes) (method full_addr : ℕ)
    → t.mem ≡ pre ++ (a ++ 0 ∷ [])
    → full_addr ≡ length pre
    → Clean space a
    → take_version t method full_addr ≡ undefined
unfolding take_version has_prefix
take_version-end t pre a method full_addr m f h =
    let e1 : string_from (drop full_addr t.mem) ≡ returns a =
      ap (λ x. string_from (drop full_addr x)) m
      ∙ ap string_from (drop-prefix pre (a ++ 0 ∷ []) full_addr 0 (omega (arith, f)))
      ∙ string_from-Clean space a [] h in
    let e2 : drop (full_addr + length a + 1) t.mem ≡ [] =
      ap (drop (full_addr + length a + 1)) m
      ∙ drop-all (full_addr + length a + 1) (pre ++ (a ++ 0 ∷ []))
          (omega (arith, f, length-append pre (a ++ 0 ∷ []), length-append a (0 ∷ []))) in
    rw (e1, take_version) (rw e2 refl)

-- A request line of a method and an address (not empty, without a space or a 0), with nothing behind
-- them, is read past the end of its copy.
pub split_line-no_version :
    (method addr : Bytes) (c d : ℕ)
    → Clean space (c ∷ method)
    → Clean space (d ∷ addr)
    → split_line ((c ∷ method) ++ 32 ∷ d ∷ addr) ≡ undefined
unfolding split_line
split_line-no_version method addr c d h k =
    let mem = ((c ∷ method) ++ 32 ∷ d ∷ addr) ++ 0 ∷ [] in
    let mem' = set mem (0 + length (c ∷ method)) 0 in
    let rest = (d ∷ addr) ++ 0 ∷ [] in
    let pre = (c ∷ method) ++ 0 ∷ [] in
    let m : mem ≡ (c ∷ method) ++ 32 ∷ rest = append_assoc (c ∷ method) (32 ∷ d ∷ addr) (0 ∷ []) in
    let m' : mem' ≡ pre ++ rest =
      ap (λ x. set x (0 + length (c ∷ method)) 0) m
      ∙ set-middle (c ∷ method) rest 32 0 (0 + length (c ∷ method)) (omega arith) in
    let start = suc (0 + length (c ∷ method)) in
    let t1 = strtok_lem space mem [] method rest 0 c 32 m refl h (inr refl) in
    let t2 =
      strtok_lem space mem' pre addr [] start d 0 m'
        (omega (arith, length-append (c ∷ method) (0 ∷ []))) k (inl refl) in
    rw (t1, split_line)
      (rw t2 (
        take_version-end
          (record {
            place = some (length pre);
            mem = mem';
            saveptr = length pre + length (d ∷ addr);
          })
          pre (d ∷ addr) 0 (length pre) m' refl k))
