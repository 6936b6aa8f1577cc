-- ===== src/Proxy/Parse/Segments.antt =====
-- `strtok_r` on a memory of which the segments are known: delimiters that are passed over, the token, and the
-- character behind it.
use mathlib.Core.List.{append_assoc}
use computer_networks.Prelude.{
  ℕ, suc, ◌+◌, ◌≡◌, ◌≢◌, refl, sym, ap, ◌∙◌, [], ◌∷◌, ◌++◌, none, some, true, false, ◌==◌, inl, inr,
  ◌⊎◌, ==_of_ne, if◌then◌else◌, arith, All, set, drop, length, length-append, drop-prefix, returns,
  ◌>>=◌, Bytes, read8,
}
use computer_networks.Proxy.Parse.{is_in, string_from, spn, cspn, Token, strtok}
use computer_networks.Proxy.Parse.Tokens.{
  Clean, cspn-Clean, spn-Clean, string_from-Clean, read8-middle, set-middle,
}

-- Delimiters.
abbrev pub Delims : Bytes → Bytes → Type 0
Delims delims s = All (λ c. (c ≢ 0) × (is_in c delims ≡ true)) s

spn-Delims :
    (delims skip rest : Bytes)
    → Delims delims skip
    → spn delims rest ≡ returns 0
    → spn delims (skip ++ rest) ≡ returns (length skip)
unfolding spn
spn-Delims delims [] rest d e = e
spn-Delims delims (c ∷ skip) rest ((z, i), d) e =
    rw (==_of_ne c 0 z, i) (ap (λ o. o >>= λ n. returns (suc n)) (spn-Delims delims skip rest d e))

spn-nul : (delims post : Bytes) → spn delims (0 ∷ post) ≡ returns 0
unfolding spn
spn-nul delims post = refl

cspn-nul : (delims post : Bytes) → cspn delims (0 ∷ post) ≡ returns 0
unfolding cspn
cspn-nul delims post = refl

-- The token that a search finds, and what it leaves.
abbrev pub token : ℕ → ℕ → Bytes → ℕ → Token
token first n mem d =
    if n == 0
    then record { place = none; mem = mem; saveptr = first }
    else if d == 0
    then record { place = some first; mem = mem; saveptr = first + n }
    else record { place = some first; mem = set mem (first + n) 0; saveptr = suc (first + n) }

strtok_steps :
    (delims mem : Bytes) (start skipped n d : ℕ)
    → spn delims (drop start mem) ≡ returns skipped
    → cspn delims (drop (start + skipped) mem) ≡ returns n
    → read8 mem (start + skipped + n) ≡ returns d
    → strtok mem start delims ≡ returns (token (start + skipped) n mem d)
unfolding strtok
strtok_steps delims mem start skipped n d a b c = rw (a, strtok) (rw b (rw c refl))

module _ (delims pre skip : Bytes) (c : ℕ) (s post : Bytes) (d : ℕ) where
  -- The memory.
  abbrev pub segments : Bytes
  segments = pre ++ (skip ++ (c ∷ s ++ d ∷ post))

  module _ (mem : Bytes) (start : ℕ) (m : mem ≡ segments) (b : start ≡ length pre)
      (k : Delims delims skip) (h : Clean delims (c ∷ s))
      (e : (d ≡ 0) ⊎ (is_in d delims ≡ true)) where
    strtok-segments :
        strtok mem start delims
        ≡ returns (token (length pre + length skip) (suc (length s)) segments d)
    strtok-segments =
        let first = length pre + length skip in
        let tail = c ∷ (s ++ d ∷ post) in
        ap (λ x. strtok x start delims) m
        ∙ ap (λ x. strtok segments x delims) b
        ∙ strtok_steps delims segments (length pre) (length skip) (suc (length s)) d
            (ap (spn delims) (drop-prefix pre (skip ++ tail) (length pre) 0 (omega arith))
              ∙ spn-Delims delims skip tail k (spn-Clean delims s (d ∷ post) c h))
            (ap (cspn delims) (
                drop-prefix pre (skip ++ tail) first (length skip) refl
                ∙ drop-prefix skip tail (length skip) 0 (omega arith))
              ∙ cspn-Clean delims (c ∷ s) post d h e)
            (ap (λ x. read8 x (first + suc (length s))) (sym (append_assoc pre skip tail))
              ∙ read8-middle (pre ++ skip) (c ∷ s) post d (first + suc (length s))
                  (omega (arith, length-append pre skip)))

  set-segments :
      set segments (length pre + length skip + suc (length s)) 0
      ≡ pre ++ (skip ++ (c ∷ s ++ 0 ∷ post))
  set-segments =
      let front = pre ++ (skip ++ c ∷ s) in
      let e : front ++ d ∷ post ≡ segments = simp append_assoc in
      let n : length pre + length skip + suc (length s) ≡ length front =
        omega (arith, length-append pre (skip ++ c ∷ s), length-append skip (c ∷ s)) in
      ap (λ x. set x (length pre + length skip + suc (length s)) 0) (sym e)
      ∙ set-middle front post d 0 _ n
      ∙ simp append_assoc

  module _ (mem : Bytes) (start : ℕ) (m : mem ≡ segments) (b : start ≡ length pre)
      (k : Delims delims skip) (h : Clean delims (c ∷ s)) where
    -- The character behind the token is a delimiter, which becomes 0.
    pub strtok-delim :
        d ≢ 0
        → is_in d delims ≡ true
        → strtok mem start delims
          ≡ returns (record {
            place = some (length pre + length skip);
            mem = pre ++ (skip ++ (c ∷ s ++ 0 ∷ post));
            saveptr = suc (length pre + length skip + suc (length s));
          })
    strtok-delim z i =
        let first = length pre + length skip in
        let nz : (suc (length s) == 0) ≡ false = ground arith in
        strtok-segments mem start m b k h (inr i)
        ∙ rw (nz, ==_of_ne d 0 z)
            (ap
              (λ x.
                returns
                  (record { place = some first; mem = x; saveptr = suc (first + suc (length s)) }))
              set-segments)

    -- The token ends with the string.
    pub strtok-end :
        d ≡ 0
        → strtok mem start delims
          ≡ returns (record {
            place = some (length pre + length skip);
            mem = segments;
            saveptr = length pre + length skip + suc (length s);
          })
    strtok-end z =
        let nz : (suc (length s) == 0) ≡ false = ground arith in
        strtok-segments mem start m b k h (inl z)
        ∙ ap (λ x. returns (token (length pre + length skip) (suc (length s)) segments x)) z
        ∙ rw nz refl

-- The same, with the results as they are needed.
module _ (delims mem pre skip : Bytes) (c : ℕ) (s post : Bytes) (start first saveptr : ℕ)
    (b : start ≡ length pre) (k : Delims delims skip) (h : Clean delims (c ∷ s))
    (f : length pre + length skip ≡ first) where
  pub strtok_delim :
      (d : ℕ) (out : Bytes)
      → mem ≡ pre ++ (skip ++ (c ∷ s ++ d ∷ post))
      → d ≢ 0
      → is_in d delims ≡ true
      → suc (first + suc (length s)) ≡ saveptr
      → pre ++ (skip ++ (c ∷ s ++ 0 ∷ post)) ≡ out
      → strtok mem start delims
        ≡ returns (record { place = some first; mem = out; saveptr = saveptr })
  strtok_delim d out m z i q o =
      strtok-delim delims pre skip c s post d mem start m b k h z i
      ∙ ap
          (λ x.
            returns (record { place = some (length pre + length skip); mem = out'; saveptr = x }))
          (omega (arith, f, q))
      ∙ ap (λ x. returns (record { place = some x; mem = out'; saveptr = saveptr })) f
      ∙ ap (λ x. returns (record { place = some first; mem = x; saveptr = saveptr })) o
    where
      out' : Bytes
      out' = pre ++ (skip ++ (c ∷ s ++ 0 ∷ post))

  pub strtok_last :
      mem ≡ pre ++ (skip ++ (c ∷ s ++ 0 ∷ post))
      → first + suc (length s) ≡ saveptr
      → strtok mem start delims
        ≡ returns (record { place = some first; mem = mem; saveptr = saveptr })
  strtok_last m q =
      strtok-end delims pre skip c s post 0 mem start m b k h refl
      ∙ ap
          (λ x. returns (record {
            place = some (length pre + length skip);
            mem = x;
            saveptr = length pre + length skip + suc (length s);
          }))
          (sym m)
      ∙ ap
          (λ x.
            returns (record { place = some (length pre + length skip); mem = mem; saveptr = x }))
          (omega (arith, f, q))
      ∙ ap (λ x. returns (record { place = some x; mem = mem; saveptr = saveptr })) f

-- Nothing but delimiters is left.
pub strtok-nothing :
    (delims pre skip post mem : Bytes) (start : ℕ)
    → mem ≡ pre ++ (skip ++ 0 ∷ post)
    → start ≡ length pre
    → Delims delims skip
    → strtok mem start delims
      ≡ returns (record { place = none; mem = mem; saveptr = length pre + length skip })
strtok-nothing delims pre skip post mem start m b k =
    let first = length pre + length skip in
    let at : (n i : ℕ) → n ≡ length pre + i → drop n mem ≡ drop i (skip ++ 0 ∷ post) =
      λ n i q. ap (drop n) m ∙ drop-prefix pre (skip ++ 0 ∷ post) n i q in
    ap (λ x. strtok mem x delims) b
    ∙ strtok_steps delims mem (length pre) (length skip) 0 0
        (ap (spn delims) (at (length pre) 0 (omega arith))
          ∙ spn-Delims delims skip (0 ∷ post) k (spn-nul delims post))
        (ap (cspn delims) (
            at first (length skip) refl ∙ drop-prefix skip (0 ∷ post) (length skip) 0 (omega arith))
          ∙ cspn-nul delims post)
        (ap (λ x. read8 x (first + 0)) m ∙ read8-middle pre skip post 0 (first + 0) (omega arith))

-- A string inside the memory.
pub string_from-segment :
    (delims pre s post mem : Bytes) (n : ℕ)
    → mem ≡ pre ++ (s ++ 0 ∷ post)
    → n ≡ length pre
    → Clean delims s
    → string_from (drop n mem) ≡ returns s
string_from-segment delims pre s post mem n m e h =
    ap (λ x. string_from (drop n x)) m
    ∙ ap string_from (drop-prefix pre (s ++ 0 ∷ post) n 0 (omega (arith, e)))
    ∙ string_from-Clean delims s post h
