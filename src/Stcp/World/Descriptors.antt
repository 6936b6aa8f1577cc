-- ===== src/Stcp/World/Descriptors.antt =====
-- The table of descriptors.
use computer_networks.Prelude.{
  ℕ, zero, suc, ◌<◌, ◌≡◌, ◌≢◌, inl, inr, refl, ap, ◌∙◌, List, [], ◌∷◌, Option, none, some, true,
  if◌then◌else◌, ◌==◌, arith, length, set, returns, Option-cases,
}
use computer_networks.Stcp.World.{
  Context, fresh_context, World, entry, get_context, put_context, find_free, emfile, new_mysocket,
}

pub entry-set :
    (tbl : List (Option Context)) (sd k : ℕ) (c : Option Context)
    → sd < length tbl
    → entry (set tbl sd c) k ≡ (if sd == k then c else entry tbl k)
entry-set [] sd k c h = absurd (omega arith)
entry-set (x ∷ tbl) zero zero c h = ground arith
entry-set (x ∷ tbl) zero (suc k) c h = ground arith
entry-set (x ∷ tbl) (suc sd) zero c h = ground arith
entry-set (x ∷ tbl) (suc sd) (suc k) c h = ground (arith, entry-set tbl sd k c (omega arith))

pub entry-lt :
    (tbl : List (Option Context)) (sd : ℕ) {c : Context} → entry tbl sd ≡ some c → sd < length tbl
entry-lt [] sd e = cc
entry-lt (x ∷ tbl) zero e = omega arith
entry-lt (x ∷ tbl) (suc sd) e = omega (arith, entry-lt tbl sd e)

-- Every context stands in the entry of its own descriptor.
abbrev pub Numbered : List (Option Context) → Type 0
Numbered tbl = (sd : ℕ) (c : Context) → entry tbl sd ≡ some c → c.my_sd ≡ sd

-- The entry is free, and it is the first one that is.
abbrev pub IsFirstFree : List (Option Context) → ℕ → Type 0
IsFirstFree tbl k = (k < length tbl) × (entry tbl k ≡ none) × ((j : ℕ) → j < k → entry tbl j ≢ none)

IsFirstFree-suc :
    (tbl : List (Option Context)) (c : Context) (k : ℕ)
    → IsFirstFree tbl k
    → IsFirstFree (some c ∷ tbl) (suc k)
IsFirstFree-suc tbl c k h = (omega (arith, h.0), h.1, before)
  where
    before : (j : ℕ) → j < suc k → entry (some c ∷ tbl) j ≢ none
    before zero l = λ q. cc q
    before (suc j) l = h.2 j (omega arith)

find_free-IsFirstFree :
    (tbl : List (Option Context)) (k : ℕ) → find_free tbl ≡ some k → IsFirstFree tbl k
unfolding find_free
find_free-IsFirstFree [] k e = cc
find_free-IsFirstFree (none ∷ rest) zero e = (omega arith, refl, λ j h. absurd (omega arith))
find_free-IsFirstFree (none ∷ rest) (suc k) e = ground arith
find_free-IsFirstFree (some c ∷ rest) zero e = ground arith
find_free-IsFirstFree (some c ∷ rest) (suc k) e =
    IsFirstFree-suc rest c k (find_free-IsFirstFree rest k (ground arith))

find_free-none :
    (tbl : List (Option Context)) (j : ℕ)
    → find_free tbl ≡ none
    → j < length tbl
    → entry tbl j ≢ none
unfolding find_free
find_free-none [] j e h = absurd (omega arith)
find_free-none (none ∷ rest) j e h = cc
find_free-none (some c ∷ rest) zero e h = λ q. cc q
find_free-none (some c ∷ rest) (suc j) e h = find_free-none rest j (ground arith) (omega arith)

pub get_context-returns :
    (w : World) (sd : ℕ) {c : Context}
    → get_context w sd ≡ returns c
    → (entry w.global_ctx sd ≡ some c) × (c.my_sd ≡ sd)
unfolding get_context
get_context-returns w sd e = ground arith

pub get_context-Numbered :
    (w : World) (sd : ℕ) (c : Context)
    → Numbered w.global_ctx
    → entry w.global_ctx sd ≡ some c
    → get_context w sd ≡ returns c
unfolding get_context
get_context-Numbered w sd c n e =
    let t : (c.my_sd == sd) ≡ true = ground (arith, n sd c e) in rw (e, get_context) (rw t refl)

pub put_context-Numbered :
    (w : World) (sd : ℕ) (c : Context)
    → Numbered w.global_ctx
    → c.my_sd ≡ sd
    → sd < length w.global_ctx
    → Numbered (put_context w sd c).global_ctx
put_context-Numbered w sd c n e h k d q =
    ground (arith, entry-set w.global_ctx sd k (some c) h, n k d)

-- A new mysocket gets the first free descriptor, if there is one, and a fresh context there; the
-- contexts of all other descriptors stay, and each still has its own number. If no entry is free, -1 is
-- returned with EMFILE, and the contexts stay.
pub new_mysocket_lem :
    (w : World)
    → Numbered w.global_ctx
    → ((j : ℕ)
        → j < length w.global_ctx
        → entry w.global_ctx j ≡ none
        → (w' : World) × (k : ℕ) × (new_mysocket w true ≡ returns (w', some k))
          × IsFirstFree w.global_ctx k
          × (get_context w' k ≡ returns (record fresh_context { my_sd = k }))
          × ((i : ℕ) → i ≢ k → entry w'.global_ctx i ≡ entry w.global_ctx i)
          × Numbered w'.global_ctx)
      × (((j : ℕ) → j < length w.global_ctx → entry w.global_ctx j ≢ none)
          → new_mysocket w true ≡ returns (record w { errno = emfile }, none))
unfolding new_mysocket
new_mysocket_lem w n = elim (Option-cases (find_free w.global_ctx)) [
  | inl e ↦
      ((λ j l q. absurd (find_free-none w.global_ctx j e l q)), (λ h. rw (e, new_mysocket) refl))
  | inr (k, s) ↦
      let c = record fresh_context { my_sd = k } in
      let f = find_free-IsFirstFree w.global_ctx k s in
      let n' = put_context-Numbered w k c n refl f.0 in
      (
        (λ j l q. (
          put_context w k c,
          k,
          rw (s, new_mysocket) refl,
          f,
          get_context-Numbered (put_context w k c) k c n'
              (ground (arith, entry-set w.global_ctx k k (some c) f.0)),
          (λ i d. ground (arith, entry-set w.global_ctx k i (some c) f.0)),
          n',
        )),
        (λ h. absurd (h k f.0 f.1)),
      )
]

-- What a write through the pointer to a context leaves there.
pub get_context-set :
    (w w' : World) (sd : ℕ) (c d : Context)
    → get_context w sd ≡ returns c
    → d.my_sd ≡ c.my_sd
    → w'.global_ctx ≡ set w.global_ctx sd (some d)
    → get_context w' sd ≡ returns d
unfolding get_context
get_context-set w w' sd c d g m e =
    let (at, n) = get_context-returns w sd g in
    let here : entry w'.global_ctx sd ≡ some d =
      ap (λ t. entry t sd) e
      ∙ ground (arith, entry-set w.global_ctx sd sd (some d) (entry-lt w.global_ctx sd at)) in
    let t : (d.my_sd == sd) ≡ true = ground arith in rw (here, get_context) (rw t refl)

pub get_context-same :
    (w w' : World) (sd : ℕ) → w'.global_ctx ≡ w.global_ctx → get_context w' sd ≡ get_context w sd
unfolding get_context
get_context-same w w' sd e = ap (λ t. get_context (record w { global_ctx = t }) sd) e
