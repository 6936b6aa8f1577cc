-- ===== src/Proxy/Parse/HeaderLines.antt =====
-- The loop of the parser over the lines of the headers.
use mathlib.Core.List.{append_assoc, append-nil}
use mathlib.Core.Path.{fun_ext}
use computer_networks.Prelude.{
  ℕ, zero, suc, ◌+◌, ◌<◌, ◌^◌, ◌≡◌, ◌≢◌, refl, sym, ap, ◌∙◌, List, [], ◌∷◌, ◌++◌, map, Option, none,
  some, Bool, true, if◌then◌else◌, inl, inr, ==_of_ne, Bool-cases, bytes_eq, bytes_eq_refl,
  bytes_eq_sound, arith, All, drop, drop-prefix, length, length-append, Outcome, returns,
  assert_fails, undefined, diverges, ◌>>=◌,
}
use computer_networks.Proxy.{String, ParsedHeader, ParsedRequest}
use computer_networks.Proxy.Headers.{
  before_crlf, ParsedHeader_parse, append_header, ParsedHeader_set, new_header, crlf, colon_space,
  find,
}
use computer_networks.Proxy.Headers.Line.{before_crlf-append, ParsedHeader_parse_lem}
use computer_networks.Proxy.Headers.Lookup.{value_in, without, length-remove_at, remove-without}
use computer_networks.Proxy.Headers.MapView.{Ready, ParsedHeader_set_lem}
use computer_networks.Proxy.Headers.Print.{lines}
use computer_networks.Proxy.Parse.{parse_headers}

-- A key without a colon and without CR, not empty; a value without CR.
abbrev pub IsHeader : String × String → Type 0
IsHeader ([], value) = ⊥
IsHeader (c ∷ cs, value) = All (λ d. (d ≢ 58) × (d ≢ 13)) (c ∷ cs) × All (λ d. d ≢ 13) value

abbrev pub header : String × String → ParsedHeader
header (key, value) = new_header key value

-- The headers are set in their order.
abbrev pub set_all : ParsedRequest → List (String × String) → Outcome ParsedRequest
set_all pr [] = returns pr
set_all pr ((key, value) ∷ hs) = ParsedHeader_set pr key value >>= λ pr'. set_all pr' hs

-- What the parser makes of them.
abbrev pub parsed : Outcome ParsedRequest → Outcome (Option (Bool × ParsedRequest))
parsed o = o >>= λ pr'. returns (some (true, pr'))

no_colon : (key : String) → All (λ d. (d ≢ 58) × (d ≢ 13)) key → All (λ d. d ≢ 58) key
no_colon [] h = tt
no_colon (c ∷ s) h = (h.0.0, no_colon s h.1)

no_cr :
    (key value : String)
    → All (λ d. (d ≢ 58) × (d ≢ 13)) key
    → All (λ d. d ≢ 13) value
    → All (λ d. d ≢ 13) (key ++ (colon_space ++ value))
no_cr [] value h v = ((λ e. omega (arith, e)), ((λ e. omega (arith, e)), v))
no_cr (c ∷ s) value h v = (h.0.1, no_cr s value h.1 v)

bind_some :
    {A B : Type 0} (o : Outcome A) (f : Option A → Outcome B)
    → ((o >>= λ a. returns (some a)) >>= f) ≡ (o >>= λ a. f (some a))
bind_some (returns a) f = refl
bind_some assert_fails f = refl
bind_some undefined f = refl
bind_some diverges f = refl

bind_assoc :
    {A B C : Type 0} (o : Outcome A) (f : A → Outcome B) (g : B → Outcome C)
    → (o >>= λ a. f a >>= g) ≡ ((o >>= f) >>= g)
bind_assoc (returns a) f g = refl
bind_assoc assert_fails f g = refl
bind_assoc undefined f g = refl
bind_assoc diverges f g = refl

-- A round for a line that is a header.
parse_headers-step :
    (rounds : ℕ) (pr : ParsedRequest) (c : ℕ) (rest before : String) (o : Outcome ParsedRequest)
    → c ≢ 13
    → ParsedHeader_parse pr (c ∷ rest) ≡ (o >>= λ pr'. returns (some pr'))
    → before_crlf (c ∷ rest) ≡ some before
    → parse_headers (suc rounds) pr (c ∷ rest)
      ≡ (o >>= λ pr'. parse_headers rounds pr' (drop (length before + 2) (c ∷ rest)))
unfolding parse_headers
parse_headers-step rounds pr c rest before o n p b = rw (==_of_ne c 13 n) (
    rw p (
      bind_some o _
      ∙ ap
          (λ m. o >>= λ pr'. elim m [
            | none ↦ returns (some (true, pr'))
            | some before ↦ parse_headers rounds pr' (drop (length before + 2) (c ∷ rest))
          ])
          b))

pub parse_headers-lines :
    (hs : List (String × String)) (rounds : ℕ) (pr : ParsedRequest)
    → All IsHeader hs
    → length hs < rounds
    → parse_headers rounds pr (lines (map header hs) ++ crlf) ≡ parsed (set_all pr hs)
parse_headers-lines [] zero pr h n = absurd (omega arith)
parse_headers-lines [] (suc rounds) pr h n = unfold parse_headers in refl
parse_headers-lines (kv ∷ hs) zero pr h n = absurd (omega arith)
parse_headers-lines (([], value) ∷ hs) (suc rounds) pr h n = elim h.0 [ ]
parse_headers-lines ((c ∷ cs, value) ∷ hs) (suc rounds) pr ((k, v), h) n =
    let key = c ∷ cs in
    let more = lines (map header hs) ++ crlf in
    let whole = key ++ (colon_space ++ (value ++ (crlf ++ more))) in
    let before = key ++ (colon_space ++ value) in
    let same : lines (map header ((key, value) ∷ hs)) ++ crlf ≡ whole =
      simp (append_assoc, append-nil) in
    let cut : before ++ (crlf ++ more) ≡ whole = simp append_assoc in
    let found : before_crlf whole ≡ some before =
      ap before_crlf (sym cut) ∙ before_crlf-append before more (no_cr key value k v) in
    let left : drop (length before + 2) whole ≡ more =
      ap (drop (length before + 2)) (sym cut)
      ∙ drop-prefix before (crlf ++ more) (length before + 2) 2 (omega arith) in
    ap (parse_headers (suc rounds) pr) same
    ∙ parse_headers-step rounds pr c (cs ++ (colon_space ++ (value ++ (crlf ++ more)))) before
        (ParsedHeader_set pr key value) k.0.1
        (ParsedHeader_parse_lem pr key value more (no_colon key k) v).0 found
    ∙ ap (λ x. ParsedHeader_set pr key value >>= λ pr'. parse_headers rounds pr' x) left
    ∙ ap (λ f. ParsedHeader_set pr key value >>= f)
        (fun_ext λ pr'. parse_headers-lines hs rounds pr' h (omega arith))
    ∙ bind_assoc (ParsedHeader_set pr key value) (λ pr'. set_all pr' hs)
        (λ pr'. returns (some (true, pr')))

-- The same request line.
abbrev pub SameLine : ParsedRequest → ParsedRequest → Type 0
SameLine pr pr' =
    (pr'.method ≡ pr.method)
    × (pr'.protocol ≡ pr.protocol)
    × (pr'.host ≡ pr.host)
    × (pr'.port ≡ pr.port)
    × (pr'.path ≡ pr.path)
    × (pr'.version ≡ pr.version)

append_header-frame :
    (pr pr' : ParsedRequest) (key value : String)
    → append_header pr key value ≡ returns pr'
    → (length pr'.headers ≡ length pr.headers + 1) × SameLine pr pr'
unfolding append_header
append_header-frame pr pr' key value e =
    ground (arith, length-append pr.headers (new_header key value ∷ []))

ParsedHeader_set-frame :
    (pr pr' : ParsedRequest) (key value : String)
    → ParsedHeader_set pr key value ≡ returns pr'
    → (length pr'.headers ≡ length pr.headers + 1) × SameLine pr pr'
unfolding ParsedHeader_set
ParsedHeader_set-frame pr pr' key value e =
    let (n, s) =
      append_header-frame (record pr { headers = without pr.headers key }) pr' key value
        (ap (λ x. append_header x key value) (sym (remove-without pr key)) ∙ e) in
    (omega (arith, n, length-remove_at pr.headers (find pr.headers key)), s)

-- What a key has in the end: the last value that is set for it, or what it had.
abbrev pub finally : List (String × String) → (String → Option String) → String → Option String
finally [] old = old
finally ((key, value) ∷ hs) old = finally hs (λ k. if bytes_eq key k then some value else old k)

updated :
    (key value : String) (pr pr' : ParsedRequest)
    → value_in pr'.headers key ≡ some value
    → ((k : String) → k ≢ key → value_in pr'.headers k ≡ value_in pr.headers k)
    → (k : String)
    → value_in pr'.headers k ≡ (if bytes_eq key k then some value else value_in pr.headers k)
updated key value pr pr' v u k = elim (Bool-cases (bytes_eq key k)) [
  | inl e ↦ rw e (ap (value_in pr'.headers) (sym (bytes_eq_sound key k e)) ∙ v)
  | inr e ↦ rw e (u k (λ q. absurd (cc (e, ap (bytes_eq key) q, bytes_eq_refl key))))
]

pub set_all-finally :
    (hs : List (String × String)) (pr : ParsedRequest)
    → Ready pr
    → length pr.headers + length hs < 2 ^ 62
    → (pr' : ParsedRequest) × (set_all pr hs ≡ returns pr')
      × SameLine pr pr'
      × ((k : String) → value_in pr'.headers k ≡ finally hs (value_in pr.headers) k)
set_all-finally [] pr r n = (pr, refl, (refl, refl, refl, refl, refl, refl), λ k. refl)
set_all-finally ((key, value) ∷ hs) pr r n =
    let (p, s, v, u, q) = ParsedHeader_set_lem pr key value r (omega arith) in
    let (l, f) = ParsedHeader_set-frame pr p key value s in
    let (p', s', f', v') = set_all-finally hs p q (omega (arith, l)) in
    (
      p',
      ap (λ o. o >>= λ x. set_all x hs) s ∙ s',
      (f'.0 ∙ f.0, f'.1 ∙ f.1, f'.2 ∙ f.2, f'.3 ∙ f.3, f'.4 ∙ f.4, f'.5 ∙ f.5),
      λ k. v' k ∙ ap (λ g. finally hs g k) (fun_ext λ j. updated key value pr p v u j),
    )
