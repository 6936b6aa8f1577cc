-- ===== src/Proxy/Headers/Lookup.antt =====
-- The removal of a header, and what is then found.
use computer_networks.Prelude.{
  ℕ, zero, suc, ◌≡◌, ◌≢◌, refl, ap, sym, ◌∙◌, List, [], ◌∷◌, Option, none, some, true, false,
  length, get_elem?, bytes_eq, bytes_eq_sound, arith, Option-cases, Bool-cases, inl, inr,
}
use computer_networks.Proxy.{String, ParsedHeader, ParsedRequest}
use computer_networks.Proxy.Headers.{
  has_key, find, ParsedHeader_get, update_at, freed, ParsedHeader_remove,
}

abbrev pub value_at : List ParsedHeader → Option ℕ → Option String
value_at hs none = none
value_at hs (some i) = elim (get_elem? hs i) [ none ↦ none | some h ↦ h.value ]

-- What a caller reads behind the pointer that `ParsedHeader_get` returns.
abbrev pub value_in : List ParsedHeader → String → Option String
value_in hs key = value_at hs (find hs key)

-- No two headers have the same key.
abbrev pub Distinct : List ParsedHeader → Type 0
Distinct [] = Unit
Distinct (h ∷ rest) = ((k : String) → h.key ≡ some k → find rest k ≡ none) × Distinct rest

abbrev remove_at : List ParsedHeader → Option ℕ → List ParsedHeader
remove_at hs none = hs
remove_at hs (some i) = update_at freed hs i

-- What `ParsedHeader_remove` leaves of the headers.
abbrev pub without : List ParsedHeader → String → List ParsedHeader
without hs key = remove_at hs (find hs key)

pub bytes_eq-ne : (a b : String) → a ≢ b → bytes_eq a b ≡ false
bytes_eq-ne a b h = elim (Bool-cases (bytes_eq a b)) [
  | inl e ↦ absurd (h (bytes_eq_sound a b e))
  | inr e ↦ e
]

pub has_key_sound : (h : ParsedHeader) (key : String) → has_key h key ≡ true → h.key ≡ some key
unfolding has_key
has_key_sound h key e = elim (Option-cases h.key) [
  | inl n ↦ cc (rw n at e)
  | inr (k, s) ↦ s ∙ ap some (bytes_eq_sound k key (rw s at e))
]

find-hit :
    (h : ParsedHeader) (rest : List ParsedHeader) (key : String)
    → has_key h key ≡ true
    → find (h ∷ rest) key ≡ some 0
unfolding find
find-hit h rest key e = ground arith

pub find-miss_none :
    (h : ParsedHeader) (rest : List ParsedHeader) (key : String)
    → has_key h key ≡ false
    → find rest key ≡ none
    → find (h ∷ rest) key ≡ none
unfolding find
find-miss_none h rest key e n = ground arith

find-miss_some :
    (h : ParsedHeader) (rest : List ParsedHeader) (key : String) (i : ℕ)
    → has_key h key ≡ false
    → find rest key ≡ some i
    → find (h ∷ rest) key ≡ some (suc i)
unfolding find
find-miss_some h rest key i e n = ground arith

pub find-tail :
    (h : ParsedHeader) (rest : List ParsedHeader) (key : String)
    → find (h ∷ rest) key ≡ none
    → (has_key h key ≡ false) × (find rest key ≡ none)
unfolding find
find-tail h rest key n = ground arith

without-cons_hit :
    (h : ParsedHeader) (rest : List ParsedHeader) (key : String)
    → has_key h key ≡ true
    → without (h ∷ rest) key ≡ freed h ∷ rest
without-cons_hit h rest key e = ap (remove_at (h ∷ rest)) (find-hit h rest key e)

without-cons_miss :
    (h : ParsedHeader) (rest : List ParsedHeader) (key : String)
    → has_key h key ≡ false
    → without (h ∷ rest) key ≡ h ∷ without rest key
without-cons_miss h rest key e = elim (Option-cases (find rest key)) [
  | inl n ↦
      ap (remove_at (h ∷ rest)) (find-miss_none h rest key e n)
      ∙ sym (ap (λ o. h ∷ remove_at rest o) n)
  | inr (i, s) ↦
      ap (remove_at (h ∷ rest)) (find-miss_some h rest key i e s)
      ∙ sym (ap (λ o. h ∷ remove_at rest o) s)
]

pub value_in-cons_miss :
    (h : ParsedHeader) (rest : List ParsedHeader) (key : String)
    → has_key h key ≡ false
    → value_in (h ∷ rest) key ≡ value_in rest key
value_in-cons_miss h rest key e = elim (Option-cases (find rest key)) [
  | inl n ↦
      ap (value_at (h ∷ rest)) (find-miss_none h rest key e n) ∙ sym (ap (λ o. value_at rest o) n)
  | inr (i, s) ↦
      ap (value_at (h ∷ rest)) (find-miss_some h rest key i e s) ∙ sym (ap (λ o. value_at rest o) s)
]

pub value_in-cons_hit :
    (h : ParsedHeader) (rest : List ParsedHeader) (key : String)
    → has_key h key ≡ true
    → value_in (h ∷ rest) key ≡ h.value
value_in-cons_hit h rest key e = ap (value_at (h ∷ rest)) (find-hit h rest key e)

-- A key is not found any more once it is removed.
pub find-without_self :
    (hs : List ParsedHeader) (key : String) → Distinct hs → find (without hs key) key ≡ none
unfolding find has_key
find-without_self [] key d = refl
find-without_self (h ∷ rest) key d = elim (Bool-cases (has_key h key)) [
  | inl e ↦
      ap (λ l. find l key) (without-cons_hit h rest key e)
      ∙ find-miss_none (freed h) rest key refl (d.0 key (has_key_sound h key e))
  | inr e ↦
      ap (λ l. find l key) (without-cons_miss h rest key e)
      ∙ find-miss_none h (without rest key) key e (find-without_self rest key d.1)
]

find-without-none :
    (hs : List ParsedHeader) (key k : String) → find hs k ≡ none → find (without hs key) k ≡ none
unfolding find has_key
find-without-none [] key k n = n
find-without-none (h ∷ rest) key k n =
    let t = find-tail h rest k n in
    elim (Bool-cases (has_key h key)) [
      | inl e ↦
          ap (λ l. find l k) (without-cons_hit h rest key e)
          ∙ find-miss_none (freed h) rest k refl t.1
      | inr e ↦
          ap (λ l. find l k) (without-cons_miss h rest key e)
          ∙ find-miss_none h (without rest key) k t.0 (find-without-none rest key k t.1)
    ]

-- The other keys keep their values.
pub value_in-without_ne :
    (hs : List ParsedHeader) (key k : String)
    → k ≢ key
    → value_in (without hs key) k ≡ value_in hs k
unfolding find has_key
value_in-without_ne [] key k n = refl
value_in-without_ne (h ∷ rest) key k n = elim (Bool-cases (has_key h key)) [
  | inl e ↦
      let other : has_key h k ≡ false =
        rw (has_key_sound h key e) (bytes_eq-ne key k (λ q. n (sym q))) in
      ap (λ l. value_in l k) (without-cons_hit h rest key e)
      ∙ value_in-cons_miss (freed h) rest k refl
      ∙ sym (value_in-cons_miss h rest k other)
  | inr e ↦
      ap (λ l. value_in l k) (without-cons_miss h rest key e) ∙ elim (Bool-cases (has_key h k)) [
        | inl f ↦ value_in-cons_hit h (without rest key) k f ∙ sym (value_in-cons_hit h rest k f)
        | inr f ↦
            value_in-cons_miss h (without rest key) k f
            ∙ value_in-without_ne rest key k n
            ∙ sym (value_in-cons_miss h rest k f)
      ]
]

pub Distinct-without :
    (hs : List ParsedHeader) (key : String) → Distinct hs → Distinct (without hs key)
unfolding find has_key
Distinct-without [] key d = tt
Distinct-without (h ∷ rest) key d = elim (Bool-cases (has_key h key)) [
  | inl e ↦ rw (without-cons_hit h rest key e) ((λ k q. cc q), d.1)
  | inr e ↦
      rw (without-cons_miss h rest key e)
        ((λ k q. find-without-none rest key k (d.0 k q)), Distinct-without rest key d.1)
]

length-update_at :
    (f : ParsedHeader → ParsedHeader) (hs : List ParsedHeader) (i : ℕ)
    → length (update_at f hs i) ≡ length hs
length-update_at f [] i = refl
length-update_at f (h ∷ rest) zero = refl
length-update_at f (h ∷ rest) (suc i) = ap suc (length-update_at f rest i)

pub length-remove_at : (hs : List ParsedHeader) (o : Option ℕ) → length (remove_at hs o) ≡ length hs
length-remove_at hs none = refl
length-remove_at hs (some i) = length-update_at freed hs i

-- `ParsedHeader_remove` leaves this of the headers, and nothing else is changed.
pub remove-without :
    (pr : ParsedRequest) (key : String)
    → (ParsedHeader_remove pr key).0 ≡ record pr { headers = without pr.headers key }
unfolding ParsedHeader_remove ParsedHeader_get
remove-without pr key = elim (Option-cases (find pr.headers key)) [
  | inl n ↦ rw (n, ParsedHeader_remove) refl
  | inr (i, s) ↦ rw (s, ParsedHeader_remove) refl
]
