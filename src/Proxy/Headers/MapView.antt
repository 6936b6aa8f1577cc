-- ===== src/Proxy/Headers/MapView.antt =====
-- The headers as a map from keys to values.
use computer_networks.Prelude.{
  ◌+◌, ◌<◌, ◌^◌, ◌≡◌, ◌≢◌, ◌↔◌, subst, refl, ap, sym, ◌∙◌, List, [], ◌∷◌, ◌++◌, none, some, true,
  false, ltb, length, length-append, returns, bytes_eq, bytes_eq_refl, arith, Option-cases,
  Bool-cases, inl, inr,
}
use computer_networks.Proxy.{String, ParsedHeader, ParsedRequest}
use computer_networks.Proxy.Headers.{
  has_key, find, ParsedHeader_get, ParsedHeader_remove, new_header, grown, append_header,
  ParsedHeader_set,
}
use computer_networks.Proxy.Headers.Lookup.{
  value_in, Distinct, without, bytes_eq-ne, find-miss_none, find-tail, find-without_self,
  value_in-cons_miss, value_in-cons_hit, value_in-without_ne, Distinct-without, length-remove_at,
  remove-without,
}

find-append :
    (hs : List ParsedHeader) (h : ParsedHeader) (k : String)
    → find hs k ≡ none
    → has_key h k ≡ false
    → find (hs ++ h ∷ []) k ≡ none
unfolding find
find-append [] h k n e = find-miss_none h [] k e refl
find-append (g ∷ hs) h k n e =
    let t = find-tail g hs k n in find-miss_none g (hs ++ h ∷ []) k t.0 (find-append hs h k t.1 e)

value_in-append_new :
    (hs : List ParsedHeader) (h : ParsedHeader) (k : String)
    → find hs k ≡ none
    → has_key h k ≡ true
    → value_in (hs ++ h ∷ []) k ≡ h.value
value_in-append_new [] h k n e = value_in-cons_hit h [] k e
value_in-append_new (g ∷ hs) h k n e =
    let t = find-tail g hs k n in
    value_in-cons_miss g (hs ++ h ∷ []) k t.0 ∙ value_in-append_new hs h k t.1 e

value_in-append_ne :
    (hs : List ParsedHeader) (h : ParsedHeader) (k : String)
    → has_key h k ≡ false
    → value_in (hs ++ h ∷ []) k ≡ value_in hs k
unfolding find
value_in-append_ne [] h k e = value_in-cons_miss h [] k e
value_in-append_ne (g ∷ hs) h k e = elim (Bool-cases (has_key g k)) [
  | inl f ↦ value_in-cons_hit g (hs ++ h ∷ []) k f ∙ sym (value_in-cons_hit g hs k f)
  | inr f ↦
      value_in-cons_miss g (hs ++ h ∷ []) k f
      ∙ value_in-append_ne hs h k e
      ∙ sym (value_in-cons_miss g hs k f)
]

new_header-has_key : (key value : String) → has_key (new_header key value) key ≡ true
unfolding has_key
new_header-has_key key value = bytes_eq_refl key

new_header-has_key_ne : (key value k : String) → k ≢ key → has_key (new_header key value) k ≡ false
unfolding has_key
new_header-has_key_ne key value k n = bytes_eq-ne key k (λ q. n (sym q))

has_key-ne : (h : ParsedHeader) (key k : String) → has_key h key ≡ false → h.key ≡ some k → k ≢ key
unfolding has_key
has_key-ne h key k e s q =
    let t : bytes_eq k key ≡ false = rw s at e in cc (t, bytes_eq_refl key, q)

Distinct-append :
    (hs : List ParsedHeader) (key value : String)
    → Distinct hs
    → find hs key ≡ none
    → Distinct (hs ++ new_header key value ∷ [])
unfolding find
Distinct-append [] key value d n = ((λ k q. refl), tt)
Distinct-append (g ∷ hs) key value d n =
    let t = find-tail g hs key n in
    (
      (λ k q.
          find-append hs (new_header key value) k (d.0 k q)
            (new_header-has_key_ne key value k (has_key-ne g key k t.0 q))),
      Distinct-append hs key value d.1 t.1,
    )

-- The array has room for one more header, and no key is there twice.
abbrev pub Ready : ParsedRequest → Type 0
Ready pr = (length pr.headers < pr.headerslen) × Distinct pr.headers

grown-room :
    (pr : ParsedRequest)
    → length pr.headers < pr.headerslen
    → length pr.headers < 2 ^ 62
    → length pr.headers + 1 < grown pr
grown-room pr h b = ground arith

append_header-returns :
    (pr : ParsedRequest) (key value : String)
    → length pr.headers < pr.headerslen
    → length pr.headers < 2 ^ 62
    → append_header pr key value
      ≡ returns
          (record pr { headers = pr.headers ++ new_header key value ∷ []; headerslen = grown pr })
unfolding append_header
append_header-returns pr key value h b =
    let e : ltb (length pr.headers) (grown pr) ≡ true = let g = grown-room pr h b in ground arith in
    rw e refl

-- In a request whose array has room and whose keys are distinct, setting a key succeeds: the key then
-- has the new value, every other key the value it had, the array has room and the keys are distinct
-- again. There are fewer than 2^62 headers.
pub ParsedHeader_set_lem :
    (pr : ParsedRequest) (key value : String)
    → Ready pr
    → length pr.headers < 2 ^ 62
    → (pr' : ParsedRequest) × (ParsedHeader_set pr key value ≡ returns pr')
      × (value_in pr'.headers key ≡ some value)
      × ((k : String) → k ≢ key → value_in pr'.headers k ≡ value_in pr.headers k)
      × Ready pr'
unfolding ParsedHeader_set
ParsedHeader_set_lem pr key value r b =
    let left = without pr.headers key in
    let new = new_header key value in
    let cleared = record pr { headers = left } in
    let same : length left ≡ length pr.headers =
      length-remove_at pr.headers (find pr.headers key) in
    let room : length left < pr.headerslen = omega (arith, same, r.0) in
    let few : length left < 2 ^ 62 = omega (arith, same, b) in
    let gone = find-without_self pr.headers key r.1 in
    (
      record cleared { headers = left ++ new ∷ []; headerslen = grown cleared },
      ap (λ q. append_header q key value) (remove-without pr key)
          ∙ append_header-returns cleared key value room few,
      value_in-append_new left new key gone (new_header-has_key key value),
      (λ k n.
          value_in-append_ne left new k (new_header-has_key_ne key value k n)
          ∙ value_in-without_ne pr.headers key k n),
      (
        omega (arith, grown-room cleared room few, length-append left (new ∷ [])),
        Distinct-append left key value (Distinct-without pr.headers key r.1) gone,
      ),
    )

removed_iff :
    (pr : ParsedRequest) (key : String)
    → ((ParsedHeader_remove pr key).1 ≡ false) ↔ (ParsedHeader_get pr key ≡ none)
unfolding ParsedHeader_remove
removed_iff pr key = elim (Option-cases (ParsedHeader_get pr key)) [
  | inl n ↦ ((λ q. n), (λ q. rw (n, ParsedHeader_remove) refl))
  | inr (i, s) ↦
      let t : (ParsedHeader_remove pr key).1 ≡ true = rw (s, ParsedHeader_remove) refl in
      ((λ q. cc (q, t)), (λ q. cc (q, s)))
]

-- When the keys are distinct, a removed key is not found any more, every other key keeps its value,
-- and the keys stay distinct in an array of the same length; what is returned says whether the key
-- was there.
pub ParsedHeader_remove_lem :
    (pr : ParsedRequest) (key : String)
    → Distinct pr.headers
    → let out = ParsedHeader_remove pr key in
      (ParsedHeader_get out.0 key ≡ none)
      × ((k : String) → k ≢ key → value_in out.0.headers k ≡ value_in pr.headers k)
      × Distinct out.0.headers
      × (length out.0.headers ≡ length pr.headers)
      × ((out.1 ≡ false) ↔ (ParsedHeader_get pr key ≡ none))
unfolding ParsedHeader_remove ParsedHeader_get
ParsedHeader_remove_lem pr key d =
    let e = sym (remove-without pr key) in
    (
      subst (λ q. find q.headers key ≡ none) e (find-without_self pr.headers key d),
      (λ k n.
          subst (λ q. value_in q.headers k ≡ value_in pr.headers k) e
            (value_in-without_ne pr.headers key k n)),
      subst (λ q. Distinct q.headers) e (Distinct-without pr.headers key d),
      subst (λ q. length q.headers ≡ length pr.headers) e
          (length-remove_at pr.headers (find pr.headers key)),
      removed_iff pr key,
    )
