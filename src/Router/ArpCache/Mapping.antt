-- ===== src/Router/ArpCache/Mapping.antt =====
-- What the table of mappings answers before and after an insertion.
use computer_networks.Prelude.{
  ℕ, ◌≡◌, ◌≢◌, ◌⊎◌, ◌↔◌, inl, inr, List, [], ◌∷◌, Option, none, some, true, false, if◌then◌else◌,
  ◌==◌, ◌&&◌, arith, All, refl, take, Bool-cases,
}
use computer_networks.Router.ArpCache.{
  Entry, Cache, lookup_from, sr_arpcache_lookup, store, sr_arpcache_insert,
}

-- The entry is in use for the address.
abbrev pub IsFor : ℕ → Entry → Type 0
IsFor ip e = (e.valid ≡ true) × (e.ip ≡ ip)

lookup_from-none :
    (ip : ℕ) (es : List Entry) (acc : Option Entry)
    → All (λ e. ¬ IsFor ip e) es
    → lookup_from acc es ip ≡ acc
unfolding lookup_from
lookup_from-none ip [] acc h = refl
lookup_from-none ip (e ∷ rest) acc h =
    ground
      (arith, h.0, lookup_from-none ip rest (if e.valid && e.ip == ip then some e else acc) h.1)

lookup_from-IsFor :
    (ip : ℕ) (es : List Entry) (acc : Option Entry) {e : Entry}
    → lookup_from acc es ip ≡ some e
    → (acc ≡ some e) ⊎ IsFor ip e
unfolding lookup_from
lookup_from-IsFor ip [] acc h = inl h
lookup_from-IsFor ip (f ∷ rest) acc h =
    ground (arith, lookup_from-IsFor ip rest (if f.valid && f.ip == ip then some f else acc) h)

-- An answer so far survives unless a later entry replaces it.
lookup_from-ne-none :
    (ip : ℕ) (es : List Entry) (acc : Option Entry) → acc ≢ none → lookup_from acc es ip ≢ none
unfolding lookup_from
lookup_from-ne-none ip [] acc h = h
lookup_from-ne-none ip (f ∷ rest) acc h =
    lookup_from-ne-none ip rest (if f.valid && f.ip == ip then some f else acc) (ground arith)

none-lookup_from :
    (ip : ℕ) (es : List Entry) (acc : Option Entry)
    → lookup_from acc es ip ≡ none
    → All (λ e. ¬ IsFor ip e) es
unfolding lookup_from
none-lookup_from ip [] acc h = tt
none-lookup_from ip (f ∷ rest) acc h = (
  (λ p. ground (arith, lookup_from-ne-none ip rest (some f))),
  none-lookup_from ip rest (if f.valid && f.ip == ip then some f else acc) h,
)

lookup_from-store_other :
    (ip : ℕ) (new : Entry) (es : List Entry) (acc : Option Entry)
    → new.ip ≢ ip
    → lookup_from acc (store new es) ip ≡ lookup_from acc es ip
unfolding lookup_from store
lookup_from-store_other ip new [] acc h = refl
lookup_from-store_other ip new (f ∷ rest) acc h =
    ground
      (arith, lookup_from-store_other ip new rest (if f.valid && f.ip == ip then some f else acc))

-- There is room for one more mapping.
abbrev pub HasRoom : List Entry → Type 0
HasRoom [] = ⊥
HasRoom (e ∷ rest) = (e.valid ≡ false) ⊎ HasRoom rest

lookup_from-store_self :
    (ip : ℕ) (new : Entry) (es : List Entry) (acc : Option Entry)
    → IsFor ip new
    → HasRoom es
    → All (λ e. ¬ IsFor ip e) es
    → lookup_from acc (store new es) ip ≡ some new
unfolding lookup_from store
lookup_from-store_self ip new [] acc p room h = absurd room
lookup_from-store_self ip new (f ∷ rest) acc p room h = elim (Bool-cases f.valid) [
  | inl e ↦ ground (arith, h.0, lookup_from-store_self ip new rest acc p)
  | inr e ↦ ground (arith, lookup_from-none ip rest (some new) h.1)
]

store_full : (new : Entry) (es : List Entry) → ¬ HasRoom es → store new es ≡ es
unfolding store
store_full new [] h = refl
store_full new (f ∷ rest) h = elim (Bool-cases f.valid) [
  | inl e ↦ ground (arith, store_full new rest (λ p. h (inr p)))
  | inr e ↦ absurd (h (inl e))
]

-- A lookup answers with an entry that is valid and for the address; it answers NULL exactly if no
-- entry is.
pub sr_arpcache_lookup_lem :
    (cache : Cache) (ip : ℕ)
    → ((e : Entry) → sr_arpcache_lookup cache ip ≡ some e → IsFor ip e)
      × ((sr_arpcache_lookup cache ip ≡ none) ↔ All (λ e. ¬ IsFor ip e) cache.entries)
unfolding sr_arpcache_lookup
sr_arpcache_lookup_lem cache ip = (
  (λ e h. ground (arith, lookup_from-IsFor ip cache.entries none h)),
  (none-lookup_from ip cache.entries none, lookup_from-none ip cache.entries none),
)

-- After an insertion into a table with room and no mapping for the address, a lookup of the address
-- finds the new mapping: the first six bytes given, the time of the insertion, valid.
pub lookup-insert_self :
    (cache : Cache) (mac : List ℕ) (ip now : ℕ)
    → HasRoom cache.entries
    → sr_arpcache_lookup cache ip ≡ none
    → sr_arpcache_lookup (sr_arpcache_insert cache mac ip now).1 ip
      ≡ some (record { mac = take 6 mac; ip = ip; added = now; valid = true })
unfolding sr_arpcache_lookup sr_arpcache_insert
lookup-insert_self cache mac ip now room h =
    lookup_from-store_self ip _ cache.entries none (refl, refl) room
      (none-lookup_from ip cache.entries none h)

-- An insertion changes no lookup of another address, whether the table is full or not.
pub lookup-insert_ne :
    (cache : Cache) (mac : List ℕ) (ip ip' now : ℕ)
    → ip ≢ ip'
    → sr_arpcache_lookup (sr_arpcache_insert cache mac ip now).1 ip' ≡ sr_arpcache_lookup cache ip'
unfolding sr_arpcache_lookup sr_arpcache_insert
lookup-insert_ne cache mac ip ip' now h =
    lookup_from-store_other ip' (record { mac = take 6 mac; ip = ip; added = now; valid = true })
      cache.entries none h

-- An insertion into a full table leaves every entry as it was: the new mapping is dropped, and no
-- entry makes room for it.
pub insert_full :
    (cache : Cache) (mac : List ℕ) (ip now : ℕ)
    → ¬ HasRoom cache.entries
    → (sr_arpcache_insert cache mac ip now).1.entries ≡ cache.entries
unfolding sr_arpcache_insert
insert_full cache mac ip now h = store_full _ cache.entries h
