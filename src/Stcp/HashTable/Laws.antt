-- ===== src/Stcp/HashTable/Laws.antt =====
-- Chains and tables: what is found after each update.
use computer_networks.Prelude.{
  ℕ, ◌<◌, ◌≡◌, ◌≢◌, [], ◌∷◌, Option, none, some, if◌then◌else◌, ◌==◌, set, length, arith, refl,
  length-set, get_or-set_self, get_or-set_ne, Bool-cases, inl, inr, ==_iff, sym, ◌∙◌,
}
use computer_networks.Stcp.HashTable.{Chain, Table, hash, bucket, find, overwrite, remove}

module _ {ℓ} {V : Type ℓ} where
  -- No key stands twice in the chain.
  abbrev pub Distinct : Chain V → Type ℓ
  Distinct [] = Unit
  Distinct ((k, v) ∷ rest) = (find rest k ≡ none) × Distinct rest

  pub find-overwrite :
      (c : Chain V) (key : ℕ) (v : V) (key' : ℕ) (w : V)
      → find c key ≡ some w
      → find (overwrite c key v) key' ≡ (if key == key' then some v else find c key')
  unfolding find overwrite
  find-overwrite [] key v key' w h = cc
  find-overwrite ((k, u) ∷ rest) key v key' w h = ground (arith, find-overwrite rest key v key' w)

  pub find-remove_ne :
      (c : Chain V) (key key' : ℕ) → key ≢ key' → find (remove c key) key' ≡ find c key'
  unfolding find remove
  find-remove_ne [] key key' h = refl
  find-remove_ne ((k, u) ∷ rest) key key' h = ground (arith, find-remove_ne rest key key')

  pub find-remove_self : (c : Chain V) (key : ℕ) → Distinct c → find (remove c key) key ≡ none
  unfolding find remove
  find-remove_self [] key d = refl
  find-remove_self ((k, u) ∷ rest) key d = ground (arith, find-remove_self rest key d.1)

  find-none-remove :
      (c : Chain V) (key key' : ℕ) → find c key' ≡ none → find (remove c key) key' ≡ none
  unfolding find remove
  find-none-remove [] key key' h = refl
  find-none-remove ((k, u) ∷ rest) key key' h = ground (arith, find-none-remove rest key key')

  pub remove-Distinct : (c : Chain V) (key : ℕ) → Distinct c → Distinct (remove c key)
  unfolding remove
  remove-Distinct [] key d = tt
  remove-Distinct ((k, u) ∷ rest) key d =
      ground (arith, find-none-remove rest key k, remove-Distinct rest key d.1)

  find-none-overwrite :
      (c : Chain V) (key : ℕ) (v : V) (key' : ℕ)
      → find c key' ≡ none
      → find (overwrite c key v) key' ≡ none
  unfolding find overwrite
  find-none-overwrite [] key v key' h = refl
  find-none-overwrite ((k, u) ∷ rest) key v key' h =
      ground (arith, find-none-overwrite rest key v key')

  pub overwrite-Distinct :
      (c : Chain V) (key : ℕ) (v : V) → Distinct c → Distinct (overwrite c key v)
  unfolding overwrite
  overwrite-Distinct [] key v d = tt
  overwrite-Distinct ((k, u) ∷ rest) key v d =
      ground (arith, find-none-overwrite rest key v k, overwrite-Distinct rest key v d.1)

  pub if-agree :
      (key k : ℕ) (a b c : Option V)
      → (key ≡ k → a ≡ b)
      → (if key == k then a else c) ≡ (if key == k then b else c)
  if-agree key k a b c h = elim (Bool-cases (key == k)) [
    | inl e ↦ rw e (h ((==_iff key k).0 e))
    | inr e ↦ rw e
  ]

  -- The chain that is put into a bucket is the bucket of the keys that hash to it, and of no other.
  pub bucket-set :
      (tbl : Table V) (key key' : ℕ) (c : Chain V)
      → 0 < length tbl
      → bucket (set tbl (hash tbl key) c) key'
        ≡ (if hash tbl key == hash tbl key' then c else bucket tbl key')
  bucket-set tbl key key' c h =
      rw (length-set tbl (hash tbl key) c) (elim (Bool-cases (hash tbl key == hash tbl key')) [
        | inl e ↦
            let same : hash tbl key' ≡ hash tbl key = sym ((==_iff _ _).0 e) in
            rw (e, same) (get_or-set_self tbl (hash tbl key) c [] (omega arith))
        | inr e ↦ rw e (get_or-set_ne tbl _ _ c [] (λ q. cc (e, (==_iff _ _).1 q)))
      ])

  pub bucket-set_self :
      (tbl : Table V) (key : ℕ) (c : Chain V)
      → 0 < length tbl
      → bucket (set tbl (hash tbl key) c) key ≡ c
  bucket-set_self tbl key c h =
      bucket-set tbl key key c h ∙ rw ((==_iff (hash tbl key) (hash tbl key)).1 refl)
