-- ===== src/Stcp/HashTable/MapView.antt =====
-- The table as a finite map: what each operation returns, and what every key maps to afterwards.
use computer_networks.Prelude.{
  ℕ, ◌<◌, ◌≡◌, ◌≢◌, [], ◌∷◌, Option, none, some, Bool, true, false, if◌then◌else◌, ◌==◌, set,
  length, get_or, arith, refl, Outcome, returns, assert_fails, ◌>>=◌, ◌>>◌, assert, length-set,
  Option-cases, Bool-cases, ap, inl, inr, ==_iff, sym, ◌∙◌,
}
use computer_networks.Stcp.HashTable.{
  Chain, Table, hash, bucket, check_index, is_none, find, overwrite, remove, hash_lookup_ptr,
  hash_lookup, hash_insert, hash_set_entry, hash_delete,
}
use computer_networks.Stcp.HashTable.Laws.{
  Distinct, find-overwrite, find-remove_ne, find-remove_self, remove-Distinct, overwrite-Distinct,
  bucket-set, bucket-set_self, if-agree,
}

module _ {ℓ} {V : Type ℓ} where
  -- What a key maps to.
  unfoldable pub view : Table V → ℕ → Option V
  view tbl key = find (bucket tbl key) key

  -- The table has a bucket, and no bucket holds a key twice.
  pub record IsTable (tbl : Table V) : Type ℓ where
    pub sized : 0 < length tbl
    pub distinct : (key : ℕ) → Distinct (bucket tbl key)

  check : (tbl : Table V) (key : ℕ) → 0 < length tbl → check_index tbl key ≡ returns tt
  check tbl key h = ground arith

  put : Table V → ℕ → Chain V → Table V
  put tbl key c = set tbl (hash tbl key) c

  view-put :
      (tbl : Table V) (key key' : ℕ) (c : Chain V)
      → 0 < length tbl
      → ((k : ℕ) → key ≢ k → find c k ≡ find (bucket tbl key) k)
      → view (put tbl key c) key' ≡ (if key == key' then find c key' else view tbl key')
  unfolding view put
  view-put tbl key key' c h other =
      ap (λ d. find d key') (bucket-set tbl key key' c h) ∙ elim (Bool-cases (key == key')) [
        | inl e ↦
            let same : key ≡ key' = (==_iff _ _).0 e in
            rw (e, (==_iff (hash tbl key) (hash tbl key')).1 (ap (hash tbl) same))
        | inr e ↦ elim (Bool-cases (hash tbl key == hash tbl key')) [
          | inl f ↦
              let same : hash tbl key ≡ hash tbl key' = (==_iff _ _).0 f in
              rw (e, f)
                (other key' (λ q. cc (e, (==_iff _ _).1 q))
                  ∙ ap (λ i. find (get_or tbl i []) key') same)
          | inr f ↦ rw (e, f)
        ]
      ]

  put-IsTable :
      (tbl : Table V) (key : ℕ) (c : Chain V) → IsTable tbl → Distinct c → IsTable (put tbl key c)
  unfolding put
  put-IsTable tbl key c t d = record {
    sized = rw (length-set tbl (hash tbl key) c) t.sized;
    distinct = λ k. rw (bucket-set tbl key k c t.sized) (pick (hash tbl key == hash tbl k) k);
  }
    where
      pick : (b : Bool) (k : ℕ) → Distinct (if b then c else bucket tbl k)
      pick true k = d
      pick false k = t.distinct k

  -- What an update of the table gives: it returns a table of the same size that is one still if it
  -- was, and in which each key maps to what `after` says.
  pub record Updates (tbl : Table V) (after : ℕ → Option V) (out : Outcome (Table V)) : Type ℓ where
    pub tbl' : Table V
    pub returned : out ≡ returns tbl'
    pub maps : (key' : ℕ) → view tbl' key' ≡ after key'
    pub kept : IsTable tbl'

  put-Updates :
      (tbl : Table V) (key : ℕ) (c : Chain V) (after : ℕ → Option V)
      → IsTable tbl
      → Distinct c
      → ((k : ℕ) → key ≢ k → find c k ≡ find (bucket tbl key) k)
      → ((k : ℕ) → (if key == k then find c k else view tbl k) ≡ after k)
      → Updates tbl after (returns (put tbl key c))
  put-Updates tbl key c after t d other e = record {
    tbl' = put tbl key c;
    returned = refl;
    maps = λ k. view-put tbl key k c t.sized other ∙ e k;
    kept = put-IsTable tbl key c t d;
  }

  -- A lookup returns what the key maps to, and fails its assertion if that is nothing.
  pub hash_lookup_lem :
      (tbl : Table V) (key : ℕ)
      → IsTable tbl
      → (hash_lookup_ptr tbl key ≡ returns (view tbl key))
        × ((v : V) → view tbl key ≡ some v → hash_lookup tbl key ≡ returns v)
        × (view tbl key ≡ none → hash_lookup tbl key ≡ assert_fails)
  unfolding hash_lookup view
  hash_lookup_lem tbl key t = (
    rw (check tbl key t.sized),
    (λ v e. rw (check tbl key t.sized, e)),
    (λ e. rw (check tbl key t.sized, e)),
  )

  -- Inserting a key that maps to nothing makes it map to the value, and changes no other key.
  pub hash_insert-Updates :
      (tbl : Table V) (key : ℕ) (v : V)
      → IsTable tbl
      → view tbl key ≡ none
      → Updates tbl (λ k. if key == k then some v else view tbl k) (hash_insert tbl key v)
  unfolding hash_insert put view find
  hash_insert-Updates tbl key v t absent = rw (check tbl key t.sized) (
      put-Updates tbl key ((key, v) ∷ bucket tbl key) _ t (absent, t.distinct key)
        (λ k n. ground arith) (λ k. ground arith))

  -- Setting a key makes it map to the value, whether it did map to something or not, and changes no
  -- other key.
  pub hash_set_entry-Updates :
      (tbl : Table V) (key : ℕ) (v : V)
      → IsTable tbl
      → Updates tbl (λ k. if key == k then some v else view tbl k) (hash_set_entry tbl key v)
  unfolding hash_set_entry put view
  hash_set_entry-Updates tbl key v t = elim (Option-cases (view tbl key)) [
    | inl e ↦ rw (check tbl key t.sized, e) (hash_insert-Updates tbl key v t e)
    | inr (w, e) ↦
        rw (check tbl key t.sized, e)
          (put-Updates tbl key (overwrite (bucket tbl key) key v) _ t
            (overwrite-Distinct (bucket tbl key) key v (t.distinct key))
            (λ k n. ground (arith, find-overwrite (bucket tbl key) key v k w e))
            (λ k. ground (arith, find-overwrite (bucket tbl key) key v k w e)))
  ]

  -- The deletion up to its last assertion.
  hash_delete_eq :
      (tbl : Table V) (key : ℕ)
      → 0 < length tbl
      → let c = remove (bucket tbl key) key in
        hash_delete tbl key ≡ (assert (is_none (find c key)) >> returns (put tbl key c))
  unfolding hash_delete put
  hash_delete_eq tbl key h =
      let c = remove (bucket tbl key) key in
      let sized : 0 < length (set tbl (hash tbl key) c) = rw (length-set tbl (hash tbl key) c) h in
      rw (check tbl key h, check (set tbl (hash tbl key) c) key sized, bucket-set_self tbl key c h)

  -- Deleting a key makes it map to nothing, passes its assertion, and changes no other key.
  pub hash_delete-Updates :
      (tbl : Table V) (key : ℕ)
      → IsTable tbl
      → Updates tbl (λ k. if key == k then none else view tbl k) (hash_delete tbl key)
  hash_delete-Updates tbl key t =
      let d = t.distinct key in
      let gone = find-remove_self (bucket tbl key) key d in
      rw (hash_delete_eq tbl key t.sized, gone)
        (put-Updates tbl key (remove (bucket tbl key) key) _ t (remove-Distinct _ key d)
          (λ k n. find-remove_ne (bucket tbl key) key k n)
          (λ k.
            if-agree key k _ none _ (λ e. ap (find (remove (bucket tbl key) key)) (sym e) ∙ gone)))

  -- Insertion does not check for duplicates: a key inserted while it maps to something cannot be
  -- deleted, since the older entry fails the assertion at the end of the deletion.
  pub insert_twice-delete :
      (tbl : Table V) (key : ℕ) (v : V)
      → 0 < length tbl
      → view tbl key ≢ none
      → (hash_insert tbl key v >>= λ t. hash_delete t key) ≡ assert_fails
  unfolding hash_insert remove view
  insert_twice-delete tbl key v h present =
      let c = (key, v) ∷ bucket tbl key in
      let sized : 0 < length (set tbl (hash tbl key) c) = rw (length-set tbl (hash tbl key) c) h in
      rw
        (
          check tbl key h,
          hash_delete_eq (set tbl (hash tbl key) c) key sized,
          bucket-set_self tbl key c h,
          (==_iff key key).1 refl,
        )
        (fails (find (bucket tbl key) key) _ present)
    where
      fails :
          (o : Option V) (t : Outcome (Table V))
          → o ≢ none
          → (assert (is_none o) >> t) ≡ assert_fails
      fails none t n = absurd (n refl)
      fails (some w) t n = refl
