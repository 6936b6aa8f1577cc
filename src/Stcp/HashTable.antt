-- ===== src/Stcp/HashTable.antt =====
-- Assignment3/src/mysock_hash.h: the hash table with chaining that the macros declare, with the
-- default hash function and key equality. A key is a non-negative number; a chain is a list, newest
-- entry first, and the table is the list of its chains.
pub mod Laws
pub mod MapView
use computer_networks.Prelude.{
  ℕ, zero, suc, ◌%◌, List, [], ◌∷◌, Option, none, some, Bool, true, false, if◌then◌else◌, ◌==◌, ltb,
  set, get_or, length, replicate, Outcome, returns, assert, ◌>>=◌, ◌>>◌,
}

abbrev pub Chain {ℓ} : Type ℓ → Type ℓ
Chain V = List (ℕ × V)

abbrev pub Table {ℓ} : Type ℓ → Type ℓ
Table V = List (Chain V)

module _ {ℓ} {V : Type ℓ} where
  -- `HASH_DEFAULT_HASH_FN`
  abbrev pub hash : Table V → ℕ → ℕ
  hash tbl key = key % length tbl

  abbrev pub bucket : Table V → ℕ → Chain V
  bucket tbl key = get_or tbl (hash tbl key) []

  -- `assert(ndx < size)`
  abbrev pub check_index : Table V → ℕ → Outcome (Unit {0})
  check_index tbl key = assert (ltb (hash tbl key) (length tbl))

  unfoldable pub find : Chain V → ℕ → Option V
  find [] key = none
  find ((k, v) ∷ rest) key = if k == key then some v else find rest key

  abbrev pub is_some : Option V → Bool
  is_some none = false
  is_some (some v) = true

  abbrev pub is_none : Option V → Bool
  is_none none = true
  is_none (some v) = false

  -- `_hash_get_entry` and `_hash_lookup_ptr`
  unfoldable pub hash_lookup_ptr : Table V → ℕ → Outcome (Option V)
  unfolding find
  hash_lookup_ptr tbl key = check_index tbl key >> returns (find (bucket tbl key) key)

  -- `_hash_lookup` asserts that the key is there.
  pub hash_lookup : Table V → ℕ → Outcome V
  unfolding hash_lookup_ptr
  hash_lookup tbl key = do
    found ← hash_lookup_ptr tbl key
    elim found [ none ↦ Outcome.assert_fails | some v ↦ returns v ]

  pub hash_entry_exists : Table V → ℕ → Outcome Bool
  unfolding hash_lookup_ptr
  hash_entry_exists tbl key = hash_lookup_ptr tbl key >>= λ found. returns (is_some found)

  -- The assertion at the end, that the new head is the entry found for the key, is one of a key
  -- equal to itself.
  unfoldable pub hash_insert : Table V → ℕ → V → Outcome (Table V)
  hash_insert tbl key v =
      check_index tbl key >> returns (set tbl (hash tbl key) ((key, v) ∷ bucket tbl key))

  -- The write through the pointer to the first entry for the key.
  unfoldable pub overwrite : Chain V → ℕ → V → Chain V
  overwrite [] key v = []
  overwrite ((k, w) ∷ rest) key v =
      if k == key then (k, v) ∷ rest else (k, w) ∷ overwrite rest key v

  unfoldable pub hash_set_entry : Table V → ℕ → V → Outcome (Table V)
  unfolding overwrite hash_insert hash_lookup_ptr
  hash_set_entry tbl key v = do
    found ← hash_lookup_ptr tbl key
    elim found [
      | some w ↦ returns (set tbl (hash tbl key) (overwrite (bucket tbl key) key v))
      | none ↦ hash_insert tbl key v
    ]

  -- The first entry for the key is unlinked.
  unfoldable pub remove : Chain V → ℕ → Chain V
  remove [] key = []
  remove ((k, v) ∷ rest) key = if k == key then rest else (k, v) ∷ remove rest key

  unfoldable pub hash_delete : Table V → ℕ → Outcome (Table V)
  unfolding remove hash_lookup_ptr
  hash_delete tbl key = do
    check_index tbl key
    let tbl' = set tbl (hash tbl key) (remove (bucket tbl key) key)
    found ← hash_lookup_ptr tbl' key
    assert (is_none found)
    returns tbl'
