-- ===== src/Router/ArpCache/Expiry.antt =====
-- The timeout thread's pass over the table: what it drops, and what it keeps.
use computer_networks.Prelude.{
  ℕ, ◌+◌, ◌≤◌, ◌≡◌, ◌⊎◌, inl, List, [], ◌∷◌, Option, none, some, if◌then◌else◌, ◌==◌, ◌&&◌, arith,
  map, returns,
}
use computer_networks.Router.ArpCache.{
  Entry, Cache, lookup_from, sr_arpcache_lookup, expire, sr_arpcache_timeout, sr_arpcache_to,
}

lookup_from-fresh :
    (now ip : ℕ) (es : List Entry) (acc : Option Entry) {e : Entry}
    → lookup_from acc (map (expire now) es) ip ≡ some e
    → (acc ≡ some e) ⊎ (now ≤ e.added + sr_arpcache_to)
unfolding lookup_from expire
lookup_from-fresh now ip [] acc h = inl h
lookup_from-fresh now ip (f ∷ rest) acc h =
    let g = expire now f in
    unfold expire in
    ground (arith, lookup_from-fresh now ip rest (if g.valid && g.ip == ip then some g else acc) h)

lookup_from-keeps :
    (now ip : ℕ) (es : List Entry) (acc acc' : Option Entry) {e : Entry}
    → now ≤ e.added + sr_arpcache_to
    → ((acc ≡ some e) → acc' ≡ some e)
    → lookup_from acc es ip ≡ some e
    → lookup_from acc' (map (expire now) es) ip ≡ some e
unfolding lookup_from expire
lookup_from-keeps now ip [] acc acc' t keep h = keep h
lookup_from-keeps now ip (f ∷ rest) acc acc' {e} t keep h =
    let g = expire now f in
    lookup_from-keeps now ip rest (if f.valid && f.ip == ip then some f else acc)
      (if g.valid && g.ip == ip then some g else acc') t (ground arith) h

-- A round of the timeout thread that completes leaves no mapping older than 15 seconds to be found,
-- and a mapping that was found before and is not older is found still.
pub timeout-lookup :
    (cache : Cache) (now ip : ℕ) {cache' : Cache}
    → sr_arpcache_timeout now cache ≡ returns cache'
    → ((e : Entry) → sr_arpcache_lookup cache' ip ≡ some e → now ≤ e.added + sr_arpcache_to)
      × ((e : Entry)
          → sr_arpcache_lookup cache ip ≡ some e
          → now ≤ e.added + sr_arpcache_to
          → sr_arpcache_lookup cache' ip ≡ some e)
unfolding sr_arpcache_timeout sr_arpcache_lookup
timeout-lookup cache now ip {cache'} h =
    let kept : cache'.entries ≡ map (expire now) cache.entries = entries_kept in
    (
      (λ e f. ground (arith, lookup_from-fresh now ip cache.entries none (rw kept at f))),
      (λ e f t. rw kept (lookup_from-keeps now ip cache.entries none none t (λ x. x) f)),
    )
  where
    entries_kept : cache'.entries ≡ map (expire now) cache.entries
    entries_kept = ground arith
