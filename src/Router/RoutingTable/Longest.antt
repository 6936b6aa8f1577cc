-- ===== src/Router/RoutingTable/Longest.antt =====
-- The longest prefix match: what its loop computes, and what `find_rt_dest` makes of it.
use Prim.Native.Nat.{bit_and}
use computer_networks.Prelude.{
  ℕ, ◌≤◌, ◌<◌, ◌≡◌, ◌≢◌, sym, ◌∙◌, ◌⊎◌, inl, inr, List, [], ◌∷◌, true, false, if◌then◌else◌, ◌==◌,
  ◌&&◌, arith, All, Any, refl, ltb, Bool,
}
use computer_networks.Router.RoutingTable.{
  Route, RoutePointer, null, to, indeterminate, lpm_from, find_rt_dest,
}

-- The route passes the test of the loop, with a mask that is not empty. The loop compares the address with
-- the masked destination of the route; its comment has the masked address and the destination.
abbrev pub Matches : ℕ → Route → Type 0
Matches dest_ip r = (dest_ip ≡ bit_and r.mask r.dest) × (0 < r.mask)

-- A longest match among the routes of a table, longer than the mask given.
pub record IsLongest (dest_ip m : ℕ) (table : List Route) (r : Route) : Type 0 where
  pub among : Any (λ r'. r' ≡ r) table
  pub matching : Matches dest_ip r
  pub longer : m < r.mask
  pub longest : All (λ r'. Matches dest_ip r' → r'.mask ≤ r.mask) table

-- What the loop ends with, started with a pointer and a mask.
abbrev pub Scanned : ℕ → RoutePointer → ℕ → List Route → RoutePointer × ℕ → Type 0
Scanned dest_ip p m table out =
    ((out ≡ (p, m)) × All (λ r. Matches dest_ip r → r.mask ≤ m) table)
    ⊎ ((r : Route) × (out ≡ (to r, r.mask)) × IsLongest dest_ip m table r)

Scanned-cons :
    (dest_ip : ℕ) (p : RoutePointer) (m : ℕ) (r : Route) (rest : List Route) (b : Bool)
    {out : RoutePointer × ℕ}
    → (dest_ip == bit_and r.mask r.dest && ltb m r.mask) ≡ b
    → Scanned dest_ip (if b then to r else p) (if b then r.mask else m) rest out
    → Scanned dest_ip p m (r ∷ rest) out
Scanned-cons dest_ip p m r rest true e (inl (o, h)) = inr (
  r,
  o,
  record {
    among = inl refl;
    matching = ground arith;
    longer = ground arith;
    longest = ((λ _. omega arith), h);
  },
)
Scanned-cons dest_ip p m r rest true e (inr (r', o, h)) = inr (
  r',
  o,
  record {
    among = inr h.among;
    matching = h.matching;
    longer = ground (arith, h.longer);
    longest = ((λ _. omega (arith, h.longer)), h.longest);
  },
)
Scanned-cons dest_ip p m r rest false e (inl (o, h)) = inl (o, ((λ t. ground arith), h))
Scanned-cons dest_ip p m r rest false e (inr (r', o, h)) = inr (
  r',
  o,
  record {
    among = inr h.among;
    matching = h.matching;
    longer = h.longer;
    longest = ((λ t. ground (arith, h.longer)), h.longest);
  },
)

lpm_from-Scanned :
    (dest_ip : ℕ) (p : RoutePointer) (m : ℕ) (table : List Route)
    → Scanned dest_ip p m table (lpm_from p m table dest_ip)
unfolding lpm_from
lpm_from-Scanned dest_ip p m [] = inl (refl, tt)
lpm_from-Scanned dest_ip p m (r ∷ rest) =
    let b = dest_ip == bit_and r.mask r.dest && ltb m r.mask in
    Scanned-cons dest_ip p m r rest b refl
      (lpm_from-Scanned dest_ip (if b then to r else p) (if b then r.mask else m) rest)

none_match :
    (dest_ip : ℕ) (table : List Route)
    → All (λ r. Matches dest_ip r → r.mask ≤ 0) table
    → All (λ r. ¬ Matches dest_ip r) table
none_match dest_ip [] h = tt
none_match dest_ip (r ∷ rest) h =
    ((λ t. absurd (omega (arith, h.0 t, t.1))), none_match dest_ip rest h.1)

not_both :
    (dest_ip : ℕ) (table : List Route)
    → Any (Matches dest_ip) table
    → ¬ All (λ r. ¬ Matches dest_ip r) table
not_both dest_ip [] a h = a
not_both dest_ip (r ∷ rest) (inl a) h = h.0 a
not_both dest_ip (r ∷ rest) (inr a) h = not_both dest_ip rest a h.1

Any-match :
    (dest_ip : ℕ) (r : Route) (table : List Route)
    → Any (λ r'. r' ≡ r) table
    → Matches dest_ip r
    → Any (Matches dest_ip) table
Any-match dest_ip r [] a m = a
Any-match dest_ip r (r' ∷ rest) (inl e) m = inl (rw e m)
Any-match dest_ip r (r' ∷ rest) (inr a) m = inr (Any-match dest_ip r rest a m)

-- The destination of a route has no bits outside its mask.
abbrev pub IsNormal : Route → Type 0
IsNormal r = bit_and r.mask r.dest ≡ r.dest

none_exact :
    (dest_ip : ℕ) (table : List Route)
    → All IsNormal table
    → All (λ r. r.dest ≢ dest_ip) table
    → All (λ r. ¬ Matches dest_ip r) table
none_exact dest_ip [] n h = tt
none_exact dest_ip (r ∷ rest) n h = ((λ m. h.0 (sym (m.0 ∙ n.0))), none_exact dest_ip rest n.1 h.1)

-- If some route passes the test of the loop, which compares the address with the masked destination, the
-- loop ends with a route of the table that does, with the greatest mask of all that do; if none does, the
-- pointer is left as it was declared. So in a table whose destinations have no bits outside their masks no
-- route is found for an address that is not itself a destination, whatever prefixes of it there are.
pub lpm-IsLongest :
    (table : List Route) (dest_ip : ℕ)
    → let out = lpm_from indeterminate 0 table dest_ip in
      (Any (Matches dest_ip) table
        → (r : Route) × (out ≡ (to r, r.mask)) × IsLongest dest_ip 0 table r)
      × (All (λ r. ¬ Matches dest_ip r) table → out ≡ (indeterminate, 0))
      × (All IsNormal table → All (λ r. r.dest ≢ dest_ip) table → out ≡ (indeterminate, 0))
lpm-IsLongest table dest_ip = elim (lpm_from-Scanned dest_ip indeterminate 0 table) [
  | inl (o, h) ↦
      ((λ a. absurd (not_both dest_ip table a (none_match dest_ip table h))), (λ _. o), (λ _ _. o))
  | inr (r, o, h) ↦
      let some_match = Any-match dest_ip r table h.among h.matching in
      (
        (λ _. (r, o, h)),
        (λ n. absurd (not_both dest_ip table some_match n)),
        (λ n d. absurd (not_both dest_ip table some_match (none_exact dest_ip table n d))),
      )
]

-- `find_rt_dest` never returns a route: it returns NULL whenever some route matches, and a pointer
-- that was never set whenever none does.
pub find_rt_dest_lem :
    (table : List Route) (dest_ip : ℕ)
    → (Any (Matches dest_ip) table → find_rt_dest table dest_ip ≡ null)
      × (All (λ r. ¬ Matches dest_ip r) table → find_rt_dest table dest_ip ≡ indeterminate)
unfolding find_rt_dest
find_rt_dest_lem table dest_ip =
    let l = lpm-IsLongest table dest_ip in
    ((λ a. let (r, o, h) = l.0 a in ground (arith, o, h.longer)), (λ n. ground (arith, l.1 n)))

pub find_rt_dest-cases :
    (table : List Route) (dest_ip : ℕ)
    → (find_rt_dest table dest_ip ≡ null) ⊎ (find_rt_dest table dest_ip ≡ indeterminate)
unfolding find_rt_dest
find_rt_dest-cases table dest_ip = elim (lpm_from-Scanned dest_ip indeterminate 0 table) [
  | inl (o, h) ↦ inr (ground (arith, o))
  | inr (r, o, h) ↦ inl (ground (arith, o, h.longer))
]
