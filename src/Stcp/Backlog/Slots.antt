-- ===== src/Stcp/Backlog/Slots.antt =====
-- The slots of a listen queue: how many are in use, and what the searches find.
use computer_networks.Prelude.{
  ℕ, zero, suc, ◌+◌, ◌<◌, ◌≤◌, ◌≡◌, ◌≢◌, refl, ap, List, [], ◌∷◌, ◌++◌, none, some, if◌then◌else◌,
  ◌==◌, arith, length, get_elem?, set, take, replicate,
}
use computer_networks.Stcp.World.{ConnectRequest}
use computer_networks.Stcp.Backlog.{invalid, is_free, find_slot, find_sd}

-- The number of slots in use.
abbrev pub used : List ConnectRequest → ℕ
used [] = 0
used (r ∷ rest) = (if is_free r then 0 else 1) + used rest

-- The slot holds a request with this descriptor.
abbrev pub Holds : List ConnectRequest → ℕ → ℕ → Type 0
Holds l k sd = (r : ConnectRequest) × (get_elem? l k ≡ some r) × (r.sd ≡ some sd)

pub used_le : (l : List ConnectRequest) → used l ≤ length l
used_le [] = omega arith
used_le (r ∷ rest) = ground (arith, used_le rest)

pub find_slot-none : (l : List ConnectRequest) → find_slot l ≡ none → used l ≡ length l
unfolding find_slot
find_slot-none [] e = refl
find_slot-none (r ∷ rest) e = ground (arith, find_slot-none rest)

pub find_slot-free :
    (l : List ConnectRequest) (k : ℕ)
    → find_slot l ≡ some k
    → (r : ConnectRequest) × (get_elem? l k ≡ some r) × (r.sd ≡ none)
unfolding find_slot
find_slot-free [] k e = cc
find_slot-free (x ∷ rest) zero e = (x, refl, ground arith)
find_slot-free (x ∷ rest) (suc k) e = find_slot-free rest k (ground arith)

pub get_elem?-take :
    (n : ℕ) (l : List ConnectRequest) (k : ℕ) {r : ConnectRequest}
    → get_elem? (take n l) k ≡ some r
    → get_elem? l k ≡ some r
get_elem?-take zero l k e = cc e
get_elem?-take (suc n) [] k e = e
get_elem?-take (suc n) (x ∷ l) zero e = e
get_elem?-take (suc n) (x ∷ l) (suc k) e = get_elem?-take n l k e

pub Holds-take : (n : ℕ) (l : List ConnectRequest) (k sd : ℕ) → Holds (take n l) k sd → Holds l k sd
Holds-take n l k sd (r, e, h) = (r, get_elem?-take n l k e, h)

pub used-take : (n : ℕ) (l : List ConnectRequest) → used (take n l) ≤ used l
used-take zero l = omega arith
used-take (suc n) [] = omega arith
used-take (suc n) (x ∷ l) = omega (arith, used-take n l)

pub used-set_request :
    (l : List ConnectRequest) (k : ℕ) (old r : ConnectRequest) (sd : ℕ)
    → get_elem? l k ≡ some old
    → old.sd ≡ none
    → r.sd ≡ some sd
    → (k < length l) × (used (set l k r) ≡ used l + 1)
used-set_request [] k old r sd e o h = cc
used-set_request (x ∷ rest) zero old r sd e o h = ground arith
used-set_request (x ∷ rest) (suc k) old r sd e o h =
    ground (arith, used-set_request rest k old r sd e o h)

pub used-set-invalid :
    (l : List ConnectRequest) (k sd : ℕ) → Holds l k sd → used (set l k invalid) + 1 ≡ used l
used-set-invalid [] k sd h = ground arith
used-set-invalid (x ∷ rest) zero sd h = ground arith
used-set-invalid (x ∷ rest) (suc k) sd h = ground (arith, used-set-invalid rest k sd h)

pub used-append : (l m : List ConnectRequest) → used (l ++ m) ≡ used l + used m
used-append [] m = omega arith
used-append (x ∷ rest) m = omega (arith, used-append rest m)

pub used-replicate : (n : ℕ) → used (replicate n invalid) ≡ 0
used-replicate zero = refl
used-replicate (suc n) = omega (arith, used-replicate n)

pub find_sd-Holds : (l : List ConnectRequest) (sd k : ℕ) → find_sd l sd ≡ some k → Holds l k sd
unfolding find_sd
find_sd-Holds [] sd k e = cc
find_sd-Holds (x ∷ rest) sd zero e = (x, refl, ground arith)
find_sd-Holds (x ∷ rest) sd (suc k) e = find_sd-Holds rest sd k (ground arith)

pub get_elem?-set :
    (l : List ConnectRequest) (k j : ℕ) (r : ConnectRequest)
    → k < length l
    → get_elem? (set l k r) j ≡ (if k == j then some r else get_elem? l j)
get_elem?-set [] k j r h = absurd (omega arith)
get_elem?-set (x ∷ rest) zero zero r h = ground arith
get_elem?-set (x ∷ rest) zero (suc j) r h = ground arith
get_elem?-set (x ∷ rest) (suc k) zero r h = ground arith
get_elem?-set (x ∷ rest) (suc k) (suc j) r h =
    ground (arith, get_elem?-set rest k j r (omega arith))

pub Holds-lt : (l : List ConnectRequest) (k sd : ℕ) → Holds l k sd → k < length l
Holds-lt [] k sd h = cc (h.1)
Holds-lt (x ∷ rest) zero sd h = omega arith
Holds-lt (x ∷ rest) (suc k) sd h = omega (arith, Holds-lt rest k sd h)

pub Holds-append : (l m : List ConnectRequest) (k sd : ℕ) → Holds l k sd → Holds (l ++ m) k sd
Holds-append [] m k sd h = cc (h.1)
Holds-append (x ∷ rest) m zero sd h = h
Holds-append (x ∷ rest) m (suc k) sd h = Holds-append rest m k sd h

pub Holds-set_free :
    (l : List ConnectRequest) (k j sd : ℕ) (old r : ConnectRequest)
    → get_elem? l k ≡ some old
    → old.sd ≡ none
    → Holds l j sd
    → Holds (set l k r) j sd
Holds-set_free [] k j sd old r e o h = cc
Holds-set_free (x ∷ rest) zero zero sd old r e o h = ground arith
Holds-set_free (x ∷ rest) zero (suc j) sd old r e o h = h
Holds-set_free (x ∷ rest) (suc k) zero sd old r e o h = h
Holds-set_free (x ∷ rest) (suc k) (suc j) sd old r e o h = Holds-set_free rest k j sd old r e o h

pub Holds-set_other :
    (l : List ConnectRequest) (k j sd : ℕ) (r : ConnectRequest)
    → j ≢ k
    → Holds l j sd
    → Holds (set l k r) j sd
Holds-set_other [] k j sd r n h = h
Holds-set_other (x ∷ rest) zero zero sd r n h = absurd (n refl)
Holds-set_other (x ∷ rest) zero (suc j) sd r n h = h
Holds-set_other (x ∷ rest) (suc k) zero sd r n h = h
Holds-set_other (x ∷ rest) (suc k) (suc j) sd r n h =
    Holds-set_other rest k j sd r (λ e. n (ap suc e)) h
