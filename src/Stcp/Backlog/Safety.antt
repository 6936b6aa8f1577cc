-- ===== src/Stcp/Backlog/Safety.antt =====
-- Taking a slot and accepting on a queue that steps reach, and accepting on one that is resized too late.
use computer_networks.Prelude.{
  ℕ, zero, suc, ◌+◌, ◌-◌, ◌<◌, ◌≤◌, ◌≡◌, ◌≢◌, ◌⊎◌, inl, inr, refl, ap, sym, subst, ◌∙◌, List, [],
  ◌∷◌, ◌++◌, none, some, true, ltb, arith, take, get_elem?, set, length-take, replicate, All,
  Option-cases, dec_lt, returns, undefined,
}
use computer_networks.Stcp.World.{ConnectRequest, ListenQueue}
use computer_networks.Stcp.Backlog.{
  invalid, find_slot, take_slot, accept_from, accept, resize, new_queue,
}
use computer_networks.Stcp.Backlog.Slots.{
  find_slot-none, find_slot-free, used-set-invalid, used-take, get_elem?-take,
}
use computer_networks.Stcp.Backlog.Steps.{PointsTo, IsQueue, Reach}
use computer_networks.Stcp.Backlog.Inversion.{accept_from_lem, accept_from-moved}
use computer_networks.Stcp.Backlog.Invariant.{Reach-IsQueue, new_queue-IsQueue}
use computer_networks.Stcp.Backlog.Fifo.{sd_at, sd_at-Holds}

-- On a reachable queue, a request gets a free slot while the backlog is not exhausted, and none after.
pub take_slot-safe :
    (port : ℕ) (q : ListenQueue)
    → Reach (new_queue port) q
    → (take_slot q ≡ returns none) × (q.max_len ≤ q.cur_len)
      ⊎ ((k : ℕ) × (r : ConnectRequest) × (q.cur_len < q.max_len)
          × (take_slot q ≡ returns (some (k, record q { cur_len = q.cur_len + 1 })))
          × (get_elem? q.connection_queue k ≡ some r)
          × (r.sd ≡ none))
unfolding take_slot
take_slot-safe port q t =
    let i = Reach-IsQueue (new_queue port) q t (new_queue-IsQueue port) in
    elim (dec_lt q.cur_len q.max_len) [
      | yes l ↦ elim (Option-cases (find_slot (take q.max_len q.connection_queue))) [
        | inl n ↦ absurd (
            omega (
              arith,
              find_slot-none (take q.max_len q.connection_queue) n,
              used-take q.max_len q.connection_queue,
              length-take q.max_len q.connection_queue,
              i.counted,
              i.sized,
            ))
        | inr (k, f) ↦
            let (r, at, free) = find_slot-free (take q.max_len q.connection_queue) k f in
            inr (
              k,
              r,
              l,
              let b : ltb q.cur_len q.max_len ≡ true = ground arith in rw (f, b) refl,
              get_elem?-take q.max_len q.connection_queue k at,
              free,
            )
      ]
      | no g ↦ inl (ground arith, omega arith)
    ]

sd_at-set :
    (l : List ConnectRequest) (k : ℕ) (r : ConnectRequest)
    → get_elem? l k ≡ some r
    → sd_at (set l k invalid) k ≡ none
sd_at-set [] k r e = cc
sd_at-set (x ∷ l) zero r e = refl
sd_at-set (x ∷ l) (suc k) r e = sd_at-set l k r e

-- On a queue with a completed connection, the first one is accepted: its descriptor is returned, its slot is
-- free after, and the count is one lower. The queue is reached from a new one by requests, completions,
-- accepts, and resizes, none of which raised the backlog while completed connections waited; each call is
-- one step.
pub accept-safe :
    (port : ℕ) (q : ListenQueue) (p : ℕ × ℕ) (ps : List (ℕ × ℕ))
    → Reach (new_queue port) q
    → q.completed_queue ≡ p ∷ ps
    → (sd : ℕ) × (q' : ListenQueue) × (accept q ≡ returns (some (sd, q')))
      × (sd_at q.connection_queue p.1 ≡ some sd)
      × (sd_at q'.connection_queue p.1 ≡ none)
      × (q'.cur_len + 1 ≡ q.cur_len)
      × (q'.completed_queue ≡ ps)
unfolding accept
accept-safe port q p ps t c =
    let i = Reach-IsQueue (new_queue port) q t (new_queue-IsQueue port) in
    let (pa, (sd, (r, at, e))) = (subst (λ l. All (PointsTo q) l) c i.pointing).0 in
    let more = used-set-invalid q.connection_queue p.1 sd (r, at, e) in
    (
      sd,
      record q {
        completed_queue = ps;
        connection_queue = set q.connection_queue p.1 invalid;
        cur_len = q.cur_len - 1;
      },
      ap (accept_from q) c ∙ accept_from_lem q p ps r sd pa at e (omega (arith, more, i.counted)),
      sd_at-Holds q.connection_queue p.1 sd (r, at, e),
      sd_at-set q.connection_queue p.1 r at,
      omega (arith, more, i.counted),
      refl,
    )

-- In a queue with the invariant of the steps and a connection that waits to be accepted, a larger backlog moves the array:
-- the connection is read where the array was.
pub accept-moved :
    (q : ListenQueue) (p : ℕ × ℕ) (ps : List (ℕ × ℕ)) (max_len array : ℕ)
    → IsQueue q
    → q.completed_queue ≡ p ∷ ps
    → q.max_len < max_len
    → array ≢ q.array
    → accept (resize q max_len array) ≡ undefined
unfolding accept resize
accept-moved q p ps max_len array i c l n =
    let h = (subst (λ l. All (PointsTo q) l) c i.pointing).0 in
    let t : ltb q.max_len max_len ≡ true = ground arith in
    rw (t, c)
      (accept_from-moved
        (record q {
          array = array;
          connection_queue =
              take q.max_len q.connection_queue ++ replicate (max_len - q.max_len) invalid;
          max_len = max_len;
          completed_queue = p ∷ ps;
        })
        p ps (λ e. n (sym e ∙ h.0)))
