-- ===== src/Stcp/Backlog/Exact.antt =====
-- The number of slots and of requests in a listen queue whose backlog is not lowered.
use computer_networks.Prelude.{
  ℕ, ◌-◌, ◌≤◌, ◌≡◌, refl, ap, sym, subst, ◌∙◌, some, ltb, arith, take, length, length-set,
  replicate, length-replicate, length-append, take-eq_self, Bool-cases, inl, inr, returns,
}
use computer_networks.Stcp.World.{ConnectRequest, ListenQueue}
use computer_networks.Stcp.Backlog.{invalid, take_slot, put_request, accept, resize, new_queue}
use computer_networks.Stcp.Backlog.Slots.{
  used, get_elem?-take, find_slot-free, used-set_request, used-set-invalid, used-append,
  used-replicate,
}
use computer_networks.Stcp.Backlog.Steps.{
  IsQueue, Step, arrive, establish, leave, resized, Reach, here, next,
}
use computer_networks.Stcp.Backlog.Inversion.{take_slot-returns, complete-returns, accept-returns}
use computer_networks.Stcp.Backlog.Invariant.{Reach-IsQueue}

pub record IsExact (q : ListenQueue) : Type 0 where
  pub slots : length q.connection_queue ≡ q.max_len
  pub requests : q.cur_len ≡ used q.connection_queue

-- The step does not lower the backlog.
abbrev pub KeepsBacklog : {q r : ListenQueue} → Step q r → Type 0
KeepsBacklog (arrive q q' k sd r e h) = Unit
KeepsBacklog (establish q q' k sd f n e) = Unit
KeepsBacklog (leave q q' sd e) = Unit
KeepsBacklog (resized q max_len array n) = q.max_len ≤ max_len

abbrev pub NeverShrinks : {q r : ListenQueue} → Reach q r → Type 0
NeverShrinks here = Unit
NeverShrinks (next t s) = NeverShrinks t × KeepsBacklog s

arrive-IsExact :
    (q q' : ListenQueue) (k sd : ℕ) (r : ConnectRequest)
    → take_slot q ≡ returns (some (k, q'))
    → r.sd ≡ some sd
    → IsExact q
    → IsExact (put_request q' k r)
arrive-IsExact q q' k sd r e h i =
    let t = take_slot-returns q q' k e in
    let (old, at, free) = find_slot-free (take q.max_len q.connection_queue) k t.0 in
    let (lt, more) =
      used-set_request q.connection_queue k old r sd
        (get_elem?-take q.max_len q.connection_queue k at) free h in
    subst (λ x. IsExact (put_request x k r)) (sym (t.1))
      (record {
        slots = length-set q.connection_queue k r ∙ i.slots;
        requests = omega (arith, more, i.requests);
      })

leave-IsExact :
    (q q' : ListenQueue) (sd : ℕ) → accept q ≡ returns (some (sd, q')) → IsExact q → IsExact q'
leave-IsExact q q' sd e i =
    let (p, ps, c, h, same) = accept-returns q q' sd e in
    subst IsExact (sym same) (record {
      slots = length-set q.connection_queue p.1 invalid ∙ i.slots;
      requests = omega (arith, used-set-invalid q.connection_queue p.1 sd h, i.requests);
    })

resize-IsExact :
    (q : ListenQueue) (max_len array : ℕ)
    → q.max_len ≤ max_len
    → IsExact q
    → IsExact (resize q max_len array)
unfolding resize
resize-IsExact q max_len array l i =
    let more = replicate (max_len - q.max_len) invalid in
    let all = take-eq_self q.max_len q.connection_queue (omega (arith, i.slots)) in
    elim (Bool-cases (ltb q.max_len max_len)) [
      | inl t ↦ rw t (record {
        slots = ground (
          arith,
          length-append (take q.max_len q.connection_queue) more,
          length-replicate (max_len - q.max_len) invalid,
          ap length all,
          i.slots,
        );
        requests = ground (
          arith,
          used-append (take q.max_len q.connection_queue) more,
          used-replicate (max_len - q.max_len),
          ap used all,
          i.requests,
        );
      })
      | inr f ↦ rw f (record { slots = ground (arith, i.slots); requests = i.requests })
    ]

Step-IsExact : (q r : ListenQueue) (s : Step q r) → KeepsBacklog s → IsExact q → IsExact r
Step-IsExact q _ (arrive _ q' k sd r e h) b i = arrive-IsExact q q' k sd r e h i
Step-IsExact q r (establish _ _ k sd f n e) b i =
    subst IsExact (sym (complete-returns q r k sd f e))
      (record { slots = i.slots; requests = i.requests })
Step-IsExact q r (leave _ _ sd e) b i = leave-IsExact q r sd e i
Step-IsExact q _ (resized _ max_len array n) b i = resize-IsExact q max_len array b i

exact : (q r : ListenQueue) (t : Reach q r) → NeverShrinks t → IsExact q → IsExact r
exact q _ here b i = i
exact q s (next r t) b i = Step-IsExact _ s t b.1 (exact q _ r b.0 i)

-- A history of requests, completions, accepts and resizes keeps the invariant of a listen queue: there are as
-- many slots as the backlog allows, as many requests counted as slots in use, and the completed connections
-- point to different slots in use. No resize lowers the backlog, and none raises it while completed
-- connections wait; each call is one step.
pub Reach-IsExact :
    (q r : ListenQueue) (t : Reach q r)
    → NeverShrinks t
    → IsQueue q
    → IsExact q
    → IsQueue r × IsExact r
Reach-IsExact q r t b i e = (Reach-IsQueue q r t i, exact q r t b e)

pub new_queue-IsExact : (port : ℕ) → IsExact (new_queue port)
new_queue-IsExact port = record { slots = refl; requests = refl }
