-- ===== src/Stcp/Backlog/Invariant.antt =====
-- The invariant of a listen queue, step by step.
use computer_networks.Prelude.{
  ℕ, ◌+◌, ◌-◌, ◌<◌, ◌≡◌, inl, inr, refl, sym, subst, ◌∙◌, List, [], ◌∷◌, ◌++◌, none, some, ltb,
  arith, take, get_elem?, set, length-set, replicate, length-replicate, length-append, length-take,
  All, Bool-cases, returns,
}
use computer_networks.Stcp.World.{ConnectRequest, ListenQueue}
use computer_networks.Stcp.Backlog.{
  invalid, take_slot, put_request, find_sd, complete, accept, resize, new_queue,
}
use computer_networks.Stcp.Backlog.Slots.{
  Holds, Holds-take, get_elem?-take, used-take, find_slot-free, used-set_request, used-set-invalid,
  used-append, used-replicate, find_sd-Holds, Holds-set_free, Holds-set_other,
}
use computer_networks.Stcp.Backlog.Steps.{
  PointsTo, NotCompleted, AllDifferent, IsQueue, Step, arrive, establish, leave, resized, Reach,
  here, next,
}
use computer_networks.Stcp.Backlog.Inversion.{take_slot-returns, complete-returns, accept-returns}

All-free :
    (q q' : ListenQueue) (k : ℕ) (old r : ConnectRequest) (ps : List (ℕ × ℕ))
    → get_elem? q.connection_queue k ≡ some old
    → old.sd ≡ none
    → q'.array ≡ q.array
    → q'.connection_queue ≡ set q.connection_queue k r
    → All (PointsTo q) ps
    → All (PointsTo q') ps
All-free q q' k old r [] e o a s h = h
All-free q q' k old r (p ∷ ps) e o a s ((pa, (sd, hp)), h) = (
  (
    pa ∙ sym a,
    (
      sd,
      subst (λ l. Holds l p.1 sd) (sym s) (Holds-set_free q.connection_queue k p.1 sd old r e o hp),
    ),
  ),
  All-free q q' k old r ps e o a s h,
)

All-other :
    (q q' : ListenQueue) (k : ℕ) (r : ConnectRequest) (ps : List (ℕ × ℕ))
    → NotCompleted k ps
    → q'.array ≡ q.array
    → q'.connection_queue ≡ set q.connection_queue k r
    → All (PointsTo q) ps
    → All (PointsTo q') ps
All-other q q' k r [] n a s h = h
All-other q q' k r (p ∷ ps) (np, n) a s ((pa, (sd, hp)), h) = (
  (
    pa ∙ sym a,
    (sd, subst (λ l. Holds l p.1 sd) (sym s) (Holds-set_other q.connection_queue k p.1 sd r np hp)),
  ),
  All-other q q' k r ps n a s h,
)

All-append_one :
    (P : ℕ × ℕ → Type 0) (ps : List (ℕ × ℕ)) (p : ℕ × ℕ) → All P ps → P p → All P (ps ++ p ∷ [])
All-append_one P [] p h hp = (hp, tt)
All-append_one P (x ∷ ps) p (hx, h) hp = (hx, All-append_one P ps p h hp)

AllDifferent-append :
    (ps : List (ℕ × ℕ)) (p : ℕ × ℕ)
    → AllDifferent ps
    → NotCompleted p.1 ps
    → AllDifferent (ps ++ p ∷ [])
AllDifferent-append [] p h n = (tt, tt)
AllDifferent-append (x ∷ ps) p (hx, h) (nx, n) =
    (All-append_one _ ps p hx (λ e. nx (sym e)), AllDifferent-append ps p h n)

arrive-IsQueue :
    (q q' : ListenQueue) (k sd : ℕ) (r : ConnectRequest)
    → take_slot q ≡ returns (some (k, q'))
    → r.sd ≡ some sd
    → IsQueue q
    → IsQueue (put_request q' k r)
arrive-IsQueue q q' k sd r e h i =
    let t = take_slot-returns q q' k e in
    let (old, at', free) = find_slot-free (take q.max_len q.connection_queue) k t.0 in
    let at = get_elem?-take q.max_len q.connection_queue k at' in
    let (lt, more) = used-set_request q.connection_queue k old r sd at free h in
    subst (λ x. IsQueue (put_request x k r)) (sym (t.1))
      (record {
        sized = omega (arith, length-set q.connection_queue k r, i.sized);
        counted = omega (arith, more, i.counted);
        pointing =
            All-free q (put_request (record q { cur_len = q.cur_len + 1 }) k r) k old r
              q.completed_queue at free refl refl i.pointing;
        different = i.different;
      })

establish-IsQueue :
    (q q' : ListenQueue) (k sd : ℕ)
    → find_sd (take q.max_len q.connection_queue) sd ≡ some k
    → NotCompleted k q.completed_queue
    → complete q sd ≡ returns q'
    → IsQueue q
    → IsQueue q'
establish-IsQueue q q' k sd f n e i =
    let holds =
      Holds-take q.max_len q.connection_queue k sd
        (find_sd-Holds (take q.max_len q.connection_queue) sd k f) in
    subst IsQueue (sym (complete-returns q q' k sd f e)) (record {
      sized = i.sized;
      counted = i.counted;
      pointing = All-append_one _ q.completed_queue (q.array, k) i.pointing (refl, (sd, holds));
      different = AllDifferent-append q.completed_queue (q.array, k) i.different n;
    })

leave_first-IsQueue :
    (q : ListenQueue) (p : ℕ × ℕ) (ps : List (ℕ × ℕ)) (sd : ℕ)
    → q.completed_queue ≡ p ∷ ps
    → Holds q.connection_queue p.1 sd
    → IsQueue q
    → IsQueue (record q {
      completed_queue = ps;
      connection_queue = set q.connection_queue p.1 invalid;
      cur_len = q.cur_len - 1;
    })
leave_first-IsQueue q p ps sd c h i =
    let point : All (PointsTo q) (p ∷ ps) = subst (λ l. All (PointsTo q) l) c i.pointing in
    let other : AllDifferent (p ∷ ps) = subst AllDifferent c i.different in
    record {
      sized = omega (arith, length-set q.connection_queue p.1 invalid, i.sized);
      counted = omega (arith, used-set-invalid q.connection_queue p.1 sd h, i.counted);
      pointing =
          All-other q
            (record q {
              completed_queue = ps;
              connection_queue = set q.connection_queue p.1 invalid;
              cur_len = q.cur_len - 1;
            })
            p.1 invalid ps (other.0) refl refl (point.1);
      different = other.1;
    }

leave-IsQueue :
    (q q' : ListenQueue) (sd : ℕ) → accept q ≡ returns (some (sd, q')) → IsQueue q → IsQueue q'
leave-IsQueue q q' sd e i =
    let (p, ps, c, h, same) = accept-returns q q' sd e in
    subst IsQueue (sym same) (leave_first-IsQueue q p ps sd c h i)

subst_nil :
    (q : ListenQueue)
    → q.completed_queue ≡ []
    → (P : List (ℕ × ℕ) → Type 0) → P []
    → P q.completed_queue
subst_nil q n P h = subst P (sym n) h

resize-IsQueue :
    (q : ListenQueue) (max_len array : ℕ)
    → (q.max_len < max_len → q.completed_queue ≡ [])
    → IsQueue q
    → IsQueue (resize q max_len array)
unfolding resize
resize-IsQueue q max_len array n i = elim (Bool-cases (ltb q.max_len max_len)) [
  | inl t ↦ rw t (record {
    sized = ground (
      arith,
      length-append (take q.max_len q.connection_queue) (replicate (max_len - q.max_len) invalid),
      length-replicate (max_len - q.max_len) invalid,
      length-take q.max_len q.connection_queue,
      i.sized,
    );
    counted = ground (
      arith,
      used-append (take q.max_len q.connection_queue) (replicate (max_len - q.max_len) invalid),
      used-replicate (max_len - q.max_len),
      used-take q.max_len q.connection_queue,
      i.counted,
    );
    pointing =
        subst_nil q (n (ground (arith, t)))
          (λ l.
            All
              (PointsTo (record q {
                array = array;
                connection_queue =
                    take q.max_len q.connection_queue ++ replicate (max_len - q.max_len) invalid;
                max_len = max_len;
              }))
              l)
          tt;
    different = i.different;
  })
  | inr f ↦ rw f (record {
    sized = ground (arith, i.sized, f);
    counted = i.counted;
    pointing = i.pointing;
    different = i.different;
  })
]

Step-IsQueue : (q r : ListenQueue) → Step q r → IsQueue q → IsQueue r
Step-IsQueue q _ (arrive _ q' k sd r e h) i = arrive-IsQueue q q' k sd r e h i
Step-IsQueue q r (establish _ _ k sd f n e) i = establish-IsQueue q r k sd f n e i
Step-IsQueue q r (leave _ _ sd e) i = leave-IsQueue q r sd e i
Step-IsQueue q _ (resized _ max_len array n) i = resize-IsQueue q max_len array n i

-- Every queue that steps reach from one with the invariant has it too.
pub Reach-IsQueue : (q r : ListenQueue) → Reach q r → IsQueue q → IsQueue r
Reach-IsQueue q _ here i = i
Reach-IsQueue q s (next r t) i = Step-IsQueue _ s t (Reach-IsQueue q _ r i)

pub new_queue-IsQueue : (port : ℕ) → IsQueue (new_queue port)
new_queue-IsQueue port = record {
  sized = omega arith;
  counted = omega arith;
  pointing = tt;
  different = tt;
}
