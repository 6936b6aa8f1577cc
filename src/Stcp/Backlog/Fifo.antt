-- ===== src/Stcp/Backlog/Fifo.antt =====
-- The order in which connections are established and accepted.
use computer_networks.Prelude.{
  ℕ, ◌≡◌, refl, ap, sym, subst, ◌∙◌, List, [], ◌∷◌, ◌++◌, Option, none, some, get_elem?, set, take,
  ltb, arith, Bool-cases, inl, inr, ◌<◌, All,
}
use computer_networks.Stcp.World.{ConnectRequest, ListenQueue}
use computer_networks.Stcp.Backlog.{invalid, put_request, resize, new_queue}
use computer_networks.Stcp.Backlog.Slots.{
  Holds, Holds-take, get_elem?-take, find_slot-free, find_sd-Holds, Holds-set_free, Holds-set_other,
}
use computer_networks.Stcp.Backlog.Steps.{
  PointsTo, NotCompleted, AllDifferent, IsQueue, Step, arrive, establish, leave, resized, Reach,
  here, next,
}
use computer_networks.Stcp.Backlog.Inversion.{
  take_slot-returns, complete-returns, accept-returns, resize-completed_queue,
}
use computer_networks.Stcp.Backlog.Invariant.{Reach-IsQueue, new_queue-IsQueue}

-- The descriptor in a slot.
abbrev pub sd_at : List ConnectRequest → ℕ → Option ℕ
sd_at l k = elim (get_elem? l k) [ none ↦ none | some r ↦ r.sd ]

-- The descriptors of the completed connections, in order.
abbrev pub waiting : List ConnectRequest → List (ℕ × ℕ) → List (Option ℕ)
waiting l [] = []
waiting l (p ∷ ps) = sd_at l p.1 ∷ waiting l ps

abbrev pub pending : ListenQueue → List (Option ℕ)
pending q = waiting q.connection_queue q.completed_queue

-- The connections that a step completes, and those that it accepts.
abbrev pub completes : {q r : ListenQueue} → Step q r → List (Option ℕ)
completes (arrive q q' k sd r e h) = []
completes (establish q q' k sd f n e) = some sd ∷ []
completes (leave q q' sd e) = []
completes (resized q max_len array n) = []

abbrev pub accepts : {q r : ListenQueue} → Step q r → List (Option ℕ)
accepts (arrive q q' k sd r e h) = []
accepts (establish q q' k sd f n e) = []
accepts (leave q q' sd e) = some sd ∷ []
accepts (resized q max_len array n) = []

abbrev pub completed : {q r : ListenQueue} → Reach q r → List (Option ℕ)
completed here = []
completed (next t s) = completed t ++ completes s

abbrev pub accepted : {q r : ListenQueue} → Reach q r → List (Option ℕ)
accepted here = []
accepted (next t s) = accepted t ++ accepts s

pub sd_at-Holds : (l : List ConnectRequest) (k sd : ℕ) → Holds l k sd → sd_at l k ≡ some sd
sd_at-Holds l k sd (r, e, h) = rw (e, sd_at) h

waiting-append :
    (l : List ConnectRequest) (ps : List (ℕ × ℕ)) (p : ℕ × ℕ)
    → waiting l (ps ++ p ∷ []) ≡ waiting l ps ++ sd_at l p.1 ∷ []
waiting-append l [] p = refl
waiting-append l (x ∷ ps) p = ap (◌∷◌ (sd_at l x.1)) (waiting-append l ps p)

waiting-set_free :
    (q : ListenQueue) (k : ℕ) (old r : ConnectRequest) (ps : List (ℕ × ℕ))
    → get_elem? q.connection_queue k ≡ some old
    → old.sd ≡ none
    → All (PointsTo q) ps
    → waiting (set q.connection_queue k r) ps ≡ waiting q.connection_queue ps
waiting-set_free q k old r [] e o h = refl
waiting-set_free q k old r (p ∷ ps) e o ((pa, (sd, hp)), h) = cc (
  sd_at-Holds _ p.1 sd hp,
  sd_at-Holds _ p.1 sd (Holds-set_free q.connection_queue k p.1 sd old r e o hp),
  waiting-set_free q k old r ps e o h,
)

waiting-set_other :
    (q : ListenQueue) (k : ℕ) (r : ConnectRequest) (ps : List (ℕ × ℕ))
    → NotCompleted k ps
    → All (PointsTo q) ps
    → waiting (set q.connection_queue k r) ps ≡ waiting q.connection_queue ps
waiting-set_other q k r [] n h = refl
waiting-set_other q k r (p ∷ ps) (np, n) ((pa, (sd, hp)), h) = cc (
  sd_at-Holds _ p.1 sd hp,
  sd_at-Holds _ p.1 sd (Holds-set_other q.connection_queue k p.1 sd r np hp),
  waiting-set_other q k r ps n h,
)

append-nil : (l : List (Option ℕ)) → l ++ [] ≡ l
append-nil [] = refl
append-nil (x ∷ l) = ap (◌∷◌ x) (append-nil l)

append_assoc : (l m n : List (Option ℕ)) → (l ++ m) ++ n ≡ l ++ (m ++ n)
append_assoc [] m n = refl
append_assoc (x ∷ l) m n = ap (◌∷◌ x) (append_assoc l m n)

pub pending-leave :
    (q : ListenQueue) (p : ℕ × ℕ) (ps : List (ℕ × ℕ)) (sd : ℕ)
    → q.completed_queue ≡ p ∷ ps
    → Holds q.connection_queue p.1 sd
    → IsQueue q
    → pending q ≡ some sd ∷ waiting (set q.connection_queue p.1 invalid) ps
pending-leave q p ps sd c h i =
    let point : All (PointsTo q) (p ∷ ps) = subst (λ l. All (PointsTo q) l) c i.pointing in
    let other : AllDifferent (p ∷ ps) = subst AllDifferent c i.different in
    cc (
      ap (waiting q.connection_queue) c,
      sd_at-Holds q.connection_queue p.1 sd h,
      waiting-set_other q p.1 invalid ps (other.0) (point.1),
    )

resize-pending :
    (q : ListenQueue) (max_len array : ℕ)
    → (q.max_len < max_len → q.completed_queue ≡ [])
    → pending q ≡ pending (resize q max_len array)
unfolding resize
resize-pending q max_len array n = elim (Bool-cases (ltb q.max_len max_len)) [
  | inl t ↦
      let none_waits = n (ground (arith, t)) in
      ap (waiting q.connection_queue) none_waits
      ∙ sym (
          ap (waiting (resize q max_len array).connection_queue)
            (resize-completed_queue q max_len array ∙ none_waits))
  | inr f ↦ rw f refl
]

-- What waits after a step is what waited before and is completed, less what is accepted.
Step-pending :
    {q r : ListenQueue} (s : Step q r)
    → IsQueue q
    → pending q ++ completes s ≡ accepts s ++ pending r
Step-pending (arrive q q' k sd r e h) i =
    let t = take_slot-returns q q' k e in
    let (old, at', free) = find_slot-free (take q.max_len q.connection_queue) k t.0 in
    let at = get_elem?-take q.max_len q.connection_queue k at' in
    subst (λ x. pending q ++ [] ≡ pending (put_request x k r)) (sym (t.1))
      (append-nil (pending q)
        ∙ sym (waiting-set_free q k old r q.completed_queue at free i.pointing))
Step-pending (establish q q' k sd f n e) i =
    let holds =
      Holds-take q.max_len q.connection_queue k sd
        (find_sd-Holds (take q.max_len q.connection_queue) sd k f) in
    subst (λ x. pending q ++ some sd ∷ [] ≡ pending x) (sym (complete-returns q q' k sd f e))
      (ap (λ x. pending q ++ x ∷ []) (sym (sd_at-Holds q.connection_queue k sd holds))
        ∙ sym (waiting-append q.connection_queue q.completed_queue (q.array, k)))
Step-pending (leave q q' sd e) i =
    let (p, ps, c, h, same) = accept-returns q q' sd e in
    subst (λ x. pending q ++ [] ≡ some sd ∷ pending x) (sym same)
      (append-nil (pending q) ∙ pending-leave q p ps sd c h i)
Step-pending (resized q max_len array n) i =
    append-nil (pending q) ∙ resize-pending q max_len array n

Reach-pending :
    {q r : ListenQueue} (t : Reach q r)
    → IsQueue q
    → pending q ++ completed t ≡ accepted t ++ pending r
Reach-pending {q} here i = append-nil (pending q)
Reach-pending {q} {r} (next {r = m} t s) i =
    sym (append_assoc (pending q) (completed t) (completes s))
    ∙ ap (λ l. l ++ completes s) (Reach-pending t i)
    ∙ append_assoc (accepted t) (pending m) (completes s)
    ∙ ap (λ l. accepted t ++ l) (Step-pending s (Reach-IsQueue q m t i))
    ∙ sym (append_assoc (accepted t) (accepts s) (pending r))

-- Whatever steps led from a new queue to this one, the connections that were completed are those that were
-- handed to the callers, in the same order, followed by those that wait in the queue. The steps are requests,
-- completions, each of a connection that does not wait already, accepts, and resizes, but none that raises the
-- backlog while completed connections wait; each call is one step.
pub accept-fifo :
    (port : ℕ) (q : ListenQueue) (t : Reach (new_queue port) q)
    → completed t ≡ accepted t ++ pending q
accept-fifo port q t = Reach-pending t (new_queue-IsQueue port)
