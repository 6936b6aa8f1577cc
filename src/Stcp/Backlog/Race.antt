-- ===== src/Stcp/Backlog/Race.antt =====
-- `_mysock_enqueue_connection` and `_mysock_dequeue_connection`, one access to the listen queue at a time: both
-- hold `listen_lock` only for reading, and only the second one `connection_lock`.
use computer_networks.Prelude.{
  ℕ, ◌+◌, ◌-◌, ◌<◌, ◌≡◌, refl, ap, sym, ◌∙◌, List, [], ◌∷◌, Option, none, some, true, false,
  if◌then◌else◌, ◌==◌, ==_of_ne, ltb, arith, take, get_elem?, set, inl, inr, Bool-cases,
  Option-cases, Outcome, returns, assert_fails, undefined, diverges, assert, ◌>>=◌, ◌>>◌,
}
use computer_networks.Stcp.World.{ConnectRequest, ListenQueue}
use computer_networks.Stcp.Backlog.{
  invalid, find_slot, take_slot, put_request, get_request, get_sd, accept_from, accept,
}
use computer_networks.Stcp.Backlog.Slots.{
  used, Holds, Holds-lt, get_elem?-take, get_elem?-set, find_slot-free, used-set_request,
  used-set-invalid,
}

-- Where the thread that queues a request stands, with `queue_entry` and the value of `cur_len` it has read.
data Enqueue : Type 0 where
  arrived : Enqueue
  dropped : Enqueue
  found : ℕ → Enqueue
  loaded : ℕ → ℕ → Enqueue
  counted : ℕ → Enqueue
  queued : ℕ → Enqueue

-- Where the caller of `myaccept` stands, with the request and the descriptor.
data Dequeue : Type 0 where
  waiting : Dequeue
  taken : ℕ × ℕ → ℕ → Dequeue
  emptied : ℕ → Dequeue
  read : ℕ → ℕ → Dequeue
  accepted : ℕ → Dequeue

enqueue_step : ConnectRequest → ListenQueue → Enqueue → Outcome (ListenQueue × Enqueue)
enqueue_step r q arrived =
    if ltb q.cur_len q.max_len
    then elim (find_slot (take q.max_len q.connection_queue)) [
      | none ↦ assert_fails
      | some k ↦ returns (q, found k)
    ]
    else returns (q, dropped)
enqueue_step r q dropped = returns (q, dropped)
enqueue_step r q (found k) = returns (q, loaded k q.cur_len)
enqueue_step r q (loaded k n) = returns (record q { cur_len = n + 1 }, counted k)
enqueue_step r q (counted k) = returns (put_request q k r, queued k)
enqueue_step r q (queued k) = returns (q, queued k)

-- The first connection leaves the queue; the caller has its slot and descriptor.
abbrev leaves_first : ListenQueue → ℕ × ℕ → List (ℕ × ℕ) → ℕ → Outcome (ListenQueue × Dequeue)
leaves_first q request next sd = returns (record q { completed_queue = next }, taken request sd)

abbrev take_first : ListenQueue → List (ℕ × ℕ) → Outcome (ListenQueue × Dequeue)
take_first q [] = returns (q, waiting)
take_first q (request ∷ next) =
    get_request q request >>= λ r. get_sd r >>= leaves_first q request next

dequeue_step : ListenQueue → Dequeue → Outcome (ListenQueue × Dequeue)
dequeue_step q waiting = take_first q q.completed_queue
dequeue_step q (taken request sd) =
    returns (record q { connection_queue = set q.connection_queue request.1 invalid }, emptied sd)
dequeue_step q (emptied sd) = assert (ltb 0 q.cur_len) >> returns (q, read sd q.cur_len)
dequeue_step q (read sd n) = returns (record q { cur_len = n - 1 }, accepted sd)
dequeue_step q (accepted sd) = returns (q, accepted sd)

data Turn : Type 0 where
  enqueues : Turn
  dequeues : Turn

-- The accesses in the order of the turns.
run :
    ConnectRequest
    → List Turn
    → ListenQueue
    → Enqueue
    → Dequeue
    → Outcome (ListenQueue × Enqueue × Dequeue)
unfolding enqueue_step dequeue_step
run r [] q e d = returns (q, e, d)
run r (enqueues ∷ turns) q e d = enqueue_step r q e >>= λ s. run r turns s.0 s.1 d
run r (dequeues ∷ turns) q e d = dequeue_step q d >>= λ s. run r turns s.0 e s.1

abbrev after_slot :
    ConnectRequest
    → ListenQueue
    → Dequeue
    → Option (ℕ × ListenQueue)
    → Outcome (ListenQueue × Enqueue × Dequeue)
after_slot r q d none = returns (q, dropped, d)
after_slot r q d (some (k, q')) = returns (put_request q' k r, queued k, d)

-- Without the other thread in between, the accesses come to `take_slot` and the request in the slot.
enqueue_alone :
    (r : ConnectRequest) (q : ListenQueue) (d : Dequeue)
    → run r (enqueues ∷ enqueues ∷ enqueues ∷ enqueues ∷ []) q arrived d
      ≡ (take_slot q >>= after_slot r q d)
unfolding run enqueue_step take_slot
enqueue_alone r q d = elim (Bool-cases (ltb q.cur_len q.max_len)) [
  | inl t ↦ elim (Option-cases (find_slot (take q.max_len q.connection_queue))) [
    | inl n ↦ rw (t, n, run) refl
    | inr (k, f) ↦ rw (t, f, run) refl
  ]
  | inr f ↦ rw (f, run) refl
]

-- The turns of both, in which each reads `cur_len` before the other has written it.
abbrev mixed : List Turn
mixed = enqueues ∷ enqueues ∷ dequeues ∷ dequeues ∷ dequeues ∷ enqueues ∷ dequeues ∷ enqueues ∷ []

abbrev after_accept :
    ListenQueue → Enqueue → Option (ℕ × ListenQueue) → Outcome (ListenQueue × Enqueue × Dequeue)
after_accept q e none = returns (q, e, waiting)
after_accept q e (some (sd, q')) = returns (q', e, accepted sd)

abbrev three : List Turn
three = dequeues ∷ dequeues ∷ dequeues ∷ []

abbrev left_over : ListenQueue → ℕ × ℕ → List (ℕ × ℕ) → ListenQueue
left_over q p ps = record q {
  completed_queue = ps;
  connection_queue = set q.connection_queue p.1 invalid;
  cur_len = q.cur_len - 1;
}

alone_sd :
    (r : ConnectRequest) (q : ListenQueue) (e : Enqueue) (p : ℕ × ℕ) (ps : List (ℕ × ℕ))
    (o : Outcome ℕ)
    → ((o >>= leaves_first q p ps) >>= λ s. run r three s.0 e s.1) ≡ (
        (o >>= λ sd. assert (ltb 0 q.cur_len) >> returns (some (sd, left_over q p ps)))
        >>= after_accept q e)
unfolding run dequeue_step
alone_sd r q e p ps assert_fails = refl
alone_sd r q e p ps undefined = refl
alone_sd r q e p ps diverges = refl
alone_sd r q e p ps (returns sd) = elim (Bool-cases (ltb 0 q.cur_len)) [
  | inl t ↦ rw (t, run) refl
  | inr f ↦ rw (f, run) refl
]

alone_request :
    (r : ConnectRequest) (q : ListenQueue) (e : Enqueue) (p : ℕ × ℕ) (ps : List (ℕ × ℕ))
    (o : Outcome ConnectRequest)
    → ((o >>= λ x. get_sd x >>= leaves_first q p ps) >>= λ s. run r three s.0 e s.1) ≡ (
        (o >>= λ x.
        get_sd x >>= λ sd. assert (ltb 0 q.cur_len) >> returns (some (sd, left_over q p ps)))
        >>= after_accept q e)
alone_request r q e p ps assert_fails = refl
alone_request r q e p ps undefined = refl
alone_request r q e p ps diverges = refl
alone_request r q e p ps (returns x) = alone_sd r q e p ps (get_sd x)

-- Without the other thread in between, the accesses come to `accept`.
dequeue_alone :
    (r : ConnectRequest) (q : ListenQueue) (e : Enqueue) (p : ℕ × ℕ) (ps : List (ℕ × ℕ))
    → q.completed_queue ≡ p ∷ ps
    → run r (dequeues ∷ three) q e waiting ≡ (accept q >>= after_accept q e)
unfolding run dequeue_step accept accept_from
dequeue_alone r q e p ps c =
    ap (λ l. take_first q l >>= λ s. run r three s.0 e s.1) c
    ∙ alone_request r q e p ps (get_request q p)
    ∙ sym (ap (λ l. accept_from q l >>= after_accept q e) c)

take_first_lem :
    (q : ListenQueue) (p : ℕ × ℕ) (ps : List (ℕ × ℕ)) (sd : ℕ)
    → p.0 ≡ q.array
    → Holds q.connection_queue p.1 sd
    → take_first q (p ∷ ps) ≡ returns (record q { completed_queue = ps }, taken p sd)
unfolding get_request get_sd
take_first_lem q p ps sd a (r, at, has) =
    let same : (p.0 == q.array) ≡ true = ground (arith, a) in
    rw (same, get_request) (rw at (rw has refl))

free_is_other :
    (l : List ConnectRequest) (j k sd : ℕ) (free : ConnectRequest)
    → Holds l j sd
    → get_elem? l k ≡ some free
    → free.sd ≡ none
    → (j == k) ≡ false
free_is_other l j k sd free (r, at, has) there f = ==_of_ne j k λ e. cc (e, at, has, there, f)

-- A request arrives while a completed connection is accepted: in one order of the accesses both calls
-- succeed, and one more slot is in use than requests are counted, though the count was right before.
run-mixed :
    (r : ConnectRequest) (q : ListenQueue) (p : ℕ × ℕ) (ps : List (ℕ × ℕ)) (k sd new_sd : ℕ)
    → q.cur_len ≡ used q.connection_queue
    → q.cur_len < q.max_len
    → find_slot (take q.max_len q.connection_queue) ≡ some k
    → q.completed_queue ≡ p ∷ ps
    → p.0 ≡ q.array
    → Holds q.connection_queue p.1 sd
    → r.sd ≡ some new_sd
    → (q' : ListenQueue) × (run r mixed q arrived waiting ≡ returns (q', queued k, accepted sd))
      × (q'.cur_len + 1 ≡ used q'.connection_queue)
unfolding run enqueue_step dequeue_step get_request get_sd
run-mixed r q p ps k sd new_sd n l f c a (old, at, has) h =
    let t : ltb q.cur_len q.max_len ≡ true = ground arith in
    let more = used-set-invalid q.connection_queue p.1 sd (old, at, has) in
    let positive : ltb 0 q.cur_len ≡ true = ground (arith, more, n) in
    let (free, slot, is_free) = find_slot-free (take q.max_len q.connection_queue) k f in
    let there = get_elem?-take q.max_len q.connection_queue k slot in
    let other : (p.1 == k) ≡ false =
      free_is_other q.connection_queue p.1 k sd free (old, at, has) there is_free in
    let still : get_elem? (set q.connection_queue p.1 invalid) k ≡ some free =
      get_elem?-set q.connection_queue p.1 k invalid
        (Holds-lt q.connection_queue p.1 sd (old, at, has))
      ∙ rw other there in
    let again =
      used-set_request (set q.connection_queue p.1 invalid) k free r new_sd still is_free h in
    (
      record q {
        completed_queue = ps;
        connection_queue = set (set q.connection_queue p.1 invalid) k r;
        cur_len = q.cur_len - 1;
      },
      rw (t, f, run)
          (ap
              (λ o. o >>= λ s.
                run r (dequeues ∷ dequeues ∷ enqueues ∷ dequeues ∷ enqueues ∷ []) s.0
                  (loaded k q.cur_len) s.1)
              (ap (take_first q) c ∙ take_first_lem q p ps sd a (old, at, has))
            ∙ rw positive refl),
      omega (arith, again.1, more, n),
    )
