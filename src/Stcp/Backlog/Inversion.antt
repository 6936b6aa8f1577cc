-- ===== src/Stcp/Backlog/Inversion.antt =====
-- What a successful operation on a listen queue says of the queue before and after it.
use computer_networks.Prelude.{
  ℕ, ◌+◌, ◌-◌, ◌<◌, ◌≡◌, ◌≢◌, inl, inr, refl, ap, ◌∙◌, List, [], ◌∷◌, ◌++◌, some, true, ◌==◌,
  ==_of_ne, ltb, arith, take, get_elem?, set, Option-cases, Bool-cases, returns, undefined, assert,
  >>=-eq-returns,
}
use computer_networks.Stcp.World.{ConnectRequest, ListenQueue}
use computer_networks.Stcp.Backlog.{
  invalid, find_slot, take_slot, find_sd, complete, get_request, get_sd, accept_from, accept,
  resize,
}
use computer_networks.Stcp.Backlog.Slots.{Holds}

pub take_slot-returns :
    (q q' : ListenQueue) (k : ℕ)
    → take_slot q ≡ returns (some (k, q'))
    → (find_slot (take q.max_len q.connection_queue) ≡ some k)
      × (q' ≡ record q { cur_len = q.cur_len + 1 })
unfolding take_slot
take_slot-returns q q' k e = ground arith

pub complete-returns :
    (q q' : ListenQueue) (k sd : ℕ)
    → find_sd (take q.max_len q.connection_queue) sd ≡ some k
    → complete q sd ≡ returns q'
    → q' ≡ record q { completed_queue = q.completed_queue ++ (q.array, k) ∷ [] }
unfolding complete
complete-returns q q' k sd e h = ground arith

pub get_request-returns :
    (q : ListenQueue) (p : ℕ × ℕ) (r : ConnectRequest)
    → get_request q p ≡ returns r
    → (p.0 ≡ q.array) × (get_elem? q.connection_queue p.1 ≡ some r)
unfolding get_request
get_request-returns q p r e = elim (Bool-cases (p.0 == q.array)) [
  | inl t ↦ elim (Option-cases (get_elem? q.connection_queue p.1)) [
    | inl n ↦ ground arith
    | inr (x, s) ↦ ground arith
  ]
  | inr n ↦ ground arith
]

pub get_sd-returns : (r : ConnectRequest) (sd : ℕ) → get_sd r ≡ returns sd → r.sd ≡ some sd
unfolding get_sd
get_sd-returns r sd e = elim (Option-cases r.sd) [
  | inl n ↦ ground arith
  | inr (x, s) ↦ ground arith
]

accept_from-returns :
    (q q' : ListenQueue) (l : List (ℕ × ℕ)) (sd : ℕ)
    → accept_from q l ≡ returns (some (sd, q'))
    → (p : ℕ × ℕ) × (ps : List (ℕ × ℕ)) × (l ≡ p ∷ ps)
      × Holds q.connection_queue p.1 sd
      × (q' ≡ record q {
        completed_queue = ps;
        connection_queue = set q.connection_queue p.1 invalid;
        cur_len = q.cur_len - 1;
      })
unfolding accept_from
accept_from-returns q q' [] sd e = ground arith
accept_from-returns q q' (p ∷ ps) sd e =
    let a = >>=-eq-returns (get_request q p) _ e in
    let b = >>=-eq-returns (get_sd (a.0)) _ (a.2) in
    let c = >>=-eq-returns (assert (ltb 0 q.cur_len)) _ (b.2) in
    let same : (b.0 ≡ sd) = ground arith in
    (
      p,
      ps,
      refl,
      (
        a.0,
        (get_request-returns q p (a.0) (a.1)).1,
        get_sd-returns (a.0) (b.0) (b.1) ∙ ap some same,
      ),
      ground arith,
    )

pub accept-returns :
    (q q' : ListenQueue) (sd : ℕ)
    → accept q ≡ returns (some (sd, q'))
    → (p : ℕ × ℕ) × (ps : List (ℕ × ℕ)) × (q.completed_queue ≡ p ∷ ps)
      × Holds q.connection_queue p.1 sd
      × (q' ≡ record q {
        completed_queue = ps;
        connection_queue = set q.connection_queue p.1 invalid;
        cur_len = q.cur_len - 1;
      })
unfolding accept
accept-returns q q' sd e = accept_from-returns q q' q.completed_queue sd e

pub resize-completed_queue :
    (q : ListenQueue) (max_len array : ℕ)
    → (resize q max_len array).completed_queue ≡ q.completed_queue
unfolding resize
resize-completed_queue q max_len array = elim (Bool-cases (ltb q.max_len max_len)) [
  | inl t ↦ rw t refl
  | inr f ↦ rw f refl
]

get_request-moved : (q : ListenQueue) (p : ℕ × ℕ) → p.0 ≢ q.array → get_request q p ≡ undefined
unfolding get_request
get_request-moved q p n = let f = ==_of_ne p.0 q.array n in rw (f, get_request) refl

get_request_lem :
    (q : ListenQueue) (p : ℕ × ℕ) (r : ConnectRequest)
    → p.0 ≡ q.array
    → get_elem? q.connection_queue p.1 ≡ some r
    → get_request q p ≡ returns r
unfolding get_request
get_request_lem q p r a e =
    let f : (p.0 == q.array) ≡ true = ground arith in rw (f, e, get_request) refl

get_sd_lem : (r : ConnectRequest) (sd : ℕ) → r.sd ≡ some sd → get_sd r ≡ returns sd
unfolding get_sd
get_sd_lem r sd e = rw e refl

pub accept_from_lem :
    (q : ListenQueue) (p : ℕ × ℕ) (ps : List (ℕ × ℕ)) (r : ConnectRequest) (sd : ℕ)
    → p.0 ≡ q.array
    → get_elem? q.connection_queue p.1 ≡ some r
    → r.sd ≡ some sd
    → 0 < q.cur_len
    → accept_from q (p ∷ ps)
      ≡ returns (
          some (
            sd,
            record q {
              completed_queue = ps;
              connection_queue = set q.connection_queue p.1 invalid;
              cur_len = q.cur_len - 1;
            },
          ))
unfolding accept_from
accept_from_lem q p ps r sd a e h l =
    let t : ltb 0 q.cur_len ≡ true = ground arith in
    rw (get_request_lem q p r a e, get_sd_lem r sd h, t, accept_from) refl

pub accept_from-moved :
    (q : ListenQueue) (p : ℕ × ℕ) (ps : List (ℕ × ℕ))
    → p.0 ≢ q.array
    → accept_from q (p ∷ ps) ≡ undefined
unfolding accept_from
accept_from-moved q p ps n = rw (get_request-moved q p n, accept_from) refl
