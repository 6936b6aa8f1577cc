-- ===== src/Stcp/Backlog/Steps.antt =====
-- The life of a listen queue as a relation of steps, and the invariant of its states.
use computer_networks.Prelude.{
  ℕ, ◌<◌, ◌≤◌, ◌≡◌, ◌≢◌, List, [], ◌∷◌, some, take, length, All, returns,
}
use computer_networks.Stcp.World.{ConnectRequest, ListenQueue}
use computer_networks.Stcp.Backlog.{take_slot, put_request, find_sd, complete, accept, resize}
use computer_networks.Stcp.Backlog.Slots.{used, Holds}

-- A completed connection points to a slot that is in use.
abbrev pub PointsTo : ListenQueue → ℕ × ℕ → Type 0
PointsTo q p = (p.0 ≡ q.array) × ((sd : ℕ) × Holds q.connection_queue p.1 sd)

abbrev pub NotCompleted : ℕ → List (ℕ × ℕ) → Type 0
NotCompleted k ps = All (λ p. p.1 ≢ k) ps

abbrev pub AllDifferent : List (ℕ × ℕ) → Type 0
AllDifferent [] = Unit
AllDifferent (p ∷ ps) = NotCompleted p.1 ps × AllDifferent ps

-- There are at least as many slots as the backlog allows, no more of them in use than requests are counted,
-- and the completed connections point to different ones of these.
pub record IsQueue (q : ListenQueue) : Type 0 where
  pub sized : q.max_len ≤ length q.connection_queue
  pub counted : used q.connection_queue ≤ q.cur_len
  pub pointing : All (PointsTo q) q.completed_queue
  pub different : AllDifferent q.completed_queue

-- What happens to a queue: a request gets a slot; its connection is established, once; it is accepted;
-- the backlog is set, to more than it was only while no connection waits to be accepted.
pub data Step : ListenQueue → ListenQueue → Type 0 where
  arrive :
      (q q' : ListenQueue) (k sd : ℕ) (r : ConnectRequest)
      → take_slot q ≡ returns (some (k, q'))
      → r.sd ≡ some sd
      → Step q (put_request q' k r)
  establish :
      (q q' : ListenQueue) (k sd : ℕ)
      → find_sd (take q.max_len q.connection_queue) sd ≡ some k
      → NotCompleted k q.completed_queue
      → complete q sd ≡ returns q'
      → Step q q'
  leave : (q q' : ListenQueue) (sd : ℕ) → accept q ≡ returns (some (sd, q')) → Step q q'
  resized :
      (q : ListenQueue) (max_len array : ℕ)
      → (q.max_len < max_len → q.completed_queue ≡ [])
      → Step q (resize q max_len array)

pub data Reach (q : ListenQueue) : ListenQueue → Type 0 where
  here : Reach q q
  next : {r s : ListenQueue} → Reach q r → Step r s → Reach q s
