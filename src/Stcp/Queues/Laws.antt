-- ===== src/Stcp/Queues/Laws.antt =====
-- What a call on a queue of a mysocket leaves of its context.
use computer_networks.Prelude.{
  ℕ, ◌≡◌, refl, ap, sym, ◌∙◌, Option, Bool, arith, returns, >>=-eq-returns, Bytes,
}
use computer_networks.Stcp.PacketQueue.{
  State, Dequeued, waits, copied, enqueue_buffer, dequeue_buffer,
}
use computer_networks.Stcp.World.{Context, World, get_context}
use computer_networks.Stcp.World.Descriptors.{get_context-set}
use computer_networks.Stcp.Queues.{
  Which, network_recv, app_recv, app_send, queue_of, set_queue, put_state, read_of, enqueue,
  dequeue,
}

-- The heap and a queue of a mysocket.
abbrev pub state_of : World → Context → Which → State
state_of w ctx which = (w.heap, queue_of which ctx)

pub returns_inj {ℓ} : {A : Type ℓ} {a b : A} → returns a ≡ returns b → a ≡ b
returns_inj e = ground arith

pub get_context-put_state :
    (w : World) (sd : ℕ) (ctx : Context) (which : Which) (s : State)
    → get_context w sd ≡ returns ctx
    → get_context (put_state w sd ctx which s) sd ≡ returns (set_queue which s.1 ctx)
get_context-put_state w sd ctx network_recv s g = get_context-set w _ sd ctx _ g refl refl
get_context-put_state w sd ctx app_recv s g = get_context-set w _ sd ctx _ g refl refl
get_context-put_state w sd ctx app_send s g = get_context-set w _ sd ctx _ g refl refl

pub enqueue_lem :
    (w : World) (sd : ℕ) (ctx : Context) (which : Which) (p : ℕ) (packet : Bytes) (s : State)
    → get_context w sd ≡ returns ctx
    → enqueue_buffer (state_of w ctx which) p packet ≡ returns s
    → enqueue w sd which p packet ≡ returns (put_state w sd ctx which s)
unfolding enqueue
enqueue_lem w sd ctx which p packet s g e = rw (g, enqueue) (rw e refl)

pub dequeue_lem :
    (w : World) (sd : ℕ) (ctx : Context) (which : Which) (max_len : ℕ) (partial : Bool)
    (d : Dequeued)
    → get_context w sd ≡ returns ctx
    → dequeue_buffer (state_of w ctx which) max_len partial ≡ returns d
    → dequeue w sd which max_len partial ≡ returns (read_of w sd ctx which d)
unfolding dequeue
dequeue_lem w sd ctx which max_len partial waits g e = rw (g, dequeue) (rw e refl)
dequeue_lem w sd ctx which max_len partial (copied n bytes s) g e = rw (g, dequeue) (rw e refl)

pub dequeue-returns :
    (w : World) (sd : ℕ) (ctx : Context) (which : Which) (max_len : ℕ) (partial : Bool)
    {r : Option (ℕ × Bytes × World)}
    → get_context w sd ≡ returns ctx
    → dequeue w sd which max_len partial ≡ returns r
    → (d : Dequeued) × (dequeue_buffer (state_of w ctx which) max_len partial ≡ returns d)
      × (r ≡ read_of w sd ctx which d)
unfolding dequeue
dequeue-returns w sd ctx which max_len partial g e =
    let a = >>=-eq-returns (get_context w sd) _ e in
    let same : a.0 ≡ ctx = ground (arith, a.1, g) in
    let b = >>=-eq-returns (dequeue_buffer (state_of w (a.0) which) max_len partial) _ (a.2) in
    (
      b.0,
      ap (λ c. dequeue_buffer (state_of w c which) max_len partial) (sym same) ∙ b.1,
      sym (returns_inj (b.2)) ∙ ap (λ c. read_of w sd c which (b.0)) same,
    )
