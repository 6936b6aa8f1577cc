-- ===== src/Stcp/Transport/Events.antt =====
-- What wakes the transport layer, and the request to close.
use computer_networks.Prelude.{
  ℕ, ◌+◌, ◌≡◌, ◌↔◌, refl, ap, sym, ◌∙◌, Option, none, some, Bool, true, false, if◌then◌else◌, ◌==◌,
  ◌&&◌, not, arith, returns, ◌>>=◌,
}
use computer_networks.Stcp.World.{Context, World, get_context, put_context}
use computer_networks.Stcp.World.Descriptors.{get_context-set}
use computer_networks.Stcp.Queues.Laws.{returns_inj}
use computer_networks.Stcp.Transport.{
  app_data, network_data, app_close_requested, bit, closes, events, wake, wait_for_event,
}

bits :
    (a b c : Bool)
    → (app_data (bit 1 a + bit 2 b + bit 4 c) ≡ a)
      × (network_data (bit 1 a + bit 2 b + bit 4 c) ≡ b)
      × (app_close_requested (bit 1 a + bit 2 b + bit 4 c) ≡ c)
bits true true true = (refl, refl, refl)
bits true true false = (refl, refl, refl)
bits true false true = (refl, refl, refl)
bits true false false = (refl, refl, refl)
bits false true true = (refl, refl, refl)
bits false true false = (refl, refl, refl)
bits false false true = (refl, refl, refl)
bits false false false = (refl, refl, refl)

pub events-bits :
    (ctx : Context) (flags : ℕ)
    → (app_data (events ctx flags) ≡ app_data flags && not (ctx.app_recv_queue.head == 0))
      × (network_data (events ctx flags)
          ≡ network_data flags && not (ctx.network_recv_queue.head == 0))
      × (app_close_requested (events ctx flags) ≡ closes ctx)
unfolding events
events-bits ctx flags =
    bits (app_data flags && not (ctx.app_recv_queue.head == 0))
      (network_data flags && not (ctx.network_recv_queue.head == 0)) (closes ctx)

-- What `wait_for_event` leaves of the context.
abbrev pub served : Context → Context
served ctx = if closes ctx then record ctx { close_requested = false } else ctx

some_of : {A : Type 0} (b : Bool) (a : A) {r : A} → (if b then none else some a) ≡ some r → a ≡ r
some_of true a e = absurd (ground arith)
some_of false a e = ground arith

some_not :
    {A : Type 0} (b : Bool) (a : A) {r : A} → (if b then none else some a) ≡ some r → b ≡ false
some_not true a e = absurd (ground arith)
some_not false a e = refl

get_context-served :
    (b : Bool) (w w' : World) (sd : ℕ) (c c' : Context)
    → get_context w sd ≡ returns c
    → get_context w' sd ≡ returns c'
    → get_context (if b then w' else w) sd ≡ returns (if b then c' else c)
get_context-served true w w' sd c c' e e' = e'
get_context-served false w w' sd c c' e e' = e

wake-some :
    (w : World) (sd flags : ℕ) (ctx : Context) {rc : ℕ} {w' : World}
    → get_context w sd ≡ returns ctx
    → wake w sd ctx flags ≡ some (rc, w')
    → (rc ≡ events ctx flags)
      × (get_context w' sd ≡ returns (served ctx))
      × ((events ctx flags == 0) ≡ false)
unfolding wake
wake-some w sd flags ctx g e =
    let out = some_of (events ctx flags == 0) _ e in
    let closed = record ctx { close_requested = false } in
    (
      sym (ap (λ o. o.0) out),
      ap (λ o. get_context (o.1) sd) (sym out)
          ∙ get_context-served (closes ctx) w (put_context w sd closed) sd ctx closed g
              (get_context-set w _ sd ctx closed g refl refl),
      some_not (events ctx flags == 0) _ e,
    )

wake-none :
    (w : World) (sd flags : ℕ) (ctx : Context) → wake w sd ctx flags ≡ none → events ctx flags ≡ 0
unfolding wake
wake-none w sd flags ctx e = ground arith

wait-wake :
    (w : World) (sd flags : ℕ) (ctx : Context) (r : Option (ℕ × World))
    → get_context w sd ≡ returns ctx
    → wait_for_event w sd flags ≡ returns r
    → wake w sd ctx flags ≡ r
unfolding wait_for_event
wait-wake w sd flags ctx r g e =
    returns_inj (sym (ap (λ o. o >>= λ c. returns (wake w sd c flags)) g) ∙ e)

-- The bits that a round returns; a wait, or a timeout, has none.
abbrev pub reported : Option (ℕ × World) → ℕ
reported none = 0
reported (some out) = out.0

-- The transport layer is woken exactly by what it waits for and is there: data of the application,
-- packets of the network, and, whatever it waits for, a request to close when no data of the application is left.
pub wait_for_event_lem :
    (w : World) (sd flags : ℕ) (ctx : Context) (r : Option (ℕ × World))
    → get_context w sd ≡ returns ctx
    → wait_for_event w sd flags ≡ returns r
    → let rc = reported r in
      (app_data rc ≡ app_data flags && not (ctx.app_recv_queue.head == 0))
      × (network_data rc ≡ network_data flags && not (ctx.network_recv_queue.head == 0))
      × (app_close_requested rc ≡ ctx.close_requested && ctx.app_recv_queue.head == 0)
      × ((r ≡ none) ↔ (rc ≡ 0))
wait_for_event_lem w sd flags ctx none g e =
    let z = wake-none w sd flags ctx (wait-wake w sd flags ctx none g e) in
    let b = events-bits ctx flags in
    (
      ap app_data (sym z) ∙ b.0,
      ap network_data (sym z) ∙ b.1,
      ap app_close_requested (sym z) ∙ b.2,
      ((λ _. refl), (λ _. refl)),
    )
wait_for_event_lem w sd flags ctx (some (rc, w')) g e =
    let z = wake-some w sd flags ctx g (wait-wake w sd flags ctx _ g e) in
    let b = events-bits ctx flags in
    (
      ap app_data (z.0) ∙ b.0,
      ap network_data (z.0) ∙ b.1,
      ap app_close_requested (z.0) ∙ b.2,
      ((λ e. absurd (ground arith)), (λ e. absurd (ground (arith, z.0, z.2)))),
    )

served_closed :
    (ctx : Context) → closes ctx ≡ true → served ctx ≡ record ctx { close_requested = false }
served_closed ctx t = ap (λ b. if b then record ctx { close_requested = false } else ctx) t

-- A request to close is reported only when the transport layer has taken all data of the application, and
-- is not reported again by the next call.
pub wait-close_once :
    (w w' : World) (sd flags rc flags' : ℕ) (ctx : Context) (r : Option (ℕ × World))
    → get_context w sd ≡ returns ctx
    → wait_for_event w sd flags ≡ returns (some (rc, w'))
    → app_close_requested rc ≡ true
    → wait_for_event w' sd flags' ≡ returns r
    → (ctx.app_recv_queue.head ≡ 0) × (app_close_requested (reported r) ≡ false)
wait-close_once w w' sd flags rc flags' ctx r g e c e' =
    let z = wake-some w sd flags ctx g (wait-wake w sd flags ctx _ g e) in
    let first = wait_for_event_lem w sd flags ctx _ g e in
    let again = wait_for_event_lem w' sd flags' (served ctx) r (z.1) e' in
    let t : closes ctx ≡ true = sym (first.2) ∙ c in
    (ground (arith, t), again.2 ∙ ap closes (served_closed ctx t))
