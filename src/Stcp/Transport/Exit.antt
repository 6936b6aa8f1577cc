-- ===== src/Stcp/Transport/Exit.antt =====
-- The end of a transport thread, and the application that waits for its connection.
use computer_networks.Prelude.{
  ℕ, ◌≡◌, ◌≢◌, refl, ap, ◌∙◌, [], true, false, if◌then◌else◌, ◌==◌, ◌||◌, arith, returns, ◌>>=◌,
}
use computer_networks.Stcp.PacketQueue.Segment.{Nodes, NotIn, Holds}
use computer_networks.Stcp.PacketQueue.Enqueue.{enqueue_buffer-Holds}
use computer_networks.Stcp.World.{Context, World, get_context, put_context}
use computer_networks.Stcp.World.Descriptors.{get_context-set, get_context-same}
use computer_networks.Stcp.Queues.{app_send, set_queue, put_state, enqueue}
use computer_networks.Stcp.Queues.Laws.{state_of, get_context-put_state, enqueue_lem}
use computer_networks.Stcp.Calls.{failed, wait_for_connection}
use computer_networks.Stcp.Transport.{eintr, econnrefused, unblock_application, transport_exit}

unblock_application_lem :
    (w : World) (sd : ℕ) (ctx : Context)
    → get_context w sd ≡ returns ctx
    → ctx.is_active ≡ true
    → ctx.blocking ≡ true
    → w.errno ≢ eintr
    → unblock_application w sd
      ≡ returns (put_context w sd (record ctx { blocking = false; stcp_errno = w.errno }))
unfolding unblock_application
unblock_application_lem w sd ctx g a b n =
    let f : (w.errno == eintr) ≡ false = ground arith in
    rw (g, unblock_application) (rw (a, b, f) refl)

-- The error that is announced.
abbrev pub announced : ℕ → ℕ
announced errno = if errno == 0 || errno == eintr then econnrefused else errno

announced_lem : (e : ℕ) → (announced e ≢ 0) × (announced e ≢ eintr)
announced_lem e = (ground arith, ground arith)

transport_exit_lem :
    (w : World) (sd p : ℕ) (ctx : Context) (w' w'' : World)
    → get_context w sd ≡ returns ctx
    → ctx.is_active ≡ true
    → ctx.blocking ≡ true
    → unblock_application (record w { errno = announced w.errno }) sd ≡ returns w'
    → enqueue w' sd app_send p [] ≡ returns w''
    → transport_exit w sd p ≡ returns w''
unfolding transport_exit
transport_exit_lem w sd p ctx w' w'' g a b u e =
    rw (g, transport_exit) (rw (a, b) (ap (λ o. o >>= λ x. enqueue x sd app_send p []) u ∙ e))

wait_failed :
    (w : World) (sd : ℕ) (ctx : Context)
    → get_context w sd ≡ returns ctx
    → ctx.blocking ≡ false
    → ctx.stcp_errno ≢ 0
    → wait_for_connection w sd ≡ returns (failed (record w { errno = ctx.stcp_errno }))
unfolding wait_for_connection
wait_failed w sd ctx g b n =
    let f : (ctx.stcp_errno == 0) ≡ false = ground arith in
    rw (g, wait_for_connection) (rw (b, f) refl)

-- If the transport layer gives up before it has announced the connection that `myconnect` waits for, then
-- the wait ends, `myconnect` returns -1, and `errno` is the error of the transport layer, or
-- ECONNREFUSED where it left none.
pub exit-wait_for_connection :
    (w : World) (sd p : ℕ) (ctx : Context) (ns : Nodes)
    → get_context w sd ≡ returns ctx
    → ctx.is_active ≡ true
    → ctx.blocking ≡ true
    → Holds (state_of w ctx app_send) ns
    → p ≢ 0
    → NotIn p ns
    → (w' : World) × (w'' : World) × (transport_exit w sd p ≡ returns w')
      × (wait_for_connection w' sd ≡ returns (failed w''))
      × (w''.errno ≡ announced w.errno)
      × (w''.errno ≢ 0)
exit-wait_for_connection w sd p ctx ns g a b v nz n =
    let rc = announced w.errno in
    let w1 = record w { errno = rc } in
    let ctx1 = record ctx { blocking = false; stcp_errno = rc } in
    let w2 = put_context w1 sd ctx1 in
    let g1 = get_context-same w w1 sd refl ∙ g in
    let u = unblock_application_lem w1 sd ctx g1 a b ((announced_lem w.errno).1) in
    let g2 = get_context-set w1 w2 sd ctx ctx1 g1 refl refl in
    let (s, e, v') = enqueue_buffer-Holds (state_of w ctx app_send) ns p [] v nz n in
    let w' = put_state w2 sd ctx1 app_send s in
    let g' = get_context-put_state w2 sd ctx1 app_send s g2 in
    (
      w',
      record w' { errno = rc },
      transport_exit_lem w sd p ctx w2 w' g a b u (enqueue_lem w2 sd ctx1 app_send p [] s g2 e),
      wait_failed w' sd (set_queue app_send s.1 ctx1) g' refl ((announced_lem w.errno).0),
      refl,
      (announced_lem w.errno).0,
    )
