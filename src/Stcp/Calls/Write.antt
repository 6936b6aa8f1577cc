-- ===== src/Stcp/Calls/Write.antt =====
-- From `mywrite` to the transport layer.
use computer_networks.Prelude.{
  ℕ, ◌+◌, ◌%◌, ◌^◌, ◌≤◌, ◌≡◌, ◌≢◌, refl, ◌∙◌, [], ◌∷◌, ◌++◌, some, true, false, All, length,
  returns, Bytes,
}
use computer_networks.Stcp.PacketQueue.{State, copied, dequeue_buffer}
use computer_networks.Stcp.PacketQueue.Segment.{Nodes, NotIn, Holds}
use computer_networks.Stcp.PacketQueue.Enqueue.{enqueue_buffer-Holds}
use computer_networks.Stcp.PacketQueue.Stream.{stream, stream-append, dequeue-stream}
use computer_networks.Stcp.World.{Context, World, get_context}
use computer_networks.Stcp.Queues.{app_recv, set_queue, put_state, enqueue}
use computer_networks.Stcp.Queues.Laws.{state_of, get_context-put_state, enqueue_lem, dequeue_lem}
use computer_networks.Stcp.Calls.{done, mywrite}
use computer_networks.Stcp.Transport.{receive_from_app}

mywrite_lem :
    (w : World) (sd p : ℕ) (buf : Bytes) (ctx : Context) (w' : World)
    → get_context w sd ≡ returns ctx
    → ctx.listening ≡ false
    → ctx.close_requested ≡ false
    → enqueue w sd app_recv p buf ≡ returns w'
    → mywrite w sd p buf ≡ returns (done (length buf % 2 ^ 32) w')
unfolding mywrite
mywrite_lem w sd p buf ctx w' g l c e = rw (g, mywrite) (rw (l, c) (rw e refl))

-- The packets and the new one are at most twice as long as the buffer.
abbrev pub Short : ℕ → Nodes → Type 0
Short max_len ns = All (λ n. length n.1 ≤ max_len + max_len) ns

first_stream :
    (s : State) (ns : Nodes) (p : ℕ) (buf : Bytes) (max_len : ℕ)
    → Short max_len ns
    → length buf ≤ max_len + max_len
    → Holds s (ns ++ (p, buf) ∷ [])
    → (n : ℕ) × (out : Bytes) × (s' : State) × (ns' : Nodes) × (dequeue_buffer s max_len true
        ≡ returns (copied n out s'))
      × Holds s' ns'
      × (n ≡ length out)
      × (n ≤ max_len)
      × (out ++ stream ns' ≡ stream (ns ++ (p, buf) ∷ []))
first_stream s [] p buf max_len h b v = dequeue-stream s p buf [] max_len v b
first_stream s ((q, d) ∷ rest) p buf max_len h b v =
    dequeue-stream s q d (rest ++ (p, buf) ∷ []) max_len v (h.0)

-- What the application writes joins the bytes that the transport layer has still to take, behind them,
-- `mywrite` returns the 32 bits of their number, and the next `stcp_app_recv` takes at most `max_len` bytes from the front: what it copies, followed by
-- what it leaves, is what waited and then what was written. (The socket does not listen
-- and is not to be closed, and no packet is longer than twice `max_len`.)
pub mywrite-receive_from_app :
    (w : World) (sd p : ℕ) (buf : Bytes) (ctx : Context) (ns : Nodes) (max_len : ℕ)
    → get_context w sd ≡ returns ctx
    → ctx.listening ≡ false
    → ctx.close_requested ≡ false
    → Holds (state_of w ctx app_recv) ns
    → p ≢ 0
    → NotIn p ns
    → Short max_len ns
    → length buf ≤ max_len + max_len
    → (w' : World) × (n : ℕ) × (out : Bytes) × (w'' : World) × (ctx'' : Context) × (ns' : Nodes)
      × (mywrite w sd p buf ≡ returns (done (length buf % 2 ^ 32) w'))
      × (receive_from_app w' sd max_len ≡ returns (some (n, out, w'')))
      × (get_context w'' sd ≡ returns ctx'')
      × Holds (state_of w'' ctx'' app_recv) ns'
      × (n ≡ length out)
      × (n ≤ max_len)
      × (out ++ stream ns' ≡ stream ns ++ buf)
unfolding receive_from_app
mywrite-receive_from_app w sd p buf ctx ns max_len g l c v nz n h b =
    let (s, e, v1) = enqueue_buffer-Holds (state_of w ctx app_recv) ns p buf v nz n in
    let w' = put_state w sd ctx app_recv s in
    let ctx' = set_queue app_recv s.1 ctx in
    let g' = get_context-put_state w sd ctx app_recv s g in
    let (k, out, s', ns', q, v2, len, le, whole) = first_stream s ns p buf max_len h b v1 in
    (
      w',
      k,
      out,
      put_state w' sd ctx' app_recv s',
      set_queue app_recv s'.1 ctx',
      ns',
      mywrite_lem w sd p buf ctx w' g l c (enqueue_lem w sd ctx app_recv p buf s g e),
      dequeue_lem w' sd ctx' app_recv max_len true (copied k out s') g' q,
      get_context-put_state w' sd ctx' app_recv s' g',
      v2,
      len,
      le,
      whole ∙ stream-append ns p buf,
    )
