-- ===== src/Stcp/Calls/Read.antt =====
-- `myread`, and the end of the file.
use computer_networks.Prelude.{
  ℕ, zero, suc, ◌<◌, ◌≡◌, ◌⊎◌, inl, inr, refl, ap, sym, ◌∙◌, [], ◌∷◌, Option, some, Bool, true,
  false, if◌then◌else◌, not, arith, length, Outcome, returns, assert, ◌>>=◌, ◌>>◌, >>=-eq-returns,
  Bytes,
}
use computer_networks.Stcp.PacketQueue.{Dequeued, waits, copied}
use computer_networks.Stcp.PacketQueue.Segment.{Nodes, Holds}
use computer_networks.Stcp.PacketQueue.Dequeue.{dequeue_nothing}
use computer_networks.Stcp.World.{Context, World, get_context, put_context}
use computer_networks.Stcp.World.Descriptors.{get_context-set}
use computer_networks.Stcp.Queues.{app_send, set_queue, put_state, read_of, dequeue}
use computer_networks.Stcp.Queues.Laws.{
  state_of, get_context-put_state, returns_inj, dequeue_lem, dequeue-returns,
}
use computer_networks.Stcp.Calls.{done, read_result, myread}

-- A later call reads the end of the file.
abbrev pub AtEnd : World → ℕ → Type 0
AtEnd w sd =
    (ctx : Context) × (get_context w sd ≡ returns ctx)
    × (ctx.listening ≡ false)
    × (ctx.close_requested ≡ false)
    × (ctx.eof ≡ true)

pub AtEnd-myread :
    (w : World) (sd buf_len : ℕ) → AtEnd w sd → myread w sd buf_len ≡ returns (done (0, []) w)
unfolding myread
AtEnd-myread w sd buf_len (ctx, g, l, c, e) = rw (g, myread) (rw (l, c, e) refl)

-- The branches of `myread`.
guarded :
    {A : Type 0} (l c e : Bool) (x y z : Outcome A) {r : A}
    → elim l [ true ↦ x | false ↦ assert (not c) >> (if e then y else z) ] ≡ returns r
    → (l ≡ true) × (x ≡ returns r)
      ⊎ (l ≡ false) × (c ≡ false) × ((e ≡ true) × (y ≡ returns r) ⊎ (e ≡ false) × (z ≡ returns r))
guarded true c e x y z h = inl (refl, h)
guarded false true e x y z h = absurd (ground arith)
guarded false false true x y z h = inr (refl, refl, inl (refl, h))
guarded false false false x y z h = inr (refl, refl, inr (refl, h))

pub myread_lem :
    (w : World) (sd buf_len : ℕ) (ctx : Context) (r : Option (ℕ × Bytes × World))
    → get_context w sd ≡ returns ctx
    → ctx.listening ≡ false
    → ctx.close_requested ≡ false
    → ctx.eof ≡ false
    → dequeue w sd app_send buf_len true ≡ returns r
    → myread w sd buf_len ≡ read_result sd r
unfolding myread
myread_lem w sd buf_len ctx r g l c e q =
    rw (g, myread) (rw (l, c, e) (ap (λ o. o >>= λ read. read_result sd read) q))

done_inj :
    {A : Type 0} {a b : A} {w w' : World}
    → returns (done a w) ≡ returns (done b w')
    → (a ≡ b) × (w ≡ w')
done_inj e = ground arith

read_result-AtEnd :
    (w : World) (sd : ℕ) (ctx : Context) (d : Dequeued) (out' : Bytes) (w' : World)
    → get_context w sd ≡ returns ctx
    → ctx.listening ≡ false
    → ctx.close_requested ≡ false
    → read_result sd (read_of w sd ctx app_send d) ≡ returns (done (0, out') w')
    → AtEnd w' sd
read_result-AtEnd w sd ctx waits out' w' g l c e = absurd (ground arith)
read_result-AtEnd w sd ctx (copied (suc n) out s) out' w' g l c e = absurd (ground arith)
read_result-AtEnd w sd ctx (copied zero out s) out' w' g l c e =
    let g' = get_context-put_state w sd ctx app_send s g in
    let b = >>=-eq-returns (get_context (put_state w sd ctx app_send s) sd) _ e in
    let same : b.0 ≡ set_queue app_send s.1 ctx = returns_inj (sym (b.1) ∙ g') in
    let world = (done_inj (b.2)).1 in
    (
      record (b.0) { eof = true },
      get_context-set (put_state w sd ctx app_send s) w' sd (b.0) _ (b.1) refl
          (ap (λ x. x.global_ctx) (sym world)),
      ap (λ x. x.listening) same ∙ l,
      ap (λ x. x.close_requested) same ∙ c,
      refl,
    )

-- Once `myread` has returned 0, the next call of it returns 0 as well and changes nothing.
pub myread-end :
    (w w' : World) (sd buf_len again : ℕ) (out : Bytes)
    → myread w sd buf_len ≡ returns (done (0, out) w')
    → myread w' sd again ≡ returns (done (0, []) w')
unfolding myread
myread-end w w' sd buf_len again out e =
    let (ctx, g, rest) = >>=-eq-returns (get_context w sd) _ e in
    elim (guarded ctx.listening ctx.close_requested ctx.eof _ _ _ rest) [
      | inl h ↦ absurd (ground (arith, h.1))
      | inr (l, c, inl (q, h)) ↦
          let same = (done_inj h).1 in
          AtEnd-myread w' sd again (ctx, ap (λ v. get_context v sd) (sym same) ∙ g, l, c, q)
      | inr (l, c, inr (q, h)) ↦
          let b = >>=-eq-returns (dequeue w sd app_send buf_len true) _ h in
          let d = dequeue-returns w sd ctx app_send buf_len true g (b.1) in
          AtEnd-myread w' sd again
            (read_result-AtEnd w sd ctx (d.0) out w' g l c (ap (read_result sd) (sym (d.2)) ∙ b.2))
    ]

-- A read of 0 bytes, which the caller may make while data waits, puts the end of the file in front of it:
-- every later call returns 0, and the packets stay in the queue. (The socket does not listen, is not to be
-- closed, and has not read the end of the file before.)
pub myread_zero :
    (w : World) (sd : ℕ) (ctx : Context) (p : ℕ) (d : Bytes) (rest : Nodes)
    → get_context w sd ≡ returns ctx
    → ctx.listening ≡ false
    → ctx.close_requested ≡ false
    → ctx.eof ≡ false
    → Holds (state_of w ctx app_send) ((p, d) ∷ rest)
    → 0 < length d
    → (w' : World) × (ctx' : Context) × (myread w sd 0 ≡ returns (done (0, []) w'))
      × (get_context w' sd ≡ returns ctx')
      × Holds (state_of w' ctx' app_send) ((p, d) ∷ rest)
      × ((again : ℕ) → myread w' sd again ≡ returns (done (0, []) w'))
myread_zero w sd ctx p d rest g l c e v h =
    let (s, q, v') = dequeue_nothing (state_of w ctx app_send) p d rest v h in
    let w' = put_state w sd ctx app_send s in
    let g' = get_context-put_state w sd ctx app_send s g in
    let r =
      myread_lem w sd 0 ctx (some (0, [], w')) g l c e
        (dequeue_lem w sd ctx app_send 0 true (copied 0 [] s) g q) in
    let ctx' = record (set_queue app_send s.1 ctx) { eof = true } in
    let w'' = put_context w' sd ctx' in
    let g'' = get_context-set w' w'' sd (set_queue app_send s.1 ctx) ctx' g' refl refl in
    (
      w'',
      ctx',
      r
          ∙ ap
              (λ o. o >>= λ c. returns (done (0, []) (put_context w' sd (record c { eof = true }))))
              g',
      g'',
      v',
      λ again. AtEnd-myread w'' sd again (ctx', g'', l, c, refl),
    )
