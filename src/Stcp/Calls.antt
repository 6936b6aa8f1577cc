-- ===== src/Stcp/Calls.antt =====
-- Assignment3/src/mysock_api.c: the calls of the application. What the system calls behind them return
-- is an argument: the error of `bind` and `listen`, or none.
pub mod Read
pub mod Close
pub mod Write
use computer_networks.Prelude.{
  ℕ, ◌%◌, ◌^◌, List, [], ◌∷◌, Option, none, some, Bool, true, false, if◌then◌else◌, ◌==◌, ◌&&◌,
  ◌||◌, not, ltb, take, length, set, min, Outcome, returns, assert_fails, diverges, assert, ◌>>=◌,
  ◌>>◌, Bytes, read16,
}
use computer_networks.Stcp.HashTable.{hash_delete}
use computer_networks.Stcp.TcpSum.{af_inet}
use computer_networks.Stcp.World.{ConnectRequest, Context, World, get_context, put_context}
use computer_networks.Stcp.Queues.{app_recv, app_send, enqueue, dequeue, free_all}
use computer_networks.Stcp.Backlog.{get_connection_queue, set_backlog, dequeue_connection}

abbrev pub einval : ℕ
einval = 22

abbrev pub eaddrnotavail : ℕ
eaddrnotavail = 99

abbrev pub eisconn : ℕ
eisconn = 106

abbrev pub enotconn : ℕ
enotconn = 107

-- What a call comes to: it waits, it returns -1 with `errno` set, or it returns a result.
pub data Called (A : Type 0) : Type 0 where
  blocked : Called A
  failed : World → Called A
  done : A → World → Called A

-- `MYSOCK_ERROR_EXIT`
abbrev pub error_exit : {A : Type 0} → World → ℕ → Called A
error_exit w rc = failed (record w { errno = rc })

-- The result of a system call.
abbrev pub system_result : World → Option ℕ → Called (Unit {0})
system_result w none = done tt w
system_result w (some rc) = error_exit w rc

unfoldable pub mybind : World → ℕ → Bytes → Option ℕ → Outcome (Called (Unit {0}))
mybind w sd addr bind = do
  ctx ← get_context w sd
  family ← read16 addr 0
  elim (family == af_inet) [
    | false ↦ returns (error_exit w eaddrnotavail)
    | true ↦ do
      assert (not ctx.listening)
      returns
          (system_result (put_context w sd (record ctx { bound = true; local_addr = addr })) bind)
  ]

-- `_mysock_transport_init`
unfoldable pub transport_init : World → ℕ → Bool → Outcome World
transport_init w sd is_active = do
  ctx ← get_context w sd
  assert (not ctx.listening)
  returns (put_context w sd (record ctx { is_active = is_active; transport_thread_started = true }))

-- `_mysock_bind_ephemeral`
unfoldable pub bind_ephemeral : World → ℕ → Option ℕ → Outcome World
bind_ephemeral w sd bind = do
  ctx ← get_context w sd
  assert (not ctx.bound)
  elim bind [
    | some rc ↦ assert_fails
    | none ↦ returns (put_context w sd (record ctx { bound = true }))
  ]

-- `myconnect` up to its wait.
unfoldable pub myconnect : World → ℕ → Bytes → ℕ → Option ℕ → Outcome (Called (Unit {0}))
unfolding transport_init bind_ephemeral
myconnect w sd name namelen bind = do
  ctx ← get_context w sd
  elim (ctx.peer_addr_len == 0) [
    | false ↦ returns (error_exit w eisconn)
    | true ↦ do
      let w' =
          put_context w sd
            (record ctx { peer_addr = name; peer_addr_len = namelen; peer_addr_valid = true })
      w'' ← if ctx.bound then returns w' else bind_ephemeral w' sd bind
      out ← transport_init w'' sd true
      returns (done tt out)
  ]

-- `errno = rc`, and -1 if it is an error.
abbrev pub errno_result : {A : Type 0} → World → ℕ → A → Called A
errno_result w rc a =
    if rc == 0 then done a (record w { errno = 0 }) else failed (record w { errno = rc })

-- `_mysock_wait_for_connection`
unfoldable pub wait_for_connection : World → ℕ → Outcome (Called (Unit {0}))
wait_for_connection w sd = do
  ctx ← get_context w sd
  returns (if ctx.blocking then blocked else errno_result w ctx.stcp_errno tt)

-- The descriptor, and the address of the peer with its length.
unfoldable pub myaccept : World → ℕ → Outcome (Called (ℕ × Bytes × ℕ))
myaccept w sd = do
  accept_ctx ← get_context w sd
  elim accept_ctx.listening [
    | false ↦ returns (error_exit w einval)
    | true ↦ do
      out ← dequeue_connection w sd
      elim out [
        | none ↦ returns blocked
        | some (w', new_sd) ↦ do
          ctx ← get_context w' new_sd
          assert (not (ctx.stcp_errno == 0) || ltb 0 ctx.peer_addr_len)
          assert (elim ctx.listen_sd [ none ↦ false | some k ↦ k == sd ])
          returns (errno_result w' ctx.stcp_errno (ctx.my_sd, ctx.peer_addr, ctx.peer_addr_len))
      ]
  ]

-- The local port, and what `realloc` returns, are those of `_mysock_set_backlog`.
unfoldable pub mylisten : World → ℕ → ℕ → ℕ → ℕ → Option ℕ → Outcome (Called (Unit {0}))
mylisten w sd backlog port array listen = do
  ctx ← get_context w sd
  assert ctx.bound
  w' ← set_backlog (put_context w sd (record ctx { listening = true })) sd backlog port array
  returns (system_result w' listen)

-- `_mysock_free_context`
unfoldable pub free_context : ℕ → World → ℕ → Outcome (Option World)
free_context rounds w sd = do
  ctx ← get_context w sd
  freed ←
      free_all rounds w.heap (ctx.network_recv_queue ∷ ctx.app_recv_queue ∷ ctx.app_send_queue ∷ [])
  returns (elim freed [
    | none ↦ none
    | some heap ↦ some (record w { heap = heap; global_ctx = set w.global_ctx sd none })
  ])

-- What `myclose` does before the transport thread has ended.
unfoldable pub request_close : World → ℕ → Outcome World
request_close w sd = do
  ctx ← get_context w sd
  returns (put_context w sd (record ctx { close_requested = true }))

-- `pthread_rwlock_rdlock` or `wrlock` on `listen_lock`, of a call or thread for which another waits that
-- holds the lock for writing, or of none (false): the first never gets it.
abbrev pub acquire : Bool → Outcome (Unit {0})
acquire true = diverges
acquire false = returns tt

-- What the transport thread needs before it can end, with whether the call that joins it holds `listen_lock`.
-- While `blocking` it has not yet told the application of the connection, which it does before it ends;
-- for a passive one `_mysock_passive_connection_complete` takes the lock.
unfoldable pub thread_ends : Bool → Context → Outcome (Unit {0})
thread_ends holds_lock ctx =
    if ctx.blocking && not ctx.is_active then acquire holds_lock else returns tt

-- The thread is joined.
unfoldable pub join_thread : Bool → World → ℕ → Outcome World
unfolding thread_ends
join_thread holds_lock w sd = do
  ctx ← get_context w sd
  elim ctx.transport_thread_started [
    | false ↦ returns w
    | true ↦ do
      assert (not ctx.listening)
      assert (ctx.is_active || elim ctx.listen_sd [ none ↦ false | some k ↦ true ])
      thread_ends holds_lock ctx
      returns (put_context w sd (record ctx { transport_thread_started = false }))
  ]

-- What the call of `myclose` on a queued connection does after that. On a listening one it would take
-- `listen_lock` again.
unfoldable pub finish_queued : Bool → ℕ → World → ℕ → Outcome (Option World)
unfolding join_thread free_context
finish_queued holds_lock rounds w sd = do
  w' ← join_thread holds_lock w sd
  ctx ← get_context w' sd
  if ctx.listening then acquire holds_lock else returns tt
  free_context rounds w' sd

unfoldable pub close_queued : Bool → ℕ → World → ℕ → Outcome (Option World)
unfolding request_close finish_queued
close_queued holds_lock rounds w sd = do
  w' ← request_close w sd
  finish_queued holds_lock rounds w' sd

-- The loop over the slots.
unfoldable pub close_slots : Bool → ℕ → World → List ConnectRequest → Outcome (Option World)
unfolding close_queued
close_slots holds_lock rounds w [] = returns (some w)
close_slots holds_lock rounds w (r ∷ rest) = elim r.sd [
  | none ↦ close_slots holds_lock rounds w rest
  | some sd ↦ do
    out ← close_queued holds_lock rounds w sd
    elim out [ none ↦ returns none | some w' ↦ close_slots holds_lock rounds w' rest ]
]

-- `_mysock_close_passive_socket`, which holds `listen_lock` from its beginning to its end.
unfoldable pub close_passive_socket : ℕ → World → ℕ → Outcome (Option World)
unfolding close_slots
close_passive_socket rounds w sd = do
  found ← get_connection_queue w sd
  elim found [
    | none ↦ returns (some w)
    | some q ↦ do
      out ← close_slots true rounds w (take q.max_len q.connection_queue)
      elim out [
        | none ↦ returns none
        | some w' ↦ do
          t ← hash_delete w'.listen_table sd
          returns (some (record w' { listen_table = t }))
      ]
  ]

-- `myclose` from where the transport thread has ended.
unfoldable pub myclose : ℕ → World → ℕ → Outcome (Option World)
unfolding join_thread close_passive_socket free_context
myclose rounds w sd = do
  w' ← join_thread false w sd
  ctx ← get_context w' sd
  elim ctx.listening [
    | false ↦ free_context rounds w' sd
    | true ↦ do
      out ← close_passive_socket rounds w' sd
      elim out [ none ↦ returns none | some w'' ↦ free_context rounds w'' sd ]
  ]

-- `p` is the node that is allocated. The result is an `int`, here its 32 bits.
unfoldable pub mywrite : World → ℕ → ℕ → Bytes → Outcome (Called ℕ)
mywrite w sd p buf = do
  ctx ← get_context w sd
  elim ctx.listening [
    | true ↦ returns (error_exit w einval)
    | false ↦ do
      assert (not ctx.close_requested)
      w' ← enqueue w sd app_recv p buf
      returns (done (length buf % 2 ^ 32) w')
  ]

-- The end of `myread`, after the wait; 0 is the end of the file.
abbrev pub read_result : ℕ → Option (ℕ × Bytes × World) → Outcome (Called (ℕ × Bytes))
read_result sd none = returns blocked
read_result sd (some (len, out, w)) = elim (len == 0) [
  | false ↦ returns (done (len, out) w)
  | true ↦ do
    ctx ← get_context w sd
    returns (done (len, out) (put_context w sd (record ctx { eof = true })))
]

unfoldable pub myread : World → ℕ → ℕ → Outcome (Called (ℕ × Bytes))
myread w sd buf_len = do
  ctx ← get_context w sd
  elim ctx.listening [
    | true ↦ returns (error_exit w einval)
    | false ↦ do
      assert (not ctx.close_requested)
      if ctx.eof
          then returns (done (0, []) w)
          else dequeue w sd app_send buf_len true >>= λ read. read_result sd read
  ]

-- The bytes copied to `name`, and the new `*namelen`.
unfoldable pub mygetpeername : World → ℕ → ℕ → Outcome (Called (Bytes × ℕ))
mygetpeername w sd namelen = do
  ctx ← get_context w sd
  returns (
      if ltb 0 ctx.peer_addr_len
      then done (take (min namelen ctx.peer_addr_len) ctx.peer_addr, ctx.peer_addr_len) w
      else error_exit w enotconn)
