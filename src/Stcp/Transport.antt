-- ===== src/Stcp/Transport.antt =====
-- Assignment3/src/stcp_api.c, network.c, and parts of mysock.c and network_io_socket.c: what the
-- transport layer calls, and what the two threads of a mysocket do. The local port and the two
-- addresses are those of the network layer.
pub mod Events
pub mod Receive
pub mod Exit
use computer_networks.Prelude.{
  ℕ, zero, suc, ◌+◌, ◌/◌, ◌%◌, List, [], ◌∷◌, ◌++◌, Option, none, some, Bool, true, false,
  if◌then◌else◌, ◌==◌, ◌&&◌, ◌||◌, not, ltb, leb, length, Outcome, returns, undefined, assert,
  ◌>>=◌, ◌>>◌, Bytes, read16, copy_to,
}
use computer_networks.Stcp.TcpSum.{tcphdr_size, af_inet, set_checksum, verify_checksum}
use computer_networks.Stcp.World.{Context, World, get_context, put_context}
use computer_networks.Stcp.Queues.{network_recv, app_recv, app_send, enqueue, dequeue}
use computer_networks.Stcp.Backlog.{enqueue_connection, passive_connection_complete}

abbrev pub eintr : ℕ
eintr = 4

abbrev pub econnaborted : ℕ
econnaborted = 103

abbrev pub econnrefused : ℕ
econnrefused = 111

abbrev pub max_ip_payload_len : ℕ
max_ip_payload_len = 1500

-- `stcp_unblock_application`; the error is in `errno`.
unfoldable pub unblock_application : World → ℕ → Outcome World
unblock_application w sd = do
  ctx ← get_context w sd
  assert ctx.blocking
  let stcp_errno = if w.errno == eintr then 0 else w.errno
  let w' = put_context w sd (record ctx { blocking = false; stcp_errno = stcp_errno })
  if ctx.is_active then returns w' else passive_connection_complete w' sd

-- The bits of `stcp_event_type_t`.
abbrev pub app_data : ℕ → Bool
app_data flags = flags % 2 == 1

abbrev pub network_data : ℕ → Bool
network_data flags = flags / 2 % 2 == 1

abbrev pub app_close_requested : ℕ → Bool
app_close_requested flags = flags / 4 % 2 == 1

abbrev pub bit : ℕ → Bool → ℕ
bit n b = if b then n else 0

abbrev pub closes : Context → Bool
closes ctx = ctx.close_requested && ctx.app_recv_queue.head == 0

-- The bits that one round of the loop sets.
unfoldable pub events : Context → ℕ → ℕ
events ctx flags =
    bit 1 (app_data flags && not (ctx.app_recv_queue.head == 0))
    + bit 2 (network_data flags && not (ctx.network_recv_queue.head == 0))
    + bit 4 (closes ctx)

-- A request to close is passed on once; with no event the thread waits.
unfoldable pub wake : World → ℕ → Context → ℕ → Option (ℕ × World)
unfolding events
wake w sd ctx flags =
    if events ctx flags == 0
    then none
    else some (
      events ctx flags,
      (if closes ctx then put_context w sd (record ctx { close_requested = false }) else w),
    )

-- One round of the loop of `stcp_wait_for_event`; none is the wait, which a timeout ends with 0.
unfoldable pub wait_for_event : World → ℕ → ℕ → Outcome (Option (ℕ × World))
unfolding wake
wait_for_event w sd flags = do ctx ← get_context w sd; returns (wake w sd ctx flags)

-- The assertion of `stcp_network_recv` reads as many bytes of `dst` as the packet had.
abbrev pub check_received : Bytes → ℕ → ℕ × ℕ → ℕ → Bytes → Outcome (Unit {0})
check_received peer_addr addr ends zero out = returns tt
check_received peer_addr addr ends (suc len) out =
    if ltb (length out) (suc len)
    then undefined
    else (read16 peer_addr 0 >>= λ family. verify_checksum family addr ends out >>= λ ok. assert ok)

abbrev pub received :
    Bytes → ℕ → ℕ × ℕ → Option (ℕ × Bytes × World) → Outcome (Option (ℕ × Bytes × World))
received peer_addr addr ends none = returns none
received peer_addr addr ends (some (len, out, w)) =
    check_received peer_addr addr ends len out >> returns (some (len, out, w))

-- `stcp_network_recv` with `_network_recv`; `addr` is the address of `dst`.
unfoldable pub network_receive : World → ℕ → ℕ → ℕ × ℕ → ℕ → Outcome (Option (ℕ × Bytes × World))
network_receive w sd addr ends max_len = do
  ctx ← get_context w sd
  read ← dequeue w sd network_recv max_len false
  received ctx.peer_addr addr ends read

-- The segments of `stcp_network_send`, one behind the other, in a buffer of `max_ip_payload_len` bytes.
unfoldable pub gather : Bytes → List Bytes → Outcome Bytes
gather packet [] = returns packet
gather packet (next_buf ∷ rest) =
    assert (leb (length packet + length next_buf) max_ip_payload_len)
    >> gather (packet ++ next_buf) rest

-- The packet without its checksum. The ports are two bytes each; `sizeof(struct tcphdr)` is
-- `tcphdr_size`, the checksum stands at 16 and the urgent pointer at 18.
unfoldable pub make_segment : World → ℕ → Bytes → List Bytes → Outcome Bytes
unfolding gather
make_segment w sd port bufs = do
  ctx ← get_context w sd
  packet ← gather [] bufs
  assert (leb tcphdr_size (length packet))
  sourced ← copy_to packet 0 port
  family ← read16 ctx.peer_addr 0
  assert (family == af_inet)
  peer_port ← read16 ctx.peer_addr 2
  aimed ← copy_to sourced 2 (peer_port % 256 ∷ peer_port / 256 ∷ [])
  assert (ltb 0 peer_port)
  copy_to aimed 16 (0 ∷ 0 ∷ 0 ∷ 0 ∷ [])

-- The packet that `stcp_network_send` passes to `_network_send`.
unfoldable pub network_send : World → ℕ → Bytes → ℕ → ℕ × ℕ → List Bytes → Outcome Bytes
unfolding make_segment
network_send w sd port addr ends bufs = make_segment w sd port bufs >>= λ packet.
    get_context w sd >>= λ ctx.
    read16 ctx.peer_addr 0 >>= λ family. set_checksum family addr ends packet

-- `stcp_app_recv`
unfoldable pub receive_from_app : World → ℕ → ℕ → Outcome (Option (ℕ × Bytes × World))
receive_from_app w sd max_len = dequeue w sd app_recv max_len true

-- `stcp_app_send`; `p` is the node that is allocated.
unfoldable pub send_to_app : World → ℕ → ℕ → Bytes → Outcome World
send_to_app w sd p src = do
  ctx ← get_context w sd
  if ltb 0 (length src) then enqueue w sd app_send p src else returns w

-- `stcp_fin_received`
unfoldable pub fin_received : World → ℕ → ℕ → Outcome World
fin_received w sd p = enqueue w sd app_send p []

-- `transport_thread_func` from where `transport_init` has returned.
unfoldable pub transport_exit : World → ℕ → ℕ → Outcome World
unfolding unblock_application
transport_exit w sd p = do
  ctx ← get_context w sd
  let rc =
      if w.errno == 0 || w.errno == eintr
      then (if ctx.is_active then econnrefused else econnaborted)
      else w.errno
  w' ← if ctx.blocking then unblock_application (record w { errno = rc }) sd else returns w
  enqueue w' sd app_send p []

-- A round of `network_recv_thread_func`: what `_network_recv_packet` read, none where it failed, and
-- whether the loop goes on. A listening socket passes on the address of the packet's sender.
unfoldable pub network_round : World → ℕ → Bool → ℕ → Option Bytes → Outcome (World × Bool)
network_round w sd network_init p none = do w' ← enqueue w sd network_recv p []; returns (w', false)
network_round w sd network_init p (some packet) = do
  assert (leb (length packet) max_ip_payload_len)
  ctx ← get_context w sd
  elim ctx.listening [
    | true ↦ do
      out ← enqueue_connection w sd network_init p packet ctx.peer_addr ctx.peer_addr_len
      returns (out.0, true)
    | false ↦ do w' ← enqueue w sd network_recv p packet; returns (w', true)
  ]
