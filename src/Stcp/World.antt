-- ===== src/Stcp/World.antt =====
-- Assignment3/src/mysock_impl.h, mysock.c and connection_demux.c: the state that the functions of the
-- mysocket layer share. A pointer to a context is its descriptor, and a pointer to a listen queue the
-- descriptor of its socket; `_mysock_get_context` and the lookup in `listen_table` lead from the one to
-- the other, with the assertions of a build without NDEBUG. A descriptor below 0 fails them as one that
-- is too large does.
pub mod Descriptors
use computer_networks.Prelude.{
  ℕ, zero, suc, List, [], ◌∷◌, Option, none, some, Bool, true, false, if◌then◌else◌, ◌==◌, ltb,
  length, get_elem?, set, replicate, Outcome, returns, assert_fails, assert, ◌>>=◌, ◌>>◌, Bytes,
}
use computer_networks.Stcp.HashTable.{Table}
use computer_networks.Stcp.PacketQueue.{Heap, PacketQueue, empty_queue}

abbrev pub max_num_connections : ℕ
max_num_connections = 64

-- `connect_request_t`; the descriptor -1 is none.
pub record ConnectRequest : Type 0 where
  pub peer_addr : Bytes
  pub peer_addr_len : ℕ
  pub sd : Option ℕ

-- `listen_queue_t`. `array` is the address of the requests; a completed connection points to one by the
-- address that the array had, and its place in it.
pub record ListenQueue : Type 0 where
  pub local_port : ℕ
  pub max_len : ℕ
  pub cur_len : ℕ
  pub array : ℕ
  pub connection_queue : List ConnectRequest
  pub completed_queue : List (ℕ × ℕ)

-- `mysock_context_t`, with the fields of its `network_state` that this layer reads.
pub record Context : Type 0 where
  pub is_active : Bool
  pub local_addr : Bytes
  pub peer_addr : Bytes
  pub peer_addr_len : ℕ
  pub peer_addr_valid : Bool
  pub bound : Bool
  pub listening : Bool
  pub my_sd : ℕ
  pub listen_sd : Option ℕ
  pub blocking : Bool
  pub stcp_errno : ℕ
  pub transport_thread_started : Bool
  pub close_requested : Bool
  pub eof : Bool
  pub network_recv_queue : PacketQueue
  pub app_send_queue : PacketQueue
  pub app_recv_queue : PacketQueue

-- The context as `_mysock_allocate_context` leaves it.
abbrev pub fresh_context : Context
fresh_context = record {
  is_active = false;
  local_addr = replicate 16 0;
  peer_addr = replicate 16 0;
  peer_addr_len = 0;
  peer_addr_valid = false;
  bound = false;
  listening = false;
  my_sd = 0;
  listen_sd = none;
  blocking = true;
  stcp_errno = 0;
  transport_thread_started = false;
  close_requested = false;
  eof = false;
  network_recv_queue = empty_queue;
  app_send_queue = empty_queue;
  app_recv_queue = empty_queue;
}

-- The packets of all queues stand on one heap.
pub record World : Type 0 where
  pub heap : Heap
  pub global_ctx : List (Option Context)
  pub listen_table : Table ListenQueue
  pub errno : ℕ

abbrev pub entry : List (Option Context) → ℕ → Option Context
entry tbl sd = elim (get_elem? tbl sd) [ none ↦ none | some c ↦ c ]

-- `verify_mysocket_descriptor` and what is behind it.
unfoldable pub get_context : World → ℕ → Outcome Context
get_context w sd = elim (entry w.global_ctx sd) [
  | none ↦ assert_fails
  | some ctx ↦ assert (ctx.my_sd == sd) >> returns ctx
]

-- A write through the pointer to a context.
abbrev pub put_context : World → ℕ → Context → World
put_context w sd ctx = record w { global_ctx = set w.global_ctx sd (some ctx) }

-- The search for a free descriptor.
unfoldable pub find_free : List (Option Context) → Option ℕ
find_free [] = none
find_free (none ∷ rest) = some 0
find_free (some c ∷ rest) = elim (find_free rest) [ none ↦ none | some k ↦ some (suc k) ]

abbrev pub emfile : ℕ
emfile = 24

-- `network_init` is whether `_network_init` succeeds; where it fails, `assert(0)` does. The descriptor,
-- or none for -1.
unfoldable pub new_mysocket : World → Bool → Outcome (World × Option ℕ)
unfolding find_free
new_mysocket w network_init = do
  assert network_init
  returns (elim (find_free w.global_ctx) [
    | none ↦ (record w { errno = emfile }, none)
    | some k ↦ (put_context w k (record fresh_context { my_sd = k }), some k)
  ])
