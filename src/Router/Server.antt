-- ===== src/Router/Server.antt =====
-- Assignment2/src/router/sr_vns_comm.c and sr_main.c: the loop that reads one message of the virtual
-- network server and acts on it. What `recv` and `read` return is an argument, and so are the results of
-- the calls that write a file or a reply. The packet log is in PacketLog. SHA-1 is a parameter.
pub mod Reading
pub mod Dispatch
use computer_networks.Prelude.{
  ℕ, zero, suc, ◌+◌, ◌-◌, ◌*◌, ◌/◌, ◌%◌, ◌^◌, List, [], ◌∷◌, ◌++◌, Option, none, some, Bool, true,
  false, if◌then◌else◌, ◌==◌, ◌&&◌, ◌||◌, not, ltb, leb, take, drop, length, Outcome, returns,
  undefined, diverges, assert, ◌>>=◌, ◌>>◌,
}
use computer_networks.Router.Interfaces.{Interface, sr_get_interface}
use computer_networks.Router.RoutingTable.{Route}
use computer_networks.Router.Frame.{Bytes, copy_from, read8}
use computer_networks.Router.Vns.{
  HwEntry, c_string, network32, sr_handle_hwinfo, sr_arp_req_not_for_us,
}
use computer_networks.Router.Handler.{Sr, sr_handlepacket}

-- What a call of `recv` or `read` gives: at least one byte, the end of the stream, or -1, because of a
-- signal or for another reason.
pub data Recv : Type 0 where
  got : ℕ → Bytes → Recv
  closed : Recv
  interrupted : Recv
  failed : Recv

pub data ReadResult : Type 0 where
  bytes : Bytes → List Recv → ReadResult
  read_error : ReadResult
  waiting : ReadResult

-- The loops that read `n` more bytes behind `before`. At the end of the stream `recv` returns 0, which
-- leaves the count as it is, and does so at every later call. A call returns no more than it is asked for.
unfoldable pub read_bytes : List Recv → Bytes → ℕ → Outcome ReadResult
read_bytes calls before zero = returns (bytes before calls)
read_bytes [] before (suc n) = returns waiting
read_bytes (failed ∷ calls) before (suc n) = returns read_error
read_bytes (interrupted ∷ calls) before (suc n) = read_bytes calls before (suc n)
read_bytes (closed ∷ calls) before (suc n) = diverges
read_bytes (got b bs ∷ calls) before (suc n) =
    assert (leb (length bs) n) >> read_bytes calls (before ++ b ∷ bs) (n - length bs)

-- `ntohl` of four bytes.
abbrev pub from_network32 : ℕ → ℕ → ℕ → ℕ → ℕ
from_network32 a b c d = 16777216 * a + 65536 * b + 256 * c + d

unfoldable pub ntohl_at : Bytes → ℕ → Outcome ℕ
ntohl_at buf i = do
  a ← read8 buf i
  b ← read8 buf (i + 1)
  c ← read8 buf (i + 2)
  d ← read8 buf (i + 3)
  returns (from_network32 a b c d)

-- The buffer of a message, from its length on; a negative length and one over 10000 are errors. The length
-- is written into the buffer, which must have room for it.
abbrev pub message_of_length : List Recv → Bytes → ℕ → Outcome ReadResult
message_of_length calls head len =
    if ltb 10000 len
    then returns read_error
    else if ltb len 4
    then undefined
    else read_bytes calls head (len - 4)

abbrev pub message_behind : ReadResult → Outcome ReadResult
message_behind waiting = returns waiting
message_behind read_error = returns read_error
message_behind (bytes head calls) = ntohl_at head 0 >>= λ len. message_of_length calls head len

unfoldable pub read_message : List Recv → Outcome ReadResult
unfolding read_bytes ntohl_at
read_message calls = read_bytes calls [] 4 >>= λ head. message_behind head

abbrev pub vnsclose : ℕ
vnsclose = 2

abbrev pub vnspacket : ℕ
vnspacket = 4

abbrev pub vnsbanner : ℕ
vnsbanner = 8

abbrev pub vnshwinfo : ℕ
vnshwinfo = 16

abbrev pub vns_rtable : ℕ
vns_rtable = 32

abbrev pub vns_auth_request : ℕ
vns_auth_request = 128

abbrev pub vns_auth_reply : ℕ
vns_auth_reply = 256

abbrev pub vns_auth_status : ℕ
vns_auth_status = 512

abbrev pub idsize : ℕ
idsize = 32

-- The number of routes without an interface, or 999.
unfoldable pub missing_interfaces : List Interface → List Route → ℕ
missing_interfaces if_list [] = 0
missing_interfaces if_list (rt ∷ rest) =
    elim (sr_get_interface if_list rt.interface) [ none ↦ 1 | some iface ↦ 0 ]
    + missing_interfaces if_list rest

unfoldable pub sr_verify_routing_table : List Interface → List Route → ℕ
unfolding missing_interfaces
sr_verify_routing_table [] routes = 999
sr_verify_routing_table (iface ∷ if_list) [] = 999
sr_verify_routing_table (iface ∷ if_list) (rt ∷ rest) =
    missing_interfaces (iface ∷ if_list) (rt ∷ rest)

-- The entries of `c_hwinfo`, 36 bytes each.
unfoldable pub hw_entries : ℕ → Bytes → Outcome (List HwEntry)
unfolding ntohl_at
hw_entries zero buf = returns []
hw_entries (suc n) buf = do
  key ← ntohl_at buf 0
  value ← copy_from buf 4 32
  rest ← hw_entries n (drop 36 buf)
  returns (record { key = key; value = value } ∷ rest)

-- `sr_handle_rtable`: the name of the file and what is written to it. The name has room for `idsize`
-- characters behind its prefix; a message without room for one makes the size of the rest wrap.
unfoldable pub sr_handle_rtable : Bytes → Outcome (Bytes × Bytes)
sr_handle_rtable buf =
    let host = c_string (drop 8 buf) in
    if ltb (length buf) (8 + idsize) || ltb idsize (length host)
    then undefined
    else returns (host, drop (8 + idsize) buf)

-- `sr_handle_auth_request`: the reply that is sent. `auth_key` is the 64 bytes that `fgets` stored.
unfoldable pub auth_reply : (Bytes → Option Bytes) → Bytes → Bytes → Bytes → Option Bytes
auth_reply sha1 user auth_key salt = elim (sha1 (salt ++ take 64 auth_key)) [
  | none ↦ none
  | some digest ↦ some (
      network32 (12 + length user + 20)
      ++ (network32 vns_auth_reply ++ (network32 (length user) ++ (user ++ take 20 digest))))
]

-- What a message is served with: what new interfaces hold, the time, the command that is expected (0 is
-- any), whether the table's file and the reply can be written, the 64 bytes of the key if it can be
-- read, the user, and SHA-1.
pub record Environment : Type 0 where
  pub garbage : ℕ → Interface
  pub now : ℕ
  pub expected_cmd : ℕ
  pub file_written : Bool
  pub reply_sent : Bool
  pub auth_key : Option Bytes
  pub user : Bytes
  pub sha1 : Bytes → Option Bytes

-- `sr_read_from_server_expect` returns 1, 0 or -1.
pub data Served : Type 0 where
  continues : Sr → Served
  session_closed : Sr → Served
  fails : Sr → Served

abbrev pub result : Bool → Sr → Served
result true sr = continues sr
result false sr = fails sr

unfoldable pub serve_packet : Environment → Sr → Bytes → Outcome Served
serve_packet env sr buf = if ltb (length buf) 24 then undefined else (do
  let packet = drop 24 buf
  other ← sr_arp_req_not_for_us sr.if_list packet (length packet) (c_string (drop 8 buf))
  elim other [
    | true ↦ returns (continues sr)
    | false ↦ sr_handlepacket env.now sr packet >>= λ sr'. returns (continues sr')
  ])

unfoldable pub serve_hwinfo : Environment → Sr → Bytes → Outcome Served
unfolding hw_entries sr_verify_routing_table
serve_hwinfo env sr buf = do
  entries ← hw_entries ((length buf - 8) / 36) (drop 8 buf)
  if_list ← sr_handle_hwinfo env.garbage sr.if_list entries
  returns (
      result (sr_verify_routing_table if_list sr.routing_table == 0)
        (record sr { if_list = if_list }))

unfoldable pub serve_auth_request : Environment → Sr → Bytes → Served
unfolding auth_reply
serve_auth_request env sr buf = elim env.auth_key [
  | none ↦ fails sr
  | some key ↦ elim (auth_reply env.sha1 env.user key (drop 8 buf)) [
    | none ↦ fails sr
    | some reply ↦
        if env.reply_sent then continues (record sr { sent = sr.sent ++ reply ∷ [] }) else fails sr
  ]
]

-- The `switch`.
unfoldable pub act : Environment → Sr → Bytes → ℕ → Outcome Served
unfolding serve_packet serve_hwinfo serve_auth_request sr_handle_rtable
act env sr buf command =
    if command == vnspacket
    then serve_packet env sr buf
    else if command == vnsclose
    then returns (session_closed sr)
    else if command == vnsbanner
    then returns (continues sr)
    else if command == vnshwinfo
    then serve_hwinfo env sr buf
    else if command == vns_rtable
    then (sr_handle_rtable buf >>= λ file. returns (result env.file_written sr))
    else if command == vns_auth_request
    then returns (serve_auth_request env sr buf)
    else if command == vns_auth_status
    then (read8 buf 8 >>= λ auth_ok. returns (result (not (auth_ok == 0)) sr))
    else returns (continues sr)

-- A command other than the expected one is an error, unless it closes the session.
unfoldable pub serve : Environment → Sr → Bytes → Outcome Served
unfolding act ntohl_at
serve env sr buf = do
  command ← ntohl_at buf 4
  if not (env.expected_cmd == 0) && (not (command == env.expected_cmd) && not (command == vnsclose))
      then returns (fails sr)
      else act env sr buf command

-- What has been read; none is that the call waits for more.
abbrev pub serve_read : Environment → Sr → ReadResult → Outcome (Option (Served × List Recv))
serve_read env sr waiting = returns none
serve_read env sr read_error = returns (some (fails sr, []))
serve_read env sr (bytes buf calls) = serve env sr buf >>= λ served. returns (some (served, calls))

unfoldable pub sr_read_from_server_expect :
    Environment → Sr → List Recv → Outcome (Option (Served × List Recv))
unfolding serve read_message
sr_read_from_server_expect env sr calls = read_message calls >>= λ read. serve_read env sr read
