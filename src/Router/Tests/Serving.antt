-- ===== src/Router/Tests/Serving.antt =====
-- Runs of the loop that serves the messages of the server.
use computer_networks.Prelude.{
  map, ℕ, ◌+◌, ◌≡◌, ◌≢◌, ◌↔◌, refl, List, [], ◌∷◌, ◌++◌, Option, none, some, true, false, All,
  arith, length, replicate, returns, undefined,
}
use computer_networks.Router.Interfaces.{Interface, strncmp_eq, sr_get_interface, sr_add_interface}
use computer_networks.Router.RoutingTable.{Route}
use computer_networks.Router.Frame.{Bytes}
use computer_networks.Router.Vns.{network32, c_string, handle_entry, sr_handle_hwinfo}
use computer_networks.Router.Handler.{Sr}
use computer_networks.Router.PacketLog.{Timeval, packet_dump_size, sr_dump_open}
use computer_networks.Router.PacketLog.Reading.{log_all, read_log, capture, log_all-read_log}
use computer_networks.Router.Server.{
  interrupted, bytes, read_bytes, ntohl_at, read_message, Environment, continues, session_closed,
  fails, missing_interfaces, sr_verify_routing_table, hw_entries, sr_handle_rtable, auth_reply,
  serve_packet, serve_hwinfo, serve_auth_request, act, serve, sr_read_from_server_expect,
}
use computer_networks.Router.Server.Reading.{deliver, read_message_lem}
use computer_networks.Router.Server.Dispatch.{HasInterface, sr_verify_routing_table_lem}

-- A banner of one byte, cut in the middle of its length.
abbrev head : List (Option (ℕ × Bytes))
head = some (0, 0 ∷ []) ∷ none ∷ some (0, 9 ∷ []) ∷ []

abbrev body : Bytes
body = 0 ∷ 0 ∷ 0 ∷ 8 ∷ 65 ∷ []

abbrev tail : List (Option (ℕ × Bytes))
tail = some (0, 0 ∷ 0 ∷ 8 ∷ 65 ∷ []) ∷ []

read_message_lem_example :
    read_message (deliver head (deliver tail (interrupted ∷ [])))
    ≡ returns (bytes (network32 9 ++ body) (interrupted ∷ []))
read_message_lem_example =
    read_message_lem head tail (interrupted ∷ []) body
      (omega arith, (omega arith, (omega arith, tt))) (omega arith, tt) refl refl (omega arith)

abbrev eth1 : Interface
eth1 = record { name = 101 ∷ 49 ∷ []; addr = replicate 6 0; ip = 0 }

abbrev route : Route
route = record { dest = 0; gw = 0; mask = 0; interface = 101 ∷ 49 ∷ [] }

sr_verify_routing_table_lem_example : (sr_verify_routing_table (eth1 ∷ []) (route ∷ []) ≡ 0) ↔ (
    (◌≢◌ {A = List Interface} (eth1 ∷ []) [])
    × (◌≢◌ {A = List Route} (route ∷ []) [])
    × All (HasInterface (eth1 ∷ [])) (route ∷ []))
sr_verify_routing_table_lem_example = sr_verify_routing_table_lem (eth1 ∷ []) (route ∷ [])

abbrev router : Sr
router = record {
  if_list = [];
  routing_table = route ∷ [];
  cache = record { entries = []; requests = [] };
  sent = [];
}

abbrev environment : Environment
environment = record {
  garbage = λ n. eth1;
  now = 0;
  expected_cmd = 0;
  file_written = false;
  reply_sent = true;
  auth_key = some (1 ∷ 2 ∷ []);
  user = 117 ∷ [];
  sha1 = λ l. some (replicate 20 (length l));
}

-- A message with the command, and what stands behind it.
abbrev message : ℕ → Bytes → Bytes
message command rest = network32 (8 + length rest) ++ (network32 command ++ rest)

serves_banner :
    sr_read_from_server_expect environment router (deliver head (deliver tail (interrupted ∷ [])))
    ≡ returns (some (continues router, interrupted ∷ []))
unfolding sr_read_from_server_expect read_message read_bytes ntohl_at serve act
serves_banner = refl

serves_close :
    serve (record environment { expected_cmd = 4 }) router (message 2 [])
    ≡ returns (session_closed router)
unfolding serve act ntohl_at
serves_close = refl

refuses_other :
    serve (record environment { expected_cmd = 4 }) router (message 8 []) ≡ returns (fails router)
unfolding serve act ntohl_at
refuses_other = refl

-- The name of an interface that the route needs.
serves_hwinfo :
    serve environment router (message 16 (network32 1 ++ (101 ∷ 49 ∷ replicate 30 0)))
    ≡ returns (continues (record router { if_list = record eth1 { name = 101 ∷ 49 ∷ [] } ∷ [] }))
unfolding serve act ntohl_at serve_hwinfo hw_entries sr_handle_hwinfo handle_entry c_string
    sr_verify_routing_table missing_interfaces sr_get_interface strncmp_eq sr_add_interface
serves_hwinfo = refl

serves_rtable :
    serve environment router (message 32 (replicate 32 0 ++ 5 ∷ [])) ≡ returns (fails router)
unfolding serve act ntohl_at sr_handle_rtable c_string
serves_rtable = refl

serves_auth_request :
    serve environment router (message 128 (3 ∷ []))
    ≡ returns (
        continues (record router {
          sent = (network32 33 ++ (network32 256 ++ (network32 1 ++ (117 ∷ replicate 20 3)))) ∷ [];
        }))
unfolding serve act ntohl_at serve_auth_request auth_reply
serves_auth_request = refl

-- A packet for the interface 0 that is too short for an ARP request goes to the handler.
drops_short : serve environment router (message 4 []) ≡ undefined
unfolding serve act ntohl_at serve_packet
drops_short = refl

-- A short packet and one longer than the log keeps.
abbrev packets : List (Timeval × Bytes)
packets =
    (record { tv_sec = 1700000000; tv_usec = 5 }, 1 ∷ 2 ∷ [])
    ∷ (record { tv_sec = 1700000001; tv_usec = 0 }, replicate 1030 7)
    ∷ []

log_all-read_log_example :
    (file : Bytes) × (log_all (sr_dump_open (45 ∷ []) true 0 packet_dump_size) packets
      ≡ returns (some file))
    × (read_log file ≡ returns (packet_dump_size, map capture packets))
log_all-read_log_example =
    log_all-read_log (45 ∷ []) packets
      ((omega arith, omega arith, omega arith), ((omega arith, omega arith, omega arith), tt))
