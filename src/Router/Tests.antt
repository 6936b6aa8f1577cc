-- ===== src/Router/Tests.antt =====
-- Runs of the router on small inputs.
mod Serving
use computer_networks.Prelude.{
  ℕ, ◌+◌, ◌-◌, ◌≤◌, ◌≡◌, ◌≢◌, List, [], ◌∷◌, ◌++◌, map, some, Bool, true, false, refl, All, Any,
  returns, undefined, assert_fails, take, arith, inl, inr, Bytes,
}
use computer_networks.Prelude.Words.{store16}
use computer_networks.Router.Checksum.{sum_words, fold, finish, cksum}
use computer_networks.Router.Checksum.Verify.{cksum-append_cksum}
use computer_networks.Router.Interfaces.{Interface, sr_iface_namelen}
use computer_networks.Router.ArpCache.{
  Packet, Entry, Request, Cache, sr_arpcache_to, sr_arpcache_init, sr_arpcache_lookup, find_request,
  sr_arpcache_queuereq, sr_arpcache_insert, sr_arpreq_destroy, handle_arpreq, expire,
  sr_arpcache_timeout,
}
use computer_networks.Router.ArpCache.Mapping.{sr_arpcache_lookup_lem, lookup-insert_self}
use computer_networks.Router.ArpCache.Queue.{Distinct, request_or_new, queue-Distinct, queuereq_lem}
use computer_networks.Router.ArpCache.Expiry.{timeout-lookup}
use computer_networks.Router.ArpCache.Sweep.{IsDue, timeout-requests}
use computer_networks.Router.RoutingTable.{Route, to, indeterminate, lpm_from}
use computer_networks.Router.RoutingTable.Longest.{Matches, IsNormal, IsLongest, lpm-IsLongest}
use computer_networks.Router.Vns.{sr_handle_hwinfo}
use computer_networks.Router.Vns.Hardware.{Config, all_entries, configured, hwinfo_builds}
use computer_networks.Router.Handler.{Sr, sr_handlepacket}
use computer_networks.Router.Handler.Ethertype.{handlepacket_network}
use computer_networks.Router.Handler.ArpReply.{Mac}

abbrev four_bytes : Bytes
four_bytes = 69 ∷ 0 ∷ 0 ∷ 84 ∷ []

cksum-append_cksum_example : cksum (four_bytes ++ store16 0xabba) ≡ some 0xffff
unfolding cksum sum_words fold finish
cksum-append_cksum_example = cksum-append_cksum four_bytes (ground arith) refl (omega arith) refl

abbrev eth0 : Interface
eth0 = record { name = 101 ∷ 48 ∷ []; addr = 2 ∷ 0 ∷ 0 ∷ 0 ∷ 0 ∷ 1 ∷ []; ip = 0x0100000a }

abbrev eth1 : Interface
eth1 = record { name = 101 ∷ 49 ∷ []; addr = 2 ∷ 0 ∷ 0 ∷ 0 ∷ 0 ∷ 2 ∷ []; ip = 0x0200000a }

abbrev entry : ℕ → ℕ → Bool → Entry
entry ip added valid = record {
  mac = 2 ∷ 0 ∷ 0 ∷ 0 ∷ 0 ∷ 9 ∷ [];
  ip = ip;
  added = added;
  valid = valid;
}

abbrev request : ℕ → ℕ → Request
request location ip = record {
  location = location;
  ip = ip;
  sent = 7;
  times_sent = 1;
  packets = [];
}

abbrev cache : Cache
cache = record {
  entries = entry 5 100 true ∷ entry 6 0 false ∷ [];
  requests = request 1 8 ∷ request 2 9 ∷ [];
}

abbrev mac : List ℕ
mac = 2 ∷ 0 ∷ 0 ∷ 0 ∷ 0 ∷ 7 ∷ []

abbrev full : Cache
full = record { entries = entry 5 100 true ∷ []; requests = [] }

lookup-insert_self_example :
    sr_arpcache_lookup (sr_arpcache_insert cache mac 7 120).1 7
    ≡ some (record { mac = mac; ip = 7; added = 120; valid = true })
lookup-insert_self_example =
    lookup-insert_self cache mac 7 120 (inr (inl refl))
      ((sr_arpcache_lookup_lem cache 7).1.1 (ground arith))

requests-Distinct : Distinct cache.requests
unfolding find_request
requests-Distinct = (refl, (refl, tt))

queue-Distinct_example :
    Distinct sr_arpcache_init.requests
    × Distinct (sr_arpcache_queuereq cache 3 7 (some four_bytes) (some eth0.name)).1.requests
    × Distinct (sr_arpcache_insert cache mac 7 120).1.requests
    × Distinct (sr_arpreq_destroy cache (some 2)).requests
queue-Distinct_example =
    queue-Distinct cache 3 7 120 (some four_bytes) (some eth0.name) mac (some 2) requests-Distinct

queuereq_lem_example :
    let out = sr_arpcache_queuereq cache 3 9 (some four_bytes) (some eth0.name) in
    let r = request_or_new 3 cache.requests 9 in
    let p : Packet = record { buf = four_bytes; iface = take sr_iface_namelen eth0.name } in
    (out.0 ≡ some (record r { packets = p ∷ r.packets }))
    × (find_request out.1.requests 9 ≡ out.0)
    × ((ip' : ℕ) → 9 ≢ ip' → find_request out.1.requests ip' ≡ find_request cache.requests ip')
queuereq_lem_example = queuereq_lem cache 3 9 69 (0 ∷ 0 ∷ 84 ∷ []) eth0.name

abbrev after : Cache
after = record {
  entries = map (expire 9) cache.entries;
  requests = map (handle_arpreq 9) cache.requests;
}

timeout-requests_example :
    (All (λ r. ¬ IsDue 9 r) cache.requests
      → sr_arpcache_timeout 9 cache
        ≡ returns (record {
          entries = map (expire 9) cache.entries;
          requests = map (handle_arpreq 9) cache.requests;
        }))
    × (Any (IsDue 9) cache.requests → sr_arpcache_timeout 9 cache ≡ undefined)
timeout-requests_example = timeout-requests cache 9

timeout-lookup_example :
    ((e : Entry) → sr_arpcache_lookup after 5 ≡ some e → 9 ≤ e.added + sr_arpcache_to)
    × ((e : Entry)
        → sr_arpcache_lookup cache 5 ≡ some e
        → 9 ≤ e.added + sr_arpcache_to
        → sr_arpcache_lookup after 5 ≡ some e)
timeout-lookup_example =
    timeout-lookup cache 9 5
      ((timeout-requests cache 9).0 ((λ d. ground arith), ((λ d. ground arith), tt)))

abbrev route : ℕ → ℕ → Route
route dest mask = record { dest = dest; gw = 0; mask = mask; interface = eth0.name }

lpm-IsLongest_example :
    let table = route 3 1 ∷ route 1 3 ∷ [] in
    let out = lpm_from indeterminate 0 table 1 in
    (Any (Matches 1) table → (r : Route) × (out ≡ (to r, r.mask)) × IsLongest 1 0 table r)
    × (All (λ r. ¬ Matches 1 r) table → out ≡ (indeterminate, 0))
    × (All IsNormal table → All (λ r. r.dest ≢ 1) table → out ≡ (indeterminate, 0))
lpm-IsLongest_example = lpm-IsLongest (route 3 1 ∷ route 1 3 ∷ []) 1

abbrev config : Config
config = record {
  name = 101 ∷ 48 ∷ [];
  addr = (2, 0, 0, 0, 0, 1);
  ip = (10, 0, 0, 1);
  pad = 0 ∷ 0 ∷ [];
}

hwinfo_builds_example :
    sr_handle_hwinfo (λ n. eth1) [] (all_entries (config ∷ []))
    ≡ returns ([] ++ map configured (config ∷ []))
hwinfo_builds_example =
    hwinfo_builds (λ n. eth1) [] (config ∷ [])
      (((λ e. ground arith), ((λ e. ground arith), tt)), tt)

abbrev frame : Bytes
frame = 2 ∷ 0 ∷ 0 ∷ 0 ∷ 0 ∷ 9 ∷ 2 ∷ 0 ∷ 0 ∷ 0 ∷ 0 ∷ 1 ∷ 8 ∷ 6 ∷ []

abbrev type0 : ℕ
type0 = 8

abbrev type1 : ℕ
type1 = 6

abbrev router : Sr
router = record {
  if_list = eth0 ∷ eth1 ∷ [];
  routing_table = route 3 1 ∷ [];
  cache = cache;
  sent = [];
}

handlepacket_network_example : sr_handlepacket 120 router frame ≡ assert_fails
handlepacket_network_example = handlepacket_network 120 router frame 6 refl refl (inl refl)

abbrev host : Mac
host = (2, 0, 0, 0, 0, 9)

abbrev port : Mac
port = (2, 0, 0, 0, 0, 1)

-- An IP packet for eth0 whose stated length is four bytes.
abbrev ip_frame : Bytes
ip_frame =
    2 ∷ 0 ∷ 0 ∷ 0 ∷ 0 ∷ 1 ∷ 2 ∷ 0 ∷ 0 ∷ 0 ∷ 0 ∷ 9 ∷ 8 ∷ 0 ∷ 69 ∷ 0 ∷ 4 ∷ 0 ∷ 0 ∷ 0 ∷ 0 ∷ 0 ∷ 64 ∷ 1
    ∷ 0xb6 ∷ 0xff ∷ 10 ∷ 0 ∷ 0 ∷ 9 ∷ 10 ∷ 0 ∷ 0 ∷ 1 ∷ []
