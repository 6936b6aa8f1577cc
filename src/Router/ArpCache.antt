-- ===== src/Router/ArpCache.antt =====
-- Assignment2/src/router/sr_arpcache.c: the table of IP to MAC mappings and the queue of ARP
-- requests. `time(NULL)` is an argument of each function that calls it, in seconds.
pub mod Mapping
pub mod Queue
pub mod Expiry
pub mod Sweep
use computer_networks.Prelude.{
  ℕ, zero, suc, ◌+◌, List, [], ◌∷◌, Option, none, some, Bool, true, false, if◌then◌else◌, ◌==◌,
  ◌&&◌, ltb, leb, replicate, take, map, Outcome, returns, undefined, ◌>>=◌,
}
use computer_networks.Router.Interfaces.{sr_iface_namelen}

abbrev pub sr_arpcache_sz : ℕ
sr_arpcache_sz = 100

abbrev pub sr_arpcache_to : ℕ
sr_arpcache_to = 15

-- `struct sr_packet`; its `len` is the length of `buf`.
pub record Packet : Type 0 where
  pub buf : List ℕ
  pub iface : List ℕ

-- `struct sr_arpentry`
pub record Entry : Type 0 where
  pub mac : List ℕ
  pub ip : ℕ
  pub added : ℕ
  pub valid : Bool

-- `struct sr_arpreq`. `location` is where it lies in memory: two pointers to requests are equal if
-- their locations are.
pub record Request : Type 0 where
  pub location : ℕ
  pub ip : ℕ
  pub sent : ℕ
  pub times_sent : ℕ
  pub packets : List Packet

-- `struct sr_arpcache`, the linked list of requests being a list.
pub record Cache : Type 0 where
  pub entries : List Entry
  pub requests : List Request

abbrev pub zero_entry : Entry
zero_entry = record { mac = 0 ∷ 0 ∷ 0 ∷ 0 ∷ 0 ∷ 0 ∷ []; ip = 0; added = 0; valid = false }

pub sr_arpcache_init : Cache
sr_arpcache_init = record { entries = replicate sr_arpcache_sz zero_entry; requests = [] }

-- The loop goes on after a hit, so that the last one counts.
pub lookup_from : Option Entry → List Entry → ℕ → Option Entry
lookup_from entry [] ip = entry
lookup_from entry (e ∷ rest) ip =
    lookup_from (if e.valid && e.ip == ip then some e else entry) rest ip

pub sr_arpcache_lookup : Cache → ℕ → Option Entry
unfolding lookup_from
sr_arpcache_lookup cache ip = lookup_from none cache.entries ip

unfoldable pub find_request : List Request → ℕ → Option Request
find_request [] ip = none
find_request (r ∷ rest) ip = if r.ip == ip then some r else find_request rest ip

-- The write through the pointer to the first request for the address.
pub push_packet : Packet → List Request → ℕ → List Request
push_packet p [] ip = []
push_packet p (r ∷ rest) ip =
    if r.ip == ip then record r { packets = p ∷ r.packets } ∷ rest else r ∷ push_packet p rest ip

-- `if (packet && packet_len && iface)`, the bytes of the packet being the `packet_len` ones.
pub queue_packet : Option (List ℕ) → Option (List ℕ) → List Request → ℕ → List Request
unfolding push_packet
queue_packet none iface rs ip = rs
queue_packet (some []) iface rs ip = rs
queue_packet (some (b ∷ buf)) none rs ip = rs
queue_packet (some (b ∷ buf)) (some iface) rs ip =
    push_packet (record { buf = b ∷ buf; iface = take sr_iface_namelen iface }) rs ip

-- `calloc` returns the memory at `location`.
pub new_request : ℕ → ℕ → Request
new_request location ip = record {
  location = location;
  ip = ip;
  sent = 0;
  times_sent = 0;
  packets = [];
}

pub with_request : ℕ → List Request → ℕ → List Request
unfolding find_request new_request
with_request location rs ip = elim (find_request rs ip) [
  | none ↦ new_request location ip ∷ rs
  | some r ↦ rs
]

-- The pointer that the function returns is to the first request for the address.
pub sr_arpcache_queuereq :
    Cache → ℕ → ℕ → Option (List ℕ) → Option (List ℕ) → Option Request × Cache
unfolding with_request queue_packet
sr_arpcache_queuereq cache location ip packet iface =
    let rs = queue_packet packet iface (with_request location cache.requests ip) ip in
    (find_request rs ip, record cache { requests = rs })

-- The first request for the address is taken off the queue.
pub unlink : List Request → ℕ → List Request
unlink [] ip = []
unlink (r ∷ rest) ip = if r.ip == ip then rest else r ∷ unlink rest ip

-- The first entry that is not valid is overwritten.
pub store : Entry → List Entry → List Entry
store e [] = []
store e (f ∷ rest) = if f.valid then f ∷ store e rest else e ∷ rest

pub sr_arpcache_insert : Cache → List ℕ → ℕ → ℕ → Option Request × Cache
unfolding find_request unlink store
sr_arpcache_insert cache mac ip now = (
  find_request cache.requests ip,
  record {
    entries = store (record { mac = take 6 mac; ip = ip; added = now; valid = true }) cache.entries;
    requests = unlink cache.requests ip;
  },
)

-- The search of `sr_arpreq_destroy`, by the pointer.
pub remove_at : List Request → ℕ → List Request
remove_at [] location = []
remove_at (r ∷ rest) location = if r.location == location then rest else r ∷ remove_at rest location

-- `none` is the null pointer. The memory of the entry and of its packets is freed.
pub sr_arpreq_destroy : Cache → Option ℕ → Cache
unfolding remove_at
sr_arpreq_destroy cache none = cache
sr_arpreq_destroy cache (some location) = record cache {
  requests = remove_at cache.requests location;
}

-- `times_sent++` runs below 5 only, where it does not wrap.
pub handle_arpreq : ℕ → Request → Request
handle_arpreq now r =
    if ltb (r.sent + 1) now
    then if leb 5 r.times_sent
      then r
      else if r.sent == 0
      then record r { sent = now; times_sent = 1 }
      else record r { sent = now; times_sent = r.times_sent + 1 }
    else r

-- A request that is sent five times is destroyed, and `curr = curr->next` then reads what was freed.
pub sweep : ℕ → List Request → Outcome (List Request)
unfolding handle_arpreq
sweep now [] = returns []
sweep now (r ∷ rest) =
    let r' = handle_arpreq now r in
    let rest' = sweep now rest in
    if leb 5 r'.times_sent then undefined else (rest' >>= λ rs. returns (r' ∷ rs))

pub sr_arpcache_sweepreqs : ℕ → Cache → Outcome Cache
unfolding sweep
sr_arpcache_sweepreqs now cache =
    sweep now cache.requests >>= λ rs. returns (record cache { requests = rs })

pub expire : ℕ → Entry → Entry
expire now e =
    if e.valid && ltb (e.added + sr_arpcache_to) now then record e { valid = false } else e

-- One round of the loop of the timeout thread.
pub sr_arpcache_timeout : ℕ → Cache → Outcome Cache
unfolding expire sr_arpcache_sweepreqs
sr_arpcache_timeout now cache =
    sr_arpcache_sweepreqs now (record cache { entries = map (expire now) cache.entries })
