-- ===== src/Router/ArpCache/Queue.antt =====
-- The queue of requests, and what is found under each address.
use computer_networks.Prelude.{
  ℕ, ◌≡◌, ◌≢◌, inl, inr, List, [], ◌∷◌, Option, none, some, if◌then◌else◌, ◌==◌, arith, refl, take,
  Option-cases,
}
use computer_networks.Router.Interfaces.{sr_iface_namelen}
use computer_networks.Router.ArpCache.{
  Packet, Request, Cache, find_request, push_packet, queue_packet, new_request, with_request,
  sr_arpcache_queuereq, unlink, sr_arpcache_insert, sr_arpcache_init, remove_at, sr_arpreq_destroy,
}

-- No two requests of the queue are for one address.
abbrev pub Distinct : List Request → Type 0
Distinct [] = Unit
Distinct (r ∷ rest) = (find_request rest r.ip ≡ none) × Distinct rest

find_request-push :
    (p : Packet) (rs : List Request) (ip ip' : ℕ)
    → find_request (push_packet p rs ip) ip' ≡ (
        if ip == ip'
        then elim (find_request rs ip) [
          | none ↦ none
          | some r ↦ some (record r { packets = p ∷ r.packets })
        ]
        else find_request rs ip')
unfolding find_request push_packet
find_request-push p [] ip ip' = ground arith
find_request-push p (r ∷ rest) ip ip' = ground (arith, find_request-push p rest ip ip')

push_packet-Distinct :
    (p : Packet) (rs : List Request) (ip : ℕ) → Distinct rs → Distinct (push_packet p rs ip)
unfolding push_packet
push_packet-Distinct p [] ip d = tt
push_packet-Distinct p (r ∷ rest) ip d =
    ground (arith, find_request-push p rest ip r.ip, push_packet-Distinct p rest ip d.1)

with_request-Distinct :
    (location ip : ℕ) (rs : List Request) → Distinct rs → Distinct (with_request location rs ip)
unfolding with_request
with_request-Distinct location ip rs d = ground arith

queue_packet-Distinct :
    (packet iface : Option (List ℕ)) (rs : List Request) (ip : ℕ)
    → Distinct rs
    → Distinct (queue_packet packet iface rs ip)
unfolding queue_packet
queue_packet-Distinct none iface rs ip d = d
queue_packet-Distinct (some []) iface rs ip d = d
queue_packet-Distinct (some (b ∷ buf)) none rs ip d = d
queue_packet-Distinct (some (b ∷ buf)) (some iface) rs ip d = push_packet-Distinct _ rs ip d

find_request-unlink_ne :
    (rs : List Request) (ip ip' : ℕ)
    → ip ≢ ip'
    → find_request (unlink rs ip) ip' ≡ find_request rs ip'
unfolding find_request unlink
find_request-unlink_ne [] ip ip' h = refl
find_request-unlink_ne (r ∷ rest) ip ip' h = ground (arith, find_request-unlink_ne rest ip ip')

unlink-find_none :
    (rs : List Request) (ip ip' : ℕ)
    → find_request rs ip' ≡ none
    → find_request (unlink rs ip) ip' ≡ none
unfolding find_request unlink
unlink-find_none [] ip ip' h = refl
unlink-find_none (r ∷ rest) ip ip' h = ground (arith, unlink-find_none rest ip ip')

unlink-Distinct : (rs : List Request) (ip : ℕ) → Distinct rs → Distinct (unlink rs ip)
unfolding unlink
unlink-Distinct [] ip d = tt
unlink-Distinct (r ∷ rest) ip d =
    ground (arith, unlink-find_none rest ip r.ip, unlink-Distinct rest ip d.1)

find_request-unlink_self :
    (rs : List Request) (ip : ℕ) → Distinct rs → find_request (unlink rs ip) ip ≡ none
unfolding find_request unlink
find_request-unlink_self [] ip d = refl
find_request-unlink_self (r ∷ rest) ip d = ground (arith, find_request-unlink_self rest ip d.1)

remove_at-find_none :
    (rs : List Request) (location ip : ℕ)
    → find_request rs ip ≡ none
    → find_request (remove_at rs location) ip ≡ none
unfolding find_request remove_at
remove_at-find_none [] location ip h = refl
remove_at-find_none (r ∷ rest) location ip h = ground (arith, remove_at-find_none rest location ip)

remove_at-Distinct :
    (rs : List Request) (location : ℕ) → Distinct rs → Distinct (remove_at rs location)
unfolding remove_at
remove_at-Distinct [] location d = tt
remove_at-Distinct (r ∷ rest) location d =
    ground (arith, remove_at-find_none rest location r.ip, remove_at-Distinct rest location d.1)

-- Queueing a packet for an address, the arrival of an answer for one, and the destruction of a
-- request keep the queue free of two requests for one address, and the empty queue is.
pub queue-Distinct :
    (cache : Cache) (location ip now : ℕ) (packet iface : Option (List ℕ)) (mac : List ℕ)
    (entry : Option ℕ)
    → Distinct cache.requests
    → Distinct sr_arpcache_init.requests
      × Distinct (sr_arpcache_queuereq cache location ip packet iface).1.requests
      × Distinct (sr_arpcache_insert cache mac ip now).1.requests
      × Distinct (sr_arpreq_destroy cache entry).requests
unfolding sr_arpcache_init sr_arpcache_queuereq sr_arpcache_insert sr_arpreq_destroy
queue-Distinct cache location ip now packet iface mac none d = (
  tt,
  queue_packet-Distinct packet iface _ ip (with_request-Distinct location ip cache.requests d),
  unlink-Distinct cache.requests ip d,
  d,
)
queue-Distinct cache location ip now packet iface mac (some l) d = (
  tt,
  queue_packet-Distinct packet iface _ ip (with_request-Distinct location ip cache.requests d),
  unlink-Distinct cache.requests ip d,
  remove_at-Distinct cache.requests l d,
)

-- The request under an address, or the new one.
abbrev pub request_or_new : ℕ → List Request → ℕ → Request
request_or_new location rs ip = elim (find_request rs ip) [
  | none ↦ record { location = location; ip = ip; sent = 0; times_sent = 0; packets = [] }
  | some r ↦ r
]

find_request-with_request_self :
    (location : ℕ) (rs : List Request) (ip : ℕ)
    → find_request (with_request location rs ip) ip ≡ some (request_or_new location rs ip)
unfolding with_request new_request find_request
find_request-with_request_self location rs ip = elim (Option-cases (find_request rs ip)) [
  | inl e ↦ ground arith
  | inr (r, e) ↦ ground arith
]

find_request-with_request_ne :
    (location : ℕ) (rs : List Request) (ip ip' : ℕ)
    → ip ≢ ip'
    → find_request (with_request location rs ip) ip' ≡ find_request rs ip'
unfolding with_request new_request find_request
find_request-with_request_ne location rs ip ip' h = ground arith

-- Queueing a non-empty packet puts it in front of the packets that wait for the address, in the
-- request that stands there or in a new one that was never sent; the pointer returned is to that
-- request, and what is found under every other address stays.
pub queuereq_lem :
    (cache : Cache) (location ip b : ℕ) (buf iface : List ℕ)
    → let out = sr_arpcache_queuereq cache location ip (some (b ∷ buf)) (some iface) in
      let r = request_or_new location cache.requests ip in
      let p : Packet = record { buf = b ∷ buf; iface = take sr_iface_namelen iface } in
      (out.0 ≡ some (record r { packets = p ∷ r.packets }))
      × (find_request out.1.requests ip ≡ out.0)
      × ((ip' : ℕ) → ip ≢ ip' → find_request out.1.requests ip' ≡ find_request cache.requests ip')
unfolding sr_arpcache_queuereq queue_packet
queuereq_lem cache location ip b buf iface =
    let p : Packet = record { buf = b ∷ buf; iface = take sr_iface_namelen iface } in
    let rs = with_request location cache.requests ip in
    let found = find_request-with_request_self location cache.requests ip in
    (
      ground (arith, find_request-push p rs ip ip, found),
      refl,
      (λ ip' n. ground (
        arith,
        find_request-push p rs ip ip',
        find_request-with_request_ne location cache.requests ip ip' n,
      )),
    )

-- An answer takes the request for its address off the queue and returns it, or NULL if there was
-- none; afterwards none waits for that address, and the requests for others are untouched.
pub insert-requests :
    (cache : Cache) (mac : List ℕ) (ip now : ℕ)
    → Distinct cache.requests
    → let out = sr_arpcache_insert cache mac ip now in
      (out.0 ≡ find_request cache.requests ip)
      × (find_request out.1.requests ip ≡ none)
      × ((ip' : ℕ) → ip ≢ ip' → find_request out.1.requests ip' ≡ find_request cache.requests ip')
unfolding sr_arpcache_insert
insert-requests cache mac ip now d = (
  refl,
  find_request-unlink_self cache.requests ip d,
  (λ ip'. find_request-unlink_ne cache.requests ip ip'),
)
