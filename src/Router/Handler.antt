-- ===== src/Router/Handler.antt =====
-- Assignment2/src/router/sr_router.c: the handling of a packet. The packet stands in a buffer that the
-- code changes in place; what it sends is recorded in order. The outcome is `undefined` where the
-- code first writes or reads through a pointer that was never set: `new_hdr_icmp`, `hdr_icmp`,
-- `new_eth` and `match`.
pub mod Ethertype
pub mod ArpReply
pub mod Forward
use computer_networks.Prelude.{
  ℕ, zero, suc, ◌+◌, ◌-◌, ◌%◌, List, [], ◌∷◌, ◌++◌, Option, none, some, Bool, true, false,
  if◌then◌else◌, ◌==◌, ◌&&◌, not, take, drop, length, Outcome, returns, assert_fails, undefined,
  diverges, assert, ◌>>=◌, ◌>>◌,
}
use computer_networks.Prelude.Words.{swap16, store16}
use computer_networks.Router.Checksum.{cksum}
use computer_networks.Router.Interfaces.{Interface, get_interface_from_ip}
use computer_networks.Router.RoutingTable.{
  Route, RoutePointer, null, to, indeterminate, find_rt_dest,
}
use computer_networks.Router.ArpCache.{
  Packet, Request, Cache, sr_arpcache_lookup, sr_arpcache_insert, sr_arpreq_destroy,
}
use computer_networks.Router.Vns.{sr_send_packet}
use computer_networks.Router.Frame.{
  Bytes, ethernet_hdr_size, arp_hdr_size, ip_hdr_size, ethertype_arp, ethertype_ip, arp_op_request,
  arp_op_reply, ip_protocol_icmp, read8, read16, read32, copy_from, copy_to, store32, ether_dhost,
  ether_shost, ether_type, ar_hrd, ar_pro, ar_op, ar_sha, ar_sip, ar_tha, ar_tip, ip_hdr, ip_len,
  ip_ttl, ip_p, ip_sum, ip_dst, ether_addr_len,
}

-- `struct sr_instance`, with the messages that were written to the server.
pub record Sr : Type 0 where
  pub if_list : List Interface
  pub routing_table : List Route
  pub cache : Cache
  pub sent : List Bytes

-- What `packet_type` returns: 0, 1 or 9.
pub data PacketType : Type 0 where
  other arp ip : PacketType

pub packet_type : Bytes → Outcome PacketType
packet_type packet = do
  type ← read16 packet ether_type
  returns (
      if type == ethertype_arp
      then PacketType.arp
      else if type == ethertype_ip
      then PacketType.ip
      else other)

-- A send whose result the handler does not look at.
pub send : Sr → Bytes → ℕ → List ℕ → Outcome Sr
send sr buf len iface = do
  message ← sr_send_packet sr.if_list buf len iface
  returns (elim message [ none ↦ sr | some m ↦ record sr { sent = sr.sent ++ m ∷ [] } ])

-- The reply to a request, built in the buffer of the request. `new_eth_hdr` and `new_arp_hdr` point
-- to the headers that are being read.
pub make_reply : Bytes → Interface → Outcome Bytes
make_reply packet target = do
  shost ← copy_from packet ether_shost ether_addr_len
  packet ← copy_to packet ether_dhost shost
  packet ← copy_to packet ether_shost (take ether_addr_len target.addr)
  packet ← copy_to packet ether_type (store16 (swap16 ethertype_arp))
  packet ← copy_to packet ar_hrd (store16 (swap16 1))
  packet ← copy_to packet ar_pro (store16 (swap16 ethertype_ip))
  packet ← copy_to packet ar_op (store16 (swap16 arp_op_reply))
  packet ← copy_to packet ar_sha (take ether_addr_len target.addr)
  packet ← copy_to packet ar_sip (store32 target.ip)
  shost ← copy_from packet ether_shost ether_addr_len
  packet ← copy_to packet ar_tha shost
  sip ← copy_from packet ar_sip 4
  copy_to packet ar_tip sip

-- The branch of a request: the state, and the buffer as it stands behind it.
pub handle_arp_request : Sr → Bytes → Outcome (Sr × Bytes)
unfolding send make_reply
handle_arp_request sr packet = do
  tip ← read32 packet ar_tip
  elim (get_interface_from_ip sr.if_list tip) [
    | none ↦ returns (sr, packet)
    | some target ↦ do
      packet ← make_reply packet target
      reply ← copy_from packet 0 (ethernet_hdr_size + arp_hdr_size)
      sr' ← send sr reply (ethernet_hdr_size + arp_hdr_size) target.name
      returns (sr', packet)
  ]

-- The packets that wait for the answer are sent, with the first byte of the address put in.
pub send_waiting : Sr → ℕ → List Packet → Outcome Sr
unfolding send
send_waiting sr mac [] = returns sr
send_waiting sr mac (p ∷ rest) = do
  buf ← copy_to p.buf ether_dhost (mac ∷ [])
  sr' ← send sr buf (ethernet_hdr_size + ip_hdr_size) p.iface
  send_waiting sr' mac rest

-- The branch of a reply.
pub handle_arp_reply : ℕ → Sr → Bytes → Outcome Sr
unfolding send_waiting
handle_arp_reply now sr packet = do
  tip ← read32 packet ar_tip
  elim (get_interface_from_ip sr.if_list tip) [
    | none ↦ returns sr
    | some target ↦ do
      tha ← copy_from packet ar_tha ether_addr_len
      let (in_cache, cache) = sr_arpcache_insert sr.cache tha target.ip now
      let sr' = record sr { cache = cache }
      elim in_cache [
        | none ↦ returns sr'
        | some req ↦ do
          mac ← read8 packet ar_tha
          sr'' ← send_waiting sr' mac req.packets
          returns (record sr'' { cache = sr_arpreq_destroy sr''.cache (some req.location) })
      ]
  ]

-- The next hop is not in the cache: `new_eth` is the pointer used first, for the request that is found
-- and for a new one alike. The loop over the requests does not move on from the first.
pub ask : Sr → Route → Outcome Sr
ask sr route = elim sr.cache.requests [
  | [] ↦ undefined
  | curr_req ∷ rest ↦ if curr_req.ip == route.dest then undefined else diverges
]

-- The packet is not for this router, and its time to live has not run out. Without a route
-- `new_hdr_icmp` is the pointer used first, and with the next hop in the cache `new_eth`.
pub forward : Sr → ℕ → Outcome Sr
unfolding ask
forward sr dst = elim (find_rt_dest sr.routing_table dst) [
  | null ↦ undefined
  | indeterminate ↦ undefined
  | to route ↦ elim (sr_arpcache_lookup sr.cache dst) [
    | some curr ↦ undefined
    | none ↦ ask sr route
  ]
]

-- A packet for this router. `icmp_hdr` is set to the place of the IP header.
pub deliver : Sr → Bytes → Outcome Sr
deliver sr packet = do
  p ← read8 packet ip_p
  icmp_type ← read8 packet ip_hdr
  if p == ip_protocol_icmp then (if icmp_type == 8 then undefined else returns sr) else undefined

-- A packet for another: an expired one is to be answered through `hdr_icmp`.
pub pass_on : Sr → Bytes → ℕ → Outcome Sr
unfolding forward
pass_on sr packet dst = do
  ttl ← read8 packet ip_ttl
  if (ttl + 255) % 256 == 0 then undefined else forward sr dst

-- `case 9` behind the check of the checksum.
pub route_ip : Sr → Bytes → Outcome Sr
unfolding deliver pass_on
route_ip sr packet = do
  dst ← read32 packet ip_dst
  elim (get_interface_from_ip sr.if_list dst) [
    | some interface ↦ deliver sr packet
    | none ↦ pass_on sr packet dst
  ]

-- Whether the checksum of the header, the length of it read from the packet, is the one the packet
-- has.
pub checksum_matches : Bytes → Outcome Bool
checksum_matches packet = do
  len ← read16 packet ip_len
  data_bytes ← copy_from packet ip_hdr len
  sum ← read16 packet ip_sum
  elim (cksum data_bytes) [ none ↦ diverges | some c ↦ returns (c == sum) ]

-- `case 9`, on whatever stands in the buffer.
unfoldable pub handle_ip : Sr → Bytes → Outcome Sr
unfolding route_ip checksum_matches
handle_ip sr packet = checksum_matches packet >>= λ checked. assert checked >> route_ip sr packet

-- `case 1` has no `break`: an ARP packet is handled as an IP packet afterwards.
pub handle_arp : ℕ → Sr → Bytes → Outcome Sr
unfolding handle_arp_request handle_arp_reply handle_ip
handle_arp now sr packet = do
  op ← read16 packet ar_op
  let request = handle_arp_request sr packet >>= λ out. handle_ip out.0 out.1
  let reply = handle_arp_reply now sr packet >>= λ sr'. handle_ip sr' packet
  if op == arp_op_request then request else if op == arp_op_reply then reply else returns sr

pub sr_handlepacket : ℕ → Sr → Bytes → Outcome Sr
unfolding packet_type handle_arp handle_ip
sr_handlepacket now sr packet = do
  result ← packet_type packet
  elim result [
    | other ↦ assert_fails
    | PacketType.arp ↦ handle_arp now sr packet
    | PacketType.ip ↦ handle_ip sr packet
  ]
