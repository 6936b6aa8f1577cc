-- ===== src/Router/Handler/Forward.antt =====
-- What becomes of IP packets.
use computer_networks.Prelude.{
  ℕ, ◌≡◌, ◌≢◌, inl, inr, none, arith, returns, undefined, assert, Option-cases, >>=-eq-returns,
}
use computer_networks.Router.Interfaces.{get_interface_from_ip}
use computer_networks.Router.RoutingTable.Longest.{find_rt_dest-cases}
use computer_networks.Router.Frame.{Bytes, read8, read32, ip_dst, ip_ttl, ip_p, ip_hdr}
use computer_networks.Router.Handler.{
  Sr, forward, deliver, pass_on, route_ip, checksum_matches, handle_ip,
}

-- No packet is forwarded: whatever the routing table, the cache and the queue hold, the code goes on
-- through a pointer that was never set.
pub forward_undefined : (sr : Sr) (dst : ℕ) → forward sr dst ≡ undefined
unfolding forward
forward_undefined sr dst = elim (find_rt_dest-cases sr.routing_table dst) [
  | inl e ↦ rw (e, forward)
  | inr e ↦ rw (e, forward)
]

pass_on-ne-returns : (sr sr' : Sr) (packet : Bytes) (dst : ℕ) → pass_on sr packet dst ≢ returns sr'
unfolding pass_on
pass_on-ne-returns sr sr' packet dst h =
    let t = >>=-eq-returns (read8 packet ip_ttl) _ h in
    ground (arith, t.2, forward_undefined sr dst)

deliver-returns : (sr sr' : Sr) (packet : Bytes) → deliver sr packet ≡ returns sr' → sr' ≡ sr
unfolding deliver
deliver-returns sr sr' packet h =
    let p = >>=-eq-returns (read8 packet ip_p) _ h in
    let t = >>=-eq-returns (read8 packet ip_hdr) _ p.2 in ground (arith, t.2)

route_ip-returns :
    (sr sr' : Sr) (packet : Bytes)
    → route_ip sr packet ≡ returns sr'
    → (sr' ≡ sr)
      × ((dst : ℕ) × (read32 packet ip_dst ≡ returns dst)
          × (get_interface_from_ip sr.if_list dst ≢ none))
unfolding route_ip
route_ip-returns sr sr' packet h =
    let d = >>=-eq-returns (read32 packet ip_dst) _ h in
    elim (Option-cases (get_interface_from_ip sr.if_list d.0)) [
      | inl e ↦ absurd (pass_on-ne-returns sr sr' packet d.0 (rw e at d.2))
      | inr (i, e) ↦ (deliver-returns sr sr' packet (rw e at d.2), (d.0, d.1, (λ n. cc (n, e))))
    ]

-- If the handling of an IP packet returns at all, nothing was sent and nothing has changed, and the
-- destination of the packet is one of the router's own interfaces.
pub handle_ip-returns :
    (sr sr' : Sr) (packet : Bytes)
    → handle_ip sr packet ≡ returns sr'
    → (sr' ≡ sr)
      × ((dst : ℕ) × (read32 packet ip_dst ≡ returns dst)
          × (get_interface_from_ip sr.if_list dst ≢ none))
unfolding handle_ip
handle_ip-returns sr sr' packet h =
    let a = >>=-eq-returns (checksum_matches packet) _ h in
    let b = >>=-eq-returns (assert a.0) _ a.2 in route_ip-returns sr sr' packet b.2
