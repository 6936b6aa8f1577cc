-- ===== src/Router/Vns/Send.antt =====
-- What is sent to the server, and what is not; and which ARP requests are dropped on arrival.
use computer_networks.Prelude.{
  ℕ, ◌+◌, ◌≤◌, ◌≡◌, ◌%◌, ◌^◌, List, ◌++◌, Option-cases, Bool-cases, inl, inr, some, true, arith,
  ltb, length, take, drop, returns, bytes_eq_sound, ap, ◌∙◌, >>=-eq-returns,
}
use computer_networks.Router.Interfaces.{Interface, sr_get_interface}
use computer_networks.Router.Frame.{
  Bytes, copy_from, ethernet_hdr_size, ether_shost, ether_addr_len,
}
use computer_networks.Router.Vns.{
  packet_header, send_if_matching, sr_ether_addrs_match_interface, sr_send_packet,
}

copy_from-returns :
    (buf : Bytes) (i n : ℕ) {b : Bytes}
    → copy_from buf i n ≡ returns b
    → (i + n ≤ length buf) × (b ≡ take n (drop i buf))
copy_from-returns buf i n h = ground arith

matches-true :
    (if_list : List Interface) (buf : Bytes) (name : List ℕ)
    → sr_ether_addrs_match_interface if_list buf name ≡ returns true
    → (i : Interface) × (sr_get_interface if_list name ≡ some i) × (take 6 (drop 6 buf) ≡ i.addr)
unfolding sr_ether_addrs_match_interface
matches-true if_list buf name h = elim (Option-cases (sr_get_interface if_list name)) [
  | inl e ↦ cc (rw (e, sr_ether_addrs_match_interface) at h)
  | inr (i, e) ↦
      let s =
        >>=-eq-returns (copy_from buf ether_shost ether_addr_len) _
          (rw (e, sr_ether_addrs_match_interface) at h) in
      let c = copy_from-returns buf ether_shost ether_addr_len s.1 in
      (i, e, ground (arith, c, s.2, bytes_eq_sound s.0 i.addr))
]

sent-some :
    (if_list : List Interface) (buf : Bytes) (name : List ℕ) (p m : Bytes)
    → send_if_matching if_list buf name p ≡ returns (some m)
    → (m ≡ p) × (sr_ether_addrs_match_interface if_list buf name ≡ returns true)
unfolding send_if_matching
sent-some if_list buf name p m h =
    let t = >>=-eq-returns (sr_ether_addrs_match_interface if_list buf name) _ h in
    ground (arith, t.1, t.2)

-- A message is written only for a packet that has a whole Ethernet header and whose source address
-- is that of the interface named; it is the header of 24 bytes followed by the packet, unchanged.
pub sr_send_packet-some :
    (if_list : List Interface) (buf : Bytes) (len : ℕ) (name : List ℕ) (m : Bytes)
    → sr_send_packet if_list buf len name ≡ returns (some m)
    → (ethernet_hdr_size ≤ len)
      × (len ≤ length buf)
      × (m ≡ packet_header ((len + 24) % 2 ^ 32) name ++ take len buf)
      × ((i : Interface) × (sr_get_interface if_list name ≡ some i)
          × (take 6 (drop 6 buf) ≡ i.addr))
unfolding sr_send_packet
sr_send_packet-some if_list buf len name m h = elim (Bool-cases (ltb len ethernet_hdr_size)) [
  | inl e ↦ cc (rw (e, sr_send_packet) at h)
  | inr e ↦
      let s = >>=-eq-returns (copy_from buf 0 len) _ (rw (e, sr_send_packet) at h) in
      let c = copy_from-returns buf 0 len s.1 in
      let t = sent-some if_list buf name (packet_header ((len + 24) % 2 ^ 32) name ++ s.0) m s.2 in
      let g = matches-true if_list buf name t.1 in
      (
        ground arith,
        ground (arith, c),
        t.0 ∙ ap (λ b. packet_header ((len + 24) % 2 ^ 32) name ++ b) c.1,
        g,
      )
]
