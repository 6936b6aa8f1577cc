-- ===== src/Router/Frame.antt =====
-- Frames in memory: the structures of Assignment2/src/router/sr_protocol.h as places in a buffer of
-- bytes, on a little-endian host. An access outside the buffer is undefined.
use computer_networks.Prelude.{ℕ, ◌/◌, ◌%◌, [], ◌∷◌}
pub use computer_networks.Prelude.{Bytes, read8, read16, read32, copy_from, copy_to}

abbrev pub ethernet_hdr_size : ℕ
ethernet_hdr_size = 14

abbrev pub arp_hdr_size : ℕ
arp_hdr_size = 28

abbrev pub ip_hdr_size : ℕ
ip_hdr_size = 20

abbrev pub ether_addr_len : ℕ
ether_addr_len = 6

-- `enum sr_ethertype`, `enum sr_arp_opcode` and `enum sr_ip_protocol`
abbrev pub ethertype_arp : ℕ
ethertype_arp = 0x0806

abbrev pub ethertype_ip : ℕ
ethertype_ip = 0x0800

abbrev pub arp_op_request : ℕ
arp_op_request = 1

abbrev pub arp_op_reply : ℕ
arp_op_reply = 2

abbrev pub ip_protocol_icmp : ℕ
ip_protocol_icmp = 1

abbrev pub store32 : ℕ → Bytes
store32 x = x % 256 ∷ x / 256 % 256 ∷ x / 65536 % 256 ∷ x / 16777216 % 256 ∷ []

-- The places of the fields: `struct sr_ethernet_hdr`,
abbrev pub ether_dhost : ℕ
ether_dhost = 0

abbrev pub ether_shost : ℕ
ether_shost = 6

abbrev pub ether_type : ℕ
ether_type = 12

-- `struct sr_arp_hdr` behind it,
abbrev pub ar_hrd : ℕ
ar_hrd = 14

abbrev pub ar_pro : ℕ
ar_pro = 16

abbrev pub ar_op : ℕ
ar_op = 20

abbrev pub ar_sha : ℕ
ar_sha = 22

abbrev pub ar_sip : ℕ
ar_sip = 28

abbrev pub ar_tha : ℕ
ar_tha = 32

abbrev pub ar_tip : ℕ
ar_tip = 38

-- and `struct sr_ip_hdr` there.
abbrev pub ip_hdr : ℕ
ip_hdr = 14

abbrev pub ip_len : ℕ
ip_len = 16

abbrev pub ip_ttl : ℕ
ip_ttl = 22

abbrev pub ip_p : ℕ
ip_p = 23

abbrev pub ip_sum : ℕ
ip_sum = 24

abbrev pub ip_dst : ℕ
ip_dst = 30
