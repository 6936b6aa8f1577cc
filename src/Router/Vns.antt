-- ===== src/Router/Vns.antt =====
-- Assignment2/src/router/sr_vns_comm.c: the messages of the virtual network server that set up the
-- interfaces, the check of ARP requests, and the sending of a packet.
pub mod Hardware
pub mod Send
use computer_networks.Prelude.{
  ℕ, zero, suc, ◌+◌, ◌*◌, ◌/◌, ◌%◌, ◌^◌, List, [], ◌∷◌, ◌++◌, Option, none, some, Bool, true, false,
  if◌then◌else◌, ◌==◌, ◌&&◌, not, ltb, take, drop, length, replicate, Outcome, returns,
  assert_fails, assert, ◌>>=◌, ◌>>◌, bytes_eq,
}
use computer_networks.Prelude.Words.{swap16}
use computer_networks.Router.Interfaces.{
  Interface, sr_get_interface, sr_add_interface, sr_set_ether_addr, sr_set_ether_ip,
}
use computer_networks.Router.Frame.{
  Bytes, ethernet_hdr_size, arp_hdr_size, ether_addr_len, ethertype_arp, arp_op_request, read16,
  read32, copy_from, ether_shost, ether_type, ar_op, ar_tip,
}

abbrev pub vnspacket : ℕ
vnspacket = 4

abbrev pub hwinterface : ℕ
hwinterface = 1

abbrev pub hwether : ℕ
hwether = 32

abbrev pub hwethip : ℕ
hwethip = 64

-- `c_hw_entry`, its key in host order; the value has 32 bytes.
pub record HwEntry : Type 0 where
  pub key : ℕ
  pub value : Bytes

-- The string at the start of a buffer.
unfoldable pub c_string : Bytes → List ℕ
c_string [] = []
c_string (c ∷ rest) = if c == 0 then [] else c ∷ c_string rest

-- One round of the loop of `sr_handle_hwinfo`. The other keys are passed over.
unfoldable pub handle_entry : Interface → List Interface → HwEntry → Outcome (List Interface)
unfolding c_string
handle_entry garbage if_list e =
    if e.key == hwinterface
    then returns (sr_add_interface garbage if_list (c_string e.value))
    else if e.key == hwethip
    then (read32 e.value 0 >>= λ ip. sr_set_ether_ip if_list ip)
    else if e.key == hwether
    then (copy_from e.value 0 6 >>= λ addr. sr_set_ether_addr if_list addr)
    else returns if_list

-- `garbage` is what freshly allocated interfaces hold, by the number of entries that are left.
unfoldable pub sr_handle_hwinfo :
    (ℕ → Interface) → List Interface → List HwEntry → Outcome (List Interface)
unfolding handle_entry
sr_handle_hwinfo garbage if_list [] = returns if_list
sr_handle_hwinfo garbage if_list (e ∷ rest) =
    handle_entry (garbage (length rest)) if_list e >>= λ if_list'.
    sr_handle_hwinfo garbage if_list' rest

pub sr_ether_addrs_match_interface : List Interface → Bytes → List ℕ → Outcome Bool
sr_ether_addrs_match_interface if_list buf name = elim (sr_get_interface if_list name) [
  | none ↦ returns false
  | some iface ↦ do
    shost ← copy_from buf ether_shost ether_addr_len
    returns (bytes_eq shost iface.addr)
]

-- `htonl`, in memory.
abbrev pub network32 : ℕ → Bytes
network32 x = x / 16777216 % 256 ∷ x / 65536 % 256 ∷ x / 256 % 256 ∷ x % 256 ∷ []

-- `c_packet_header`: the length of the whole, the type, and the name padded to 16 characters.
pub packet_header : ℕ → List ℕ → Bytes
packet_header total_len iface =
    network32 total_len ++ (network32 vnspacket ++ take 16 (iface ++ replicate 16 0))

-- The test of the source address, behind which the packet is written.
pub send_if_matching : List Interface → Bytes → List ℕ → Bytes → Outcome (Option Bytes)
unfolding sr_ether_addrs_match_interface
send_if_matching if_list buf iface sr_pkt =
    sr_ether_addrs_match_interface if_list buf iface >>= λ matches.
    returns (if matches then some sr_pkt else none)

-- What is given to `write`, or none where the function returns -1 before that.
unfoldable pub sr_send_packet : List Interface → Bytes → ℕ → List ℕ → Outcome (Option Bytes)
unfolding packet_header send_if_matching
sr_send_packet if_list buf len iface =
    if ltb len ethernet_hdr_size
    then returns none
    else (copy_from buf 0 len >>= λ body.
        send_if_matching if_list buf iface (packet_header ((len + 24) % 2 ^ 32) iface ++ body))

pub sr_arp_req_not_for_us : List Interface → Bytes → ℕ → List ℕ → Outcome Bool
sr_arp_req_not_for_us if_list packet len interface =
    if ltb len (ethernet_hdr_size + arp_hdr_size)
    then returns false
    else elim (sr_get_interface if_list interface) [
      | none ↦ assert_fails
      | some iface ↦ do
        type ← read16 packet ether_type
        op ← read16 packet ar_op
        tip ← read32 packet ar_tip
        returns
            (type == swap16 ethertype_arp && op == swap16 arp_op_request && not (tip == iface.ip))
    ]
