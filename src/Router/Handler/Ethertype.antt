-- ===== src/Router/Handler/Ethertype.antt =====
-- Which packets the handler takes for ARP or IP.
use computer_networks.Prelude.{ℕ, ◌<◌, ◌≡◌, ◌↔◌, ◌⊎◌, some, arith, get_elem?, returns, assert_fails}
use computer_networks.Router.Frame.{Bytes}
use computer_networks.Router.Handler.{Sr, PacketType, packet_type, sr_handlepacket}

-- A frame is taken for ARP exactly if its type bytes are 06 08, and for IP exactly if they are 00 08:
-- the reverse of how the types stand on the wire.
pub packet_type_iff :
    (packet : Bytes) (a b : ℕ)
    → a < 256
    → b < 256
    → get_elem? packet 12 ≡ some a
    → get_elem? packet 13 ≡ some b
    → ((packet_type packet ≡ returns PacketType.arp) ↔ ((a ≡ 0x06) × (b ≡ 0x08)))
      × ((packet_type packet ≡ returns PacketType.ip) ↔ ((a ≡ 0x00) × (b ≡ 0x08)))
unfolding packet_type
packet_type_iff packet a b ha hb ea eb =
    (((λ e. ground arith), (λ e. ground arith)), ((λ e. ground arith), (λ e. ground arith)))

packet_type_other :
    (packet : Bytes) (b : ℕ)
    → get_elem? packet 12 ≡ some 0x08
    → get_elem? packet 13 ≡ some b
    → (b ≡ 0x06) ⊎ (b ≡ 0x00)
    → packet_type packet ≡ returns PacketType.other
unfolding packet_type
packet_type_other packet b ea eb h = ground arith

-- Every frame whose type bytes are those of ARP (08 06) or of IP (08 00) fails the assertion at the
-- top of the handler, whatever else stands in it.
pub handlepacket_network :
    (now : ℕ) (sr : Sr) (packet : Bytes) (b : ℕ)
    → get_elem? packet 12 ≡ some 0x08
    → get_elem? packet 13 ≡ some b
    → (b ≡ 0x06) ⊎ (b ≡ 0x00)
    → sr_handlepacket now sr packet ≡ assert_fails
unfolding sr_handlepacket
handlepacket_network now sr packet b ea eb h =
    rw (packet_type_other packet b ea eb h, sr_handlepacket)
