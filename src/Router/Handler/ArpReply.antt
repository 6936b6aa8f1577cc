-- ===== src/Router/Handler/ArpReply.antt =====
-- The reply to an ARP request, field by field.
use computer_networks.Prelude.{ℕ, ◌≡◌, List, [], ◌∷◌, ◌++◌, returns}
use computer_networks.Router.Interfaces.{Interface}
use computer_networks.Router.Frame.{Bytes, store32}
use computer_networks.Router.Handler.{make_reply}

-- Six bytes, and four.
abbrev pub Mac : Type 0
Mac = ℕ × ℕ × ℕ × ℕ × ℕ × ℕ

abbrev pub mac_bytes : Mac → Bytes
mac_bytes (a, b, c, d, e, f) = a ∷ b ∷ c ∷ d ∷ e ∷ f ∷ []

abbrev pub Ip : Type 0
Ip = ℕ × ℕ × ℕ × ℕ

abbrev pub ip_bytes : Ip → Bytes
ip_bytes (a, b, c, d) = a ∷ b ∷ c ∷ d ∷ []

-- An Ethernet frame that carries an ARP packet.
abbrev pub arp_frame : Mac → Mac → List ℕ → Mac → Bytes → Mac → Bytes → Bytes
arp_frame dhost shost middle sha sip tha tip =
    mac_bytes dhost
    ++ (mac_bytes shost ++ (middle ++ (mac_bytes sha ++ (sip ++ (mac_bytes tha ++ tip)))))

-- The reply that is made of a request goes from the interface asked for to the sender of the frame,
-- and names that interface as its sender. As its target it names that interface once more, and not
-- the host that asked: the request's own sender fields are overwritten before they are copied.
pub make_reply_lem :
    (dhost shost sha tha addr : Mac) (sip tip : Ip)
    (ty0 ty1 hrd0 hrd1 pro0 pro1 hln pln op0 op1 : ℕ) (target : Interface)
    → target.addr ≡ mac_bytes addr
    → let middle = ty0 ∷ ty1 ∷ hrd0 ∷ hrd1 ∷ pro0 ∷ pro1 ∷ hln ∷ pln ∷ op0 ∷ op1 ∷ [] in
      make_reply (arp_frame dhost shost middle sha (ip_bytes sip) tha (ip_bytes tip)) target
      ≡ returns (
          arp_frame shost addr
            (0x08 ∷ 0x06 ∷ 0 ∷ 1 ∷ 0x08 ∷ 0x00 ∷ hln ∷ pln ∷ 0 ∷ 2 ∷ [])
            addr
            (store32 target.ip)
            addr
            (store32 target.ip))
unfolding make_reply
make_reply_lem dhost shost sha tha addr sip tip ty0 ty1 hrd0 hrd1 pro0 pro1 hln pln op0 op1 target
      e =
    rw e
