-- ===== src/Router/Vns/Hardware.antt =====
-- The hardware information of the server, turned into the interface list.
use mathlib.Core.List.{append_assoc, append-nil}
use computer_networks.Prelude.{
  ℕ, suc, ◌+◌, ◌*◌, ◌≡◌, ◌≢◌, List, [], ◌∷◌, ◌++◌, arith, refl, returns, >>=-eq-returns, ◌>>=◌,
  take, length, map, All, sym, ap, ◌∙◌, ==_of_ne,
}
use computer_networks.Router.Interfaces.{
  Interface, sr_iface_namelen, sr_add_interface, sr_set_ether_addr, sr_set_ether_ip,
}
use computer_networks.Router.Interfaces.Configure.{add_and_set}
use computer_networks.Router.Frame.{Bytes, copy_from}
use computer_networks.Router.Vns.{
  HwEntry, hwinterface, hwether, hwethip, c_string, handle_entry, sr_handle_hwinfo,
}

-- What the server says of one interface: its name, its Ethernet address and its IP address. Each
-- value is filled up by bytes that mean nothing.
pub record Config : Type 0 where
  pub name : List ℕ
  pub addr : ℕ × ℕ × ℕ × ℕ × ℕ × ℕ
  pub ip : ℕ × ℕ × ℕ × ℕ
  pub pad : Bytes

abbrev addr_bytes : ℕ × ℕ × ℕ × ℕ × ℕ × ℕ → Bytes
addr_bytes (a, b, c, d, e, f) = a ∷ b ∷ c ∷ d ∷ e ∷ f ∷ []

abbrev pub ip_number : ℕ × ℕ × ℕ × ℕ → ℕ
ip_number (a, b, c, d) = a + 256 * b + 65536 * (c + 256 * d)

abbrev pub entries : Config → List HwEntry → List HwEntry
entries c more =
    record { key = hwinterface; value = c.name ++ 0 ∷ c.pad }
    ∷ record { key = hwether; value = addr_bytes c.addr ++ c.pad }
    ∷ record { key = hwethip; value = c.ip.0 ∷ c.ip.1 ∷ c.ip.2 ∷ c.ip.3 ∷ c.pad }
    ∷ more

abbrev pub all_entries : List Config → List HwEntry
all_entries [] = []
all_entries (c ∷ cs) = entries c (all_entries cs)

abbrev pub configured : Config → Interface
configured c = record {
  name = take sr_iface_namelen c.name;
  addr = addr_bytes c.addr;
  ip = ip_number c.ip;
}

c_string-append : (name pad : List ℕ) → All (λ c. c ≢ 0) name → c_string (name ++ 0 ∷ pad) ≡ name
unfolding c_string
c_string-append [] pad h = refl
c_string-append (c ∷ name) pad h = rw (==_of_ne c 0 h.0, c_string-append name pad h.1)

copy_addr :
    (m : ℕ × ℕ × ℕ × ℕ × ℕ × ℕ) (pad : Bytes)
    → copy_from (addr_bytes m ++ pad) 0 6 ≡ returns (addr_bytes m)
copy_addr (a, b, c, d, e, f) pad = ground arith

handle_interface :
    (garbage : Interface) (l : List Interface) (c : Config)
    → All (λ x. x ≢ 0) c.name
    → handle_entry garbage l (record { key = hwinterface; value = c.name ++ 0 ∷ c.pad })
      ≡ returns (sr_add_interface garbage l c.name)
unfolding handle_entry
handle_interface garbage l c h =
    ap (λ n. returns (sr_add_interface garbage l n)) (c_string-append c.name c.pad h)

handle_ether :
    (garbage : Interface) (l : List Interface) (c : Config)
    → handle_entry garbage l (record { key = hwether; value = addr_bytes c.addr ++ c.pad })
      ≡ sr_set_ether_addr l (addr_bytes c.addr)
unfolding handle_entry
handle_ether garbage l c = ap (λ o. o >>= λ addr. sr_set_ether_addr l addr) (copy_addr c.addr c.pad)

handle_ip :
    (garbage : Interface) (l : List Interface) (c : Config)
    → handle_entry garbage l
        (record { key = hwethip; value = c.ip.0 ∷ c.ip.1 ∷ c.ip.2 ∷ c.ip.3 ∷ c.pad })
      ≡ sr_set_ether_ip l (ip_number c.ip)
unfolding handle_entry
handle_ip garbage l c = refl

-- One round of the loop, when it is known what it comes to.
round :
    (garbage : ℕ → Interface) (l l' : List Interface) (e : HwEntry) (more : List HwEntry)
    → handle_entry (garbage (length more)) l e ≡ returns l'
    → sr_handle_hwinfo garbage l (e ∷ more) ≡ sr_handle_hwinfo garbage l' more
unfolding sr_handle_hwinfo
round garbage l l' e more h = ap (λ o. o >>= λ m. sr_handle_hwinfo garbage m more) h

handle_config :
    (garbage : ℕ → Interface) (l : List Interface) (c : Config) (more : List HwEntry)
    → All (λ x. x ≢ 0) c.name
    → sr_handle_hwinfo garbage l (entries c more)
      ≡ sr_handle_hwinfo garbage (l ++ configured c ∷ []) more
handle_config garbage l c more h =
    let added = sr_add_interface (garbage (suc (suc (length more)))) l c.name in
    let s =
      (add_and_set (garbage (suc (suc (length more)))) l c.name (addr_bytes c.addr)
        (ip_number c.ip)).0 in
    let t = >>=-eq-returns (sr_set_ether_addr added (addr_bytes c.addr)) _ s in
    round garbage l added _ _ (handle_interface (garbage (suc (suc (length more)))) l c h)
    ∙ round garbage added t.0 _ _ (handle_ether (garbage (suc (length more))) added c ∙ t.1)
    ∙ round garbage t.0 (l ++ configured c ∷ []) _ _ (handle_ip (garbage (length more)) t.0 c ∙ t.2)

-- The entries of any number of interfaces, three for each, append these interfaces to the list in
-- their order, each with its name, cut to 32 characters, and its own two addresses, whatever the
-- memory held that was allocated for them.
pub hwinfo_builds :
    (garbage : ℕ → Interface) (l : List Interface) (cs : List Config)
    → All (λ c. All (λ x. x ≢ 0) c.name) cs
    → sr_handle_hwinfo garbage l (all_entries cs) ≡ returns (l ++ map configured cs)
unfolding sr_handle_hwinfo
hwinfo_builds garbage l [] h = ap returns (sym (append-nil l))
hwinfo_builds garbage l (c ∷ cs) h =
    handle_config garbage l c (all_entries cs) h.0
    ∙ hwinfo_builds garbage (l ++ configured c ∷ []) cs h.1
    ∙ ap returns (append_assoc l (configured c ∷ []) (map configured cs))
