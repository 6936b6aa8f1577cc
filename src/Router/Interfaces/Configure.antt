-- ===== src/Router/Interfaces/Configure.antt =====
-- Adding an interface and setting its addresses, as the hardware information of the server is
-- turned into the interface list.
use computer_networks.Prelude.{ℕ, ◌≡◌, List, [], ◌∷◌, ◌++◌, refl, ap, ◌>>=◌, returns, take}
use computer_networks.Router.Interfaces.{
  Interface, sr_iface_namelen, strncpy, sr_add_interface, sr_set_ether_addr, sr_set_ether_ip,
  update_last,
}

pub sr_add_interface-append :
    (garbage : Interface) (l : List Interface) (name : List ℕ)
    → sr_add_interface garbage l name
      ≡ l ++ record garbage { name = strncpy sr_iface_namelen name } ∷ []
unfolding sr_add_interface
sr_add_interface-append garbage [] name = refl
sr_add_interface-append garbage (i ∷ rest) name =
    ap (◌∷◌ i) (sr_add_interface-append garbage rest name)

pub update_last-append :
    (f : Interface → Interface) (l : List Interface) (i : Interface)
    → update_last f (l ++ i ∷ []) ≡ l ++ f i ∷ []
unfolding update_last
update_last-append f [] i = refl
update_last-append f (j ∷ []) i = refl
update_last-append f (j ∷ k ∷ rest) i = ap (◌∷◌ j) (update_last-append f (k ∷ rest) i)

pub sr_set_ether_addr-append :
    (l : List Interface) (i : Interface) (addr : List ℕ)
    → sr_set_ether_addr (l ++ i ∷ []) addr ≡ returns (l ++ record i { addr = addr } ∷ [])
unfolding sr_set_ether_addr
sr_set_ether_addr-append [] i addr = refl
sr_set_ether_addr-append (j ∷ rest) i addr =
    ap returns (update_last-append (λ k. record k { addr = addr }) (j ∷ rest) i)

pub sr_set_ether_ip-append :
    (l : List Interface) (i : Interface) (ip : ℕ)
    → sr_set_ether_ip (l ++ i ∷ []) ip ≡ returns (l ++ record i { ip = ip } ∷ [])
unfolding sr_set_ether_ip
sr_set_ether_ip-append [] i ip = refl
sr_set_ether_ip-append (j ∷ rest) i ip =
    ap returns (update_last-append (λ k. record k { ip = ip }) (j ∷ rest) i)

-- Adding an interface and setting both its addresses, in either order, appends one interface with
-- just that name, cut to 32 characters, and those addresses; the others stay as they are.
pub add_and_set :
    (garbage : Interface) (l : List Interface) (name addr : List ℕ) (ip : ℕ)
    → let l' = sr_add_interface garbage l name in
      let out =
        returns (l ++ record { name = take sr_iface_namelen name; addr = addr; ip = ip } ∷ []) in
      ((sr_set_ether_addr l' addr >>= λ m. sr_set_ether_ip m ip) ≡ out)
      × ((sr_set_ether_ip l' ip >>= λ m. sr_set_ether_addr m addr) ≡ out)
add_and_set garbage l name addr ip = rw (sr_add_interface-append garbage l name) (
  rw (sr_set_ether_addr-append l (record garbage { name = take sr_iface_namelen name }) addr)
      (sr_set_ether_ip-append l _ ip),
  rw (sr_set_ether_ip-append l (record garbage { name = take sr_iface_namelen name }) ip)
      (sr_set_ether_addr-append l _ addr),
)
