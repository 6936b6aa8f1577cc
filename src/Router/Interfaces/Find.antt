-- ===== src/Router/Interfaces/Find.antt =====
-- The three searches of the interface list, against what they search for.
use computer_networks.Prelude.{
  ℕ, zero, suc, ◌≡◌, ◌↔◌, List, [], ◌∷◌, Option, none, some, Bool, true, false, arith, take, refl,
  bytes_eq, bytes_eq_sound, bytes_eq_refl, ◌==◌, ==_iff, if◌then◌else◌,
}
use computer_networks.Router.Interfaces.{
  Interface, sr_iface_namelen, strncmp_eq, sr_get_interface, get_interface_from_ip,
  get_interface_from_eth,
}

-- The first element of the list that has the property, if there is one.
pub data FirstWith (P : Interface → Type 0) : List Interface → Option Interface → Type 0 where
  nowhere : FirstWith P [] none
  here : {i : Interface} {rest : List Interface} → P i → FirstWith P (i ∷ rest) (some i)
  later :
      {i : Interface} {rest : List Interface} {r : Option Interface}
      → ¬ P i
      → FirstWith P rest r
      → FirstWith P (i ∷ rest) r

-- A test that decides the property, in front of a search of the rest.
FirstWith-if :
    (P : Interface → Type 0) (i : Interface) (rest : List Interface) {r : Option Interface}
    (b : Bool)
    → (b ≡ true) ↔ P i
    → FirstWith P rest r
    → FirstWith P (i ∷ rest) (if b then some i else r)
FirstWith-if P i rest true d h = here (d.0 refl)
FirstWith-if P i rest false d h = later (λ p. cc (d.1 p)) h

-- The search by IP address returns the first interface that has it, or NULL if none has.
pub get_interface_from_ip-FirstWith :
    (l : List Interface) (ip_address : ℕ)
    → FirstWith (λ i. ip_address ≡ i.ip) l (get_interface_from_ip l ip_address)
unfolding get_interface_from_ip
get_interface_from_ip-FirstWith [] ip_address = nowhere
get_interface_from_ip-FirstWith (i ∷ rest) ip_address =
    FirstWith-if _ i rest (ip_address == i.ip) (==_iff ip_address i.ip)
      (get_interface_from_ip-FirstWith rest ip_address)

-- The search by Ethernet address returns the first interface that has it, or NULL if none has.
pub get_interface_from_eth-FirstWith :
    (l : List Interface) (eth_address : List ℕ)
    → FirstWith (λ i. i.addr ≡ eth_address) l (get_interface_from_eth l eth_address)
unfolding get_interface_from_eth
get_interface_from_eth-FirstWith [] eth_address = nowhere
get_interface_from_eth-FirstWith (i ∷ rest) eth_address =
    FirstWith-if _ i rest (bytes_eq i.addr eth_address)
      (bytes_eq_sound i.addr eth_address, λ e. rw e (bytes_eq_refl eth_address))
      (get_interface_from_eth-FirstWith rest eth_address)

pub strncmp_eq_sound : (n : ℕ) (a b : List ℕ) → strncmp_eq n a b ≡ true → take n a ≡ take n b
unfolding strncmp_eq
strncmp_eq_sound zero a b h = refl
strncmp_eq_sound (suc n) [] [] h = refl
strncmp_eq_sound (suc n) [] (d ∷ b) h = cc
strncmp_eq_sound (suc n) (c ∷ a) [] h = cc
strncmp_eq_sound (suc n) (c ∷ a) (d ∷ b) h = ground (arith, strncmp_eq_sound n a b)

pub strncmp_eq_complete : (n : ℕ) (a b : List ℕ) → take n a ≡ take n b → strncmp_eq n a b ≡ true
unfolding strncmp_eq
strncmp_eq_complete zero a b h = refl
strncmp_eq_complete (suc n) [] [] h = refl
strncmp_eq_complete (suc n) [] (d ∷ b) h = cc
strncmp_eq_complete (suc n) (c ∷ a) [] h = cc
strncmp_eq_complete (suc n) (c ∷ a) (d ∷ b) h = ground (arith, strncmp_eq_complete n a b)

-- The search by name returns the first interface whose name agrees with the wanted one in the
-- first 32 characters, or NULL if none does.
pub sr_get_interface-FirstWith :
    (l : List Interface) (name : List ℕ)
    → FirstWith
        (λ i. take sr_iface_namelen i.name ≡ take sr_iface_namelen name)
        l
        (sr_get_interface l name)
unfolding sr_get_interface
sr_get_interface-FirstWith [] name = nowhere
sr_get_interface-FirstWith (i ∷ rest) name =
    FirstWith-if _ i rest (strncmp_eq sr_iface_namelen i.name name)
      (
        strncmp_eq_sound sr_iface_namelen i.name name,
        strncmp_eq_complete sr_iface_namelen i.name name,
      )
      (sr_get_interface-FirstWith rest name)
