-- ===== src/Router/Interfaces.antt =====
-- Assignment2/src/router/sr_if.c: the router's list of interfaces.
-- The linked list is a list, in its order. A string is the list of its characters up to its
-- terminator, or up to the end of the array that holds it.
pub mod Find
pub mod Configure
use computer_networks.Prelude.{
  ℕ, zero, suc, List, [], ◌∷◌, ◌++◌, Option, none, some, Bool, true, false, if◌then◌else◌, ◌==◌,
  ◌&&◌, take, Outcome, returns, assert_fails, undefined, bytes_eq,
}

abbrev pub sr_iface_namelen : ℕ
sr_iface_namelen = 32

-- `struct sr_if`
pub record Interface : Type 0 where
  pub name : List ℕ
  pub addr : List ℕ
  pub ip : ℕ

-- `strncpy(dst, src, n)` into an array of n characters, read back as a string.
abbrev pub strncpy : ℕ → List ℕ → List ℕ
strncpy n src = take n src

-- `strncmp(a, b, n) == 0`
unfoldable pub strncmp_eq : ℕ → List ℕ → List ℕ → Bool
strncmp_eq zero a b = true
strncmp_eq (suc n) [] [] = true
strncmp_eq (suc n) [] (c ∷ b) = false
strncmp_eq (suc n) (c ∷ a) [] = false
strncmp_eq (suc n) (c ∷ a) (d ∷ b) = c == d && strncmp_eq n a b

unfoldable pub sr_get_interface : List Interface → List ℕ → Option Interface
sr_get_interface [] name = none
sr_get_interface (i ∷ rest) name =
    if strncmp_eq sr_iface_namelen i.name name then some i else sr_get_interface rest name

unfoldable pub get_interface_from_ip : List Interface → ℕ → Option Interface
get_interface_from_ip [] ip_address = none
get_interface_from_ip (i ∷ rest) ip_address =
    if ip_address == i.ip then some i else get_interface_from_ip rest ip_address

-- The inner loop compares the six bytes of the two addresses.
pub get_interface_from_eth : List Interface → List ℕ → Option Interface
get_interface_from_eth [] eth_address = none
get_interface_from_eth (i ∷ rest) eth_address =
    if bytes_eq i.addr eth_address then some i else get_interface_from_eth rest eth_address

-- `garbage` is what the allocated structure holds before it is written.
unfoldable pub sr_add_interface : Interface → List Interface → List ℕ → List Interface
sr_add_interface garbage [] name = record garbage { name = strncpy sr_iface_namelen name } ∷ []
sr_add_interface garbage (i ∷ rest) name = i ∷ sr_add_interface garbage rest name

-- The update of the last interface; the loop walks to it.
pub update_last : (Interface → Interface) → List Interface → List Interface
update_last f [] = []
update_last f (i ∷ []) = f i ∷ []
update_last f (i ∷ j ∷ rest) = i ∷ update_last f (j ∷ rest)

pub sr_set_ether_addr : List Interface → List ℕ → Outcome (List Interface)
unfolding update_last
sr_set_ether_addr [] addr = assert_fails
sr_set_ether_addr (i ∷ rest) addr = returns (update_last (λ j. record j { addr = addr }) (i ∷ rest))

pub sr_set_ether_ip : List Interface → ℕ → Outcome (List Interface)
unfolding update_last
sr_set_ether_ip [] ip_nbo = assert_fails
sr_set_ether_ip (i ∷ rest) ip_nbo = returns (update_last (λ j. record j { ip = ip_nbo }) (i ∷ rest))
