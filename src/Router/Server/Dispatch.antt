-- ===== src/Router/Server/Dispatch.antt =====
-- What the router does with a message.
use computer_networks.Prelude.{
  ℕ, ◌≡◌, ◌≢◌, ◌↔◌, refl, List, [], ◌∷◌, some, false, ◌==◌, arith, All, Option-cases, inl, inr,
  returns,
}
use computer_networks.Router.Interfaces.{Interface, sr_get_interface}
use computer_networks.Router.RoutingTable.{Route}
use computer_networks.Router.Frame.{Bytes}
use computer_networks.Router.Handler.{Sr}
use computer_networks.Router.Server.{
  Environment, fails, ntohl_at, vnsclose, missing_interfaces, sr_verify_routing_table, serve,
}

-- The route leaves through an interface that the router has.
abbrev pub HasInterface : List Interface → Route → Type 0
HasInterface if_list rt = (iface : Interface) × (sr_get_interface if_list rt.interface ≡ some iface)

missing-none :
    (if_list : List Interface) (routes : List Route)
    → missing_interfaces if_list routes ≡ 0
    → All (HasInterface if_list) routes
unfolding missing_interfaces
missing-none if_list [] e = tt
missing-none if_list (rt ∷ rest) e = elim (Option-cases (sr_get_interface if_list rt.interface)) [
  | inl n ↦ absurd (ground (arith, n))
  | inr (iface, s) ↦ ((iface, s), missing-none if_list rest (ground (arith, s)))
]

none-missing :
    (if_list : List Interface) (routes : List Route)
    → All (HasInterface if_list) routes
    → missing_interfaces if_list routes ≡ 0
unfolding missing_interfaces
none-missing if_list [] h = refl
none-missing if_list (rt ∷ rest) ((iface, s), h) = ground (arith, s, none-missing if_list rest h)

-- The routing table is found consistent with the hardware exactly if there are interfaces and routes, and
-- every route leaves through one of the interfaces.
pub sr_verify_routing_table_lem :
    (if_list : List Interface) (routes : List Route)
    → (sr_verify_routing_table if_list routes ≡ 0)
      ↔ ((if_list ≢ []) × (routes ≢ []) × All (HasInterface if_list) routes)
unfolding sr_verify_routing_table
sr_verify_routing_table_lem [] routes = ((λ e. absurd (ground arith)), (λ h. absurd (h.0 refl)))
sr_verify_routing_table_lem (i ∷ is) [] = ((λ e. absurd (ground arith)), (λ h. absurd (h.1 refl)))
sr_verify_routing_table_lem (i ∷ is) (rt ∷ rest) = (
  (λ e. ((λ q. cc), (λ q. cc), missing-none (i ∷ is) (rt ∷ rest) e)),
  (λ h. none-missing (i ∷ is) (rt ∷ rest) (h.2)),
)

-- A message other than the one that is expected changes nothing and fails, unless it closes the session.
pub serve-unexpected :
    (env : Environment) (sr : Sr) (buf : Bytes) (command : ℕ)
    → ntohl_at buf 4 ≡ returns command
    → env.expected_cmd ≢ 0
    → command ≢ env.expected_cmd
    → command ≢ vnsclose
    → serve env sr buf ≡ returns (fails sr)
unfolding serve
serve-unexpected env sr buf command e x n c =
    let f1 : (env.expected_cmd == 0) ≡ false = ground arith in
    let f2 : (command == env.expected_cmd) ≡ false = ground arith in
    let f3 : (command == vnsclose) ≡ false = ground arith in rw (e, serve) (rw (f1, f2, f3) refl)
