-- ===== src/Echo/Tests.antt =====
-- Runs of the client and the server on small inputs.
use computer_networks.Prelude.{
  ◌≡◌, ◌<◌, refl, inl, List, [], ◌∷◌, some, true, false, length, map, arith, codes,
}
use computer_networks.Prelude.Sockets.{refuses, accepts, connect_first, Address}
use computer_networks.Echo.{send_input, bind_first, server}
use computer_networks.Echo.Streams.{Visit, AllSent, connection, send_input-Short, server-clients}

abbrev visits : List Visit
visits =
    record { input = codes "ping"; sends = some 4 ∷ []; pieces = codes "pi" ∷ codes "ng" ∷ [] }
    ∷ record { input = []; sends = []; pieces = [] }
    ∷ []

abbrev own : List Address
own =
    record { socket_fails = false; setsockopt_fails = false; bind_fails = true }
    ∷ record { socket_fails = false; setsockopt_fails = false; bind_fails = false }
    ∷ []

binds : bind_first own ≡ true
unfolding bind_first
binds = refl

connects : connect_first (refuses ∷ accepts ∷ []) ≡ true
unfolding connect_first
connects = refl

server-clients_example :
    AllSent (refuses ∷ accepts ∷ []) visits
    × (server own (map connection visits) ≡ some (codes "ping"))
server-clients_example =
    server-clients own (refuses ∷ accepts ∷ []) visits binds connects
      (record { whole = (refl, tt); cut = refl }, (record { whole = tt; cut = refl }, tt))

sends_two : send_input (some 2 ∷ []) (codes "ping") ≡ some (codes "pi")
unfolding send_input
sends_two = refl

send_input-Short_example : length (codes "pi") < length (codes "ping")
send_input-Short_example =
    send_input-Short (some 2 ∷ []) (codes "ping") (inl (omega arith)) sends_two
