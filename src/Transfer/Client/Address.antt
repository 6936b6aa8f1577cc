-- ===== src/Transfer/Client/Address.antt =====
-- client.c: the address of the server, as the user gives it.
use computer_networks.Prelude.{
  ℕ, ◌%◌, ◌^◌, ◌<◌, ◌≡◌, ◌≢◌, refl, ap, ◌∙◌, [], ◌∷◌, ◌++◌, Option, none, some, true, leb, ==_of_ne,
  arith, All, returns, ◌>>=◌, Bytes,
}
use computer_networks.Prelude.Words.{swap16}
use computer_networks.Transfer.Numbers.{decimal}
use computer_networks.Transfer.Numbers.RoundTrip.{scan_int-decimal}
use computer_networks.Transfer.Client.{
  split_colon, scan_port, with_address, parse_parts, parse_address,
}

split_colon-append :
    (host rest : Bytes)
    → All (λ c. c ≢ 58) host
    → split_colon (host ++ 58 ∷ rest) ≡ (host, some rest)
unfolding split_colon
split_colon-append [] rest h = refl
split_colon-append (c ∷ host) rest h = rw (==_of_ne c 58 h.0, split_colon-append host rest h.1) refl

split_colon-none : (host : Bytes) → All (λ c. c ≢ 58) host → split_colon host ≡ (host, none)
unfolding split_colon
split_colon-none [] h = refl
split_colon-none (c ∷ host) h = rw (==_of_ne c 58 h.0, split_colon-none host h.1) refl

scan_port-decimal :
    (port : ℕ)
    → port < 2 ^ 32
    → scan_port (some (decimal port)) ≡ returns (some (swap16 (port % 2 ^ 16)))
unfolding scan_port
scan_port-decimal port h =
    let in_range : leb port 4294967295 ≡ true = ground arith in
    rw (scan_int-decimal port, scan_port) (rw in_range refl)

no_port : scan_port none ≡ returns (some 0)
unfolding scan_port
no_port = refl

-- "host:port" gives the address of the host and the port modulo 2^16, in network byte order; "host"
-- gives the port 0. The host has no colon, and the port is less than 2^32.
pub parse_address_lem :
    (inet_addr gethostbyname : Bytes → Option Bytes) (host : Bytes) (port : ℕ)
    → All (λ c. c ≢ 58) host
    → port < 2 ^ 32
    → (parse_address inet_addr gethostbyname (host ++ 58 ∷ decimal port)
        ≡ returns
            (with_address (inet_addr host) (gethostbyname host) (some (swap16 (port % 2 ^ 16)))))
      × (parse_address inet_addr gethostbyname host
          ≡ returns (with_address (inet_addr host) (gethostbyname host) (some 0)))
unfolding parse_address
parse_address_lem inet_addr gethostbyname host port h p = (
  ap (parse_parts inet_addr gethostbyname) (split_colon-append host (decimal port) h)
      ∙ ap (λ o. o >>= λ q. returns (with_address (inet_addr host) (gethostbyname host) q))
          (scan_port-decimal port p),
  ap (parse_parts inet_addr gethostbyname) (split_colon-none host h)
      ∙ ap (λ o. o >>= λ q. returns (with_address (inet_addr host) (gethostbyname host) q)) no_port,
)
