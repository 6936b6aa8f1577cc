-- ===== src/Proxy/Tests.antt =====
-- Runs of the request library on small inputs.
mod Parsing
mod Relaying
mod RoundTrips
use computer_networks.Prelude.{
  ◌≡◌, ◌≢◌, [], ◌∷◌, ◌++◌, some, refl, returns, length, drop, replicate, arith, Bytes,
}
use computer_networks.Proxy.{String, ParsedRequest}
use computer_networks.Proxy.Headers.{find, new_header, ParsedHeader_set}
use computer_networks.Proxy.Headers.Lookup.{value_in}
use computer_networks.Proxy.Headers.MapView.{Ready, ParsedHeader_set_lem}
use computer_networks.Proxy.RequestLine.{
  Parts, text, ParsedRequest_unparse, ParsedRequest_total_len, unparse-text,
}

-- "Host" and "a".
abbrev host : String
host = 72 ∷ 111 ∷ 115 ∷ 116 ∷ []

abbrev a : String
a = 97 ∷ []

abbrev parts : Parts
parts = record {
  method = 71 ∷ 69 ∷ 84 ∷ [];
  protocol = 104 ∷ 116 ∷ 116 ∷ 112 ∷ [];
  host = a;
  path = 47 ∷ [];
  version = 72 ∷ 84 ∷ 84 ∷ 80 ∷ 47 ∷ 49 ∷ 46 ∷ 48 ∷ [];
}

abbrev request : ParsedRequest
request = record {
  method = some parts.method;
  protocol = some parts.protocol;
  host = some parts.host;
  port = some (56 ∷ 48 ∷ []);
  path = some parts.path;
  version = some parts.version;
  buf = some [];
  buflen = 1;
  headers = new_header host a ∷ [];
  headerslen = 8;
}

request-Ready : Ready request
unfolding find
request-Ready = (omega arith, ((λ k e. refl), tt))

ParsedHeader_set_lem_example :
    (pr' : ParsedRequest) × (ParsedHeader_set request host (98 ∷ []) ≡ returns pr')
    × (value_in pr'.headers host ≡ some (98 ∷ []))
    × ((k : String) → k ≢ host → value_in pr'.headers k ≡ value_in request.headers k)
    × Ready pr'
ParsedHeader_set_lem_example =
    ParsedHeader_set_lem request host (98 ∷ []) request-Ready (omega arith)

abbrev buffer : Bytes
buffer = replicate 50 0

unparse-text_example :
    (ParsedRequest_unparse request buffer 50
      ≡ returns (some (text parts request ++ drop (length (text parts request)) buffer)))
    × (ParsedRequest_total_len request ≡ returns (length (text parts request)))
unparse-text_example =
    unparse-text request parts buffer (([], refl), refl, refl, refl, refl, refl)
      ((λ k e. (a, refl)), tt) (omega arith) (omega arith) (omega arith)
