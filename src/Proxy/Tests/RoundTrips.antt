-- ===== src/Proxy/Tests/RoundTrips.antt =====
-- A small request, written out and parsed again.
use computer_networks.Prelude.{
  ◌≡◌, refl, sym, ap, List, [], ◌∷◌, ◌++◌, Option, none, some, Bool, true, map, replicate, arith,
  returns, Bytes, codes, bytes_eq,
}
use computer_networks.Proxy.{String, ParsedRequest}
use computer_networks.Proxy.Headers.{find, has_key}
use computer_networks.Proxy.Headers.Lookup.{value_in, Distinct}
use computer_networks.Proxy.RequestLine.{ParsedRequest_unparse}
use computer_networks.Proxy.Parse.{ParsedRequest_parse}
use computer_networks.Proxy.Parse.HeaderLines.{header, SameLine}
use computer_networks.Proxy.Parse.RoundTrip.{parse-unparse}

abbrev headers : List (String × String)
headers = (codes "Host", codes "a") ∷ (codes "Via", codes "b") ∷ []

abbrev request : ParsedRequest
request = record {
  method = some (codes "GET");
  protocol = some (codes "http");
  host = some (codes "a");
  port = some (codes "80");
  path = some (codes "/x");
  version = some (codes "HTTP/1.0");
  buf = some [];
  buflen = 0;
  headers = map header headers;
  headerslen = 8;
}

abbrev fresh : ParsedRequest
fresh = record {
  method = none;
  protocol = none;
  host = none;
  port = none;
  path = none;
  version = none;
  buf = none;
  buflen = 0;
  headers = [];
  headerslen = 8;
}

abbrev buffer : Bytes
buffer = replicate 60 0

abbrev of : Option String → String
of none = []
of (some k) = k

keys-Distinct : Distinct (map header headers)
unfolding find has_key bytes_eq
keys-Distinct = (
  (λ k e. ap (λ o. find (header (codes "Via", codes "b") ∷ []) (of o)) (sym e)),
  ((λ k e. refl), tt),
)

parse-unparse_example :
    (out rest : Bytes) × (pr' : ParsedRequest) × (ParsedRequest_unparse request buffer 60
      ≡ returns (some (out ++ rest)))
    × (ParsedRequest_parse (λ s. Bool.false) fresh out ≡ returns (some (true, pr')))
    × SameLine request pr'
    × ((k : String) → value_in pr'.headers k ≡ value_in request.headers k)
parse-unparse_example =
    parse-unparse (λ s. Bool.false) (codes "GET") (codes "http") (codes "a") (codes "x")
      (codes "1.0") (some (codes "80")) headers request fresh buffer (ground arith) (ground arith)
      (ground arith) (ground arith) (ground arith) (ground arith) refl (ground arith) keys-Distinct
      (ground arith) (ground arith) (omega arith) (omega arith)
      (([], refl), refl, refl, refl, refl, refl) refl refl refl refl (omega arith)
