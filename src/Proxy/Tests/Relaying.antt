-- ===== src/Proxy/Tests/Relaying.antt =====
-- Runs of the proxy on small requests.
use computer_networks.Prelude.{
  ◌≡◌, refl, [], ◌∷◌, ◌++◌, none, some, true, false, take, arith, returns, Bytes, codes, bytes_eq,
}
use computer_networks.Prelude.Sockets.{got, closes, refuses, accepts, connect_first, recv_all}
use computer_networks.Proxy.{ParsedRequest}
use computer_networks.Proxy.Headers.{
  crlf, new_header, find, has_key, ParsedHeader_remove, append_header, ParsedHeader_set,
  split_colon, before_crlf, parse_value, ParsedHeader_parse,
}
use computer_networks.Proxy.Parse.{
  string_from, spn, cspn, strtok, has_prefix, take_version, split_line, make_path, finish_line,
  split_rest, parse_line, has_end, parse_headers, parse_text, ParsedRequest_parse,
}
use computer_networks.Proxy.Relay.{Network, has_crlf, has_get, forwarded, waits, client_helper}
use computer_networks.Proxy.Relay.Requests.{IsRequest, client_helper-closes, client_helper-forwards}

abbrev sent : Bytes
sent = codes "GET http://a/ HTTP/1.0" ++ crlf

abbrev empty : ParsedRequest
empty = record {
  method = none;
  protocol = none;
  host = none;
  port = none;
  path = none;
  version = none;
  buf = none;
  buflen = 0;
  headers = [];
  headerslen = 8;
}

abbrev net : Network
net = record {
  getaddrinfo = λ host port. some (refuses ∷ accepts ∷ []);
  send_fails = false;
  response = got (codes "HTTP") ∷ got (codes "/1.0 200") ∷ closes ∷ [];
}

abbrev parsed : ParsedRequest
parsed = record {
  method = some (codes "GET");
  protocol = some (codes "http");
  host = some (codes "a");
  port = none;
  path = some (codes "/");
  version = some (codes "HTTP/1.0");
  buf = some (
      codes "GET"
      ++ 0 ∷ (codes "http" ++ 0 ∷ (codes "//a" ++ 0 ∷ 0 ∷ (codes "HTTP/1.0" ++ 0 ∷ []))));
  buflen = 23;
  headers = [];
  headerslen = 8;
}

abbrev closing : ParsedRequest
closing = record parsed { headers = new_header (codes "Connection") (codes "close") ∷ [] }

abbrev whole : ParsedRequest
whole = record closing { headers = closing.headers ++ new_header (codes "Host") (codes "a") ∷ [] }

parses :
    ParsedRequest_parse (λ s. false) empty (take 26 (sent ++ crlf)) ≡ returns (some (true, parsed))
unfolding ParsedRequest_parse string_from parse_text has_end before_crlf parse_line split_line
    strtok spn cspn take_version has_prefix split_rest make_path finish_line parse_headers
    ParsedHeader_parse split_colon parse_value ParsedHeader_set ParsedHeader_remove find has_key
    append_header bytes_eq
parses = refl

sets_connection : ParsedHeader_set parsed (codes "Connection") (codes "close") ≡ returns closing
unfolding ParsedHeader_set ParsedHeader_remove find has_key append_header bytes_eq
sets_connection = refl

sets_host : ParsedHeader_set closing (codes "Host") (codes "a") ≡ returns whole
unfolding ParsedHeader_set ParsedHeader_remove find has_key append_header bytes_eq
sets_host = refl

ends : has_crlf sent ≡ true
unfolding before_crlf
ends = refl

sent-IsRequest : IsRequest [] sent
sent-IsRequest = record { pieces = tt; ends = ends; text = omega arith; short = omega arith }

gets : has_get (sent ++ crlf) ≡ true
unfolding has_get
gets = refl

connects : connect_first (refuses ∷ accepts ∷ []) ≡ true
unfolding connect_first
connects = refl

answers : recv_all net.response ≡ some (codes "HTTP/1.0 200")
unfolding recv_all
answers = refl

client_helper-forwards_example :
    client_helper (λ s. false) net empty (got sent ∷ [])
    ≡ returns (forwarded (codes "a") (codes "80") sent (codes "HTTP/1.0 200"))
client_helper-forwards_example =
    client_helper-forwards [] sent (λ s. false) net empty [] parsed closing whole (codes "a")
      (refuses ∷ accepts ∷ []) (codes "HTTP/1.0 200") sent-IsRequest gets parses sets_connection
      refl sets_host refl connects refl answers

no_end : has_crlf (codes "GET ") ≡ false
unfolding before_crlf
no_end = refl

client_helper-closes_example :
    client_helper (λ s. false) net empty (got (codes "GET ") ∷ closes ∷ closes ∷ closes ∷ [])
    ≡ returns waits
client_helper-closes_example =
    client_helper-closes (λ s. false) net empty (codes "GET " ∷ []) 3 (omega arith, no_end, tt)
