-- ===== src/Proxy/Tests/Parsing.antt =====
-- Runs of the parser on small requests.
use computer_networks.Prelude.{
  ◌≡◌, refl, List, [], ◌∷◌, Option, none, some, Bool, true, false, Outcome, returns, undefined,
  assert_fails, diverges, Bytes, bytes_eq,
}
use computer_networks.Proxy.{String, ParsedRequest}
use computer_networks.Proxy.Headers.{
  find, has_key, ParsedHeader_remove, append_header, ParsedHeader_set, split_colon, before_crlf,
  parse_value, ParsedHeader_parse,
}
use computer_networks.Proxy.Parse.{
  string_from, spn, cspn, strtok, has_prefix, take_version, split_line, make_path, finish_line,
  split_rest, parse_line, has_end, parse_headers, parse_text, ParsedRequest_parse,
}

-- "GET http://a:80/b HTTP/1.0", with the header "Host: a".
abbrev input : Bytes
input =
    71 ∷ 69 ∷ 84 ∷ 32 ∷ 104 ∷ 116 ∷ 116 ∷ 112 ∷ 58 ∷ 47 ∷ 47 ∷ 97 ∷ 58 ∷ 56 ∷ 48 ∷ 47 ∷ 98 ∷ 32 ∷ 72
    ∷ 84 ∷ 84 ∷ 80 ∷ 47 ∷ 49 ∷ 46 ∷ 48 ∷ 13 ∷ 10 ∷ 72 ∷ 111 ∷ 115 ∷ 116 ∷ 58 ∷ 32 ∷ 97 ∷ 13 ∷ 10
    ∷ 13 ∷ 10 ∷ []

abbrev empty : ParsedRequest
empty = record {
  method = none;
  protocol = none;
  host = none;
  port = none;
  path = none;
  version = none;
  buf = none;
  buflen = 0;
  headers = [];
  headerslen = 8;
}

abbrev parts : Outcome (Option (Bool × ParsedRequest)) → List (Option String)
parts (returns (some (true, pr))) =
    pr.method ∷ pr.protocol ∷ pr.host ∷ pr.port ∷ pr.path ∷ pr.version ∷ []
parts (returns (some (false, pr))) = []
parts (returns none) = []
parts assert_fails = []
parts undefined = []
parts diverges = []

parses :
    parts (ParsedRequest_parse (λ s. false) empty input)
    ≡ some (71 ∷ 69 ∷ 84 ∷ [])
      ∷ some (104 ∷ 116 ∷ 116 ∷ 112 ∷ [])
      ∷ some (97 ∷ [])
      ∷ some (56 ∷ 48 ∷ [])
      ∷ some (47 ∷ 98 ∷ [])
      ∷ some (72 ∷ 84 ∷ 84 ∷ 80 ∷ 47 ∷ 49 ∷ 46 ∷ 48 ∷ [])
      ∷ []
unfolding ParsedRequest_parse string_from parse_text has_end before_crlf parse_line split_line
    strtok spn cspn take_version has_prefix split_rest make_path finish_line parse_headers
    ParsedHeader_parse split_colon parse_value ParsedHeader_set ParsedHeader_remove find has_key
    append_header bytes_eq
parses = refl

refuses_short : ParsedRequest_parse (λ s. false) empty (71 ∷ []) ≡ returns (some (false, empty))
unfolding ParsedRequest_parse
refuses_short = refl
