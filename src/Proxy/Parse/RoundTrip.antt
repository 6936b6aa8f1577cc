-- ===== src/Proxy/Parse/RoundTrip.antt =====
-- Writing a request out and parsing it again.
use mathlib.Core.List.{append_assoc, append-nil}
use computer_networks.Prelude.{
  ◌<◌, ◌≤◌, ◌≡◌, ◌≢◌, refl, sym, ap, subst, ◌∙◌, List, [], ◌∷◌, ◌++◌, map, Option, none, some, Bool,
  true, false, if◌then◌else◌, bytes_eq, bytes_eq_sound, Bool-cases, inl, inr, arith, All, drop,
  length, length-append, returns, Bytes,
}
use computer_networks.Proxy.{String, ParsedHeader, ParsedRequest}
use computer_networks.Proxy.Headers.{find, has_key, new_header, crlf}
use computer_networks.Proxy.Headers.Lookup.{
  value_in, value_at, Distinct, value_in-cons_hit, value_in-cons_miss,
}
use computer_networks.Proxy.Headers.Print.{HasValue, lines}
use computer_networks.Proxy.RequestLine.{
  Parts, Has, line, text, ParsedRequest_unparse, unparse-text,
}
use computer_networks.Proxy.Parse.{http_slash, is_bad, ParsedRequest_parse, max_req_len}
use computer_networks.Proxy.Parse.Tokens.{Clean}
use computer_networks.Proxy.Parse.Words.{IsWord, IsPort, IsTail}
use computer_networks.Proxy.Parse.HeaderLines.{IsHeader, header, SameLine, finally}
use computer_networks.Proxy.Parse.RequestText.{
  value_in-nil, line_text, request_text, parse-request_text,
}

-- The value of a key among headers, or else another.
abbrev or_else : Option String → Option String → Option String
or_else none old = old
or_else (some v) old = some v

missing : (hs : List ParsedHeader) (k : String) → find hs k ≡ none → value_in hs k ≡ none
missing hs k e = ap (value_at hs) e

has_key-new :
    (key value k : String) {b : Bool} → bytes_eq key k ≡ b → has_key (new_header key value) k ≡ b
unfolding has_key
has_key-new key value k e = e

or_else-none : (o : Option String) → or_else o none ≡ o
or_else-none none = refl
or_else-none (some v) = refl

-- With distinct keys the last value of a key is the first.
finally-value_in :
    (hs : List (String × String)) (old : String → Option String) (k : String)
    → Distinct (map header hs)
    → finally hs old k ≡ or_else (value_in (map header hs) k) (old k)
finally-value_in [] old k d = rw (value_in-nil k) refl
finally-value_in ((key, value) ∷ hs) old k d =
    let new = λ (j : String). if bytes_eq key j then some value else old j in
    let later = map header hs in
    finally-value_in hs new k d.1 ∙ elim (Bool-cases (bytes_eq key k)) [
      | inl e ↦
          let gone : find later k ≡ none =
            ap (find later) (sym (bytes_eq_sound key k e)) ∙ d.0 key refl in
          ap (λ x. or_else x (new k)) (missing later k gone)
          ∙ ap (λ c. if c then some value else old k) e
          ∙ ap (λ x. or_else x (old k))
              (sym (value_in-cons_hit (new_header key value) later k (has_key-new key value k e)))
      | inr e ↦
          ap (λ c. or_else (value_in later k) (if c then some value else old k)) e
          ∙ ap (λ x. or_else x (old k))
              (sym (value_in-cons_miss (new_header key value) later k (has_key-new key value k e)))
    ]

abbrev pub parts_of : String → String → String → String → String → Parts
parts_of method protocol host tail version = record {
  method = method;
  protocol = protocol;
  host = host;
  path = 47 ∷ tail;
  version = http_slash ++ version;
}

line-line_text :
    (method protocol host tail version : String) (port : Option String)
    → line (parts_of method protocol host tail version) port
      ≡ line_text method protocol host port tail version ++ crlf
line-line_text method protocol host tail version none = simp (append_assoc, append-nil)
line-line_text method protocol host tail version (some port) = simp (append_assoc, append-nil)

text-request_text :
    (method protocol host tail version : String) (port : Option String)
    (hs : List (String × String))
    → line (parts_of method protocol host tail version) port ++ (lines (map header hs) ++ crlf)
      ≡ request_text method protocol host port tail version hs
text-request_text method protocol host tail version port hs =
    ap (λ x. x ++ (lines (map header hs) ++ crlf))
      (line-line_text method protocol host tail version port)
    ∙ append_assoc (line_text method protocol host port tail version) crlf
        (lines (map header hs) ++ crlf)

headers-HasValue : (hs : List (String × String)) → All HasValue (map header hs)
headers-HasValue [] = tt
headers-HasValue ((key, value) ∷ hs) = ((λ k e. (value, refl)), headers-HasValue hs)

-- A request whose parts are all there is written out, and what is written is parsed again: the parts of the
-- line are the same, and every key has the value it had. The method, the protocol, the host and the port are
-- not empty and have no space, colon or slash; the path begins with just one slash and has no space; the
-- version begins with "HTTP/"; the keys are distinct, not empty and without a colon; there is no 0
-- anywhere, and no CR in the line, a key or a value; the text is at most 65535 bytes and fits the buffer;
-- `strtol` does not refuse the port (`is_bad`);
-- and the request that the parser fills is new.
pub parse-unparse :
    (bad_port : String → Bool) (method protocol host tail version : String) (port : Option String)
    (hs : List (String × String)) (pr fresh : ParsedRequest) (buf : Bytes)
    → IsWord method
    → IsWord protocol
    → IsWord host
    → IsPort port
    → IsTail tail
    → Clean [] version
    → is_bad bad_port port ≡ false
    → All IsHeader hs
    → Distinct (map header hs)
    → All (λ c. c ≢ 13) (line_text method protocol host port tail version)
    → Clean [] (request_text method protocol host port tail version hs)
    → length (request_text method protocol host port tail version hs) ≤ max_req_len
    → length (request_text method protocol host port tail version hs) ≤ length buf
    → Has pr (parts_of method protocol host tail version)
    → pr.port ≡ port
    → pr.headers ≡ map header hs
    → fresh.buf ≡ none
    → fresh.headers ≡ []
    → 0 < fresh.headerslen
    → (out rest : Bytes) × (pr' : ParsedRequest) × (ParsedRequest_unparse pr buf (length buf)
        ≡ returns (some (out ++ rest)))
      × (ParsedRequest_parse bad_port fresh out ≡ returns (some (true, pr')))
      × SameLine pr pr'
      × ((k : String) → value_in pr'.headers k ≡ value_in pr.headers k)
parse-unparse bad_port method protocol host tail version port hs pr fresh buf m p h o t v b ih d cr
      nul n fits has same_port same_headers fb fh fl =
    let parts = parts_of method protocol host tail version in
    let out = request_text method protocol host port tail version hs in
    let (pr', q, f, u) =
      parse-request_text bad_port method protocol host tail version port hs fresh m p h o t v b ih
        cr nul n fb fh fl in
    let whole : text parts pr ≡ out =
      ap (λ x. line parts x ++ (lines pr.headers ++ crlf)) same_port
      ∙ ap (λ x. line parts port ++ (lines x ++ crlf)) same_headers
      ∙ text-request_text method protocol host tail version port hs in
    let size = length-append (line parts pr.port) (lines pr.headers ++ crlf) in
    let size' = length-append (lines pr.headers) crlf in
    let same_size : length (text parts pr) ≡ length out = ap length whole in
    let written =
      unparse-text pr parts buf has
        (subst (λ x. All HasValue x) (sym same_headers) (headers-HasValue hs))
        (omega (arith, n, same_size, size, size')) (omega (arith, n, same_size, size, size'))
        (omega (arith, fits, same_size)) in
    (
      out,
      drop (length (text parts pr)) buf,
      pr',
      written.0 ∙ ap (λ x. returns (some (x ++ drop (length (text parts pr)) buf))) whole,
      q,
      (
        f.0 ∙ sym has.1,
        f.1 ∙ sym has.2,
        f.2 ∙ sym has.3,
        f.3 ∙ sym same_port,
        f.4 ∙ sym has.4,
        f.5 ∙ sym has.5,
      ),
      λ k.
          u k
          ∙ finally-value_in hs (λ j. none) k d
          ∙ or_else-none (value_in (map header hs) k)
          ∙ ap (λ x. value_in x k) (sym same_headers),
    )
