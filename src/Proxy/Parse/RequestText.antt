-- ===== src/Proxy/Parse/RequestText.antt =====
-- The text of a whole request, and what the parser makes of it.
use mathlib.Core.List.{append_assoc, append-nil}
use mathlib.Core.Path.{fun_ext}
use computer_networks.Prelude.{
  ℕ, suc, ◌+◌, ◌<◌, ◌≤◌, ◌≡◌, ◌≢◌, refl, sym, ap, ◌∙◌, List, [], ◌∷◌, ◌++◌, map, Option, none, some,
  Bool, true, false, ◌||◌, ltb, if◌then◌else◌, arith, All, drop-prefix, length, length-append,
  returns, ◌>>=◌, Bytes,
}
use computer_networks.Proxy.{String, ParsedRequest}
use computer_networks.Proxy.Headers.{find, crlf}
use computer_networks.Proxy.Headers.Line.{before_crlf-append}
use computer_networks.Proxy.Headers.Lookup.{value_in}
use computer_networks.Proxy.Headers.Print.{lines}
use computer_networks.Proxy.RequestLine.{line}
use computer_networks.Proxy.Parse.{
  http_slash, is_bad, string_from, has_end, parse_line, parse_headers, parse_text,
  ParsedRequest_parse, min_req_len, max_req_len,
}
use computer_networks.Proxy.Parse.Tokens.{Clean, string_from-Clean}
use computer_networks.Proxy.Parse.Words.{IsWord, IsPort, IsTail, port_text}
use computer_networks.Proxy.Parse.Finish.{parts}
use computer_networks.Proxy.Parse.LineText.{parse_line-text}
use computer_networks.Proxy.Parse.HeaderLines.{
  IsHeader, header, parsed, parse_headers-lines, SameLine, finally, set_all-finally,
}

abbrev pub line_text : String → String → String → Option String → String → String → Bytes
line_text method protocol host port tail version =
    method
    ++ 32
      ∷ ((protocol ++ 58 ∷ 47 ∷ 47 ∷ ((host ++ port_text port) ++ 47 ∷ tail))
          ++ 32 ∷ (http_slash ++ version))

parse_line-words :
    (bad_port : String → Bool) (method protocol host tail version : String) (port : Option String)
    → IsWord method
    → IsWord protocol
    → IsWord host
    → IsPort port
    → IsTail tail
    → Clean [] version
    → is_bad bad_port port ≡ false
    → (mem : Bytes) × (parse_line bad_port (line_text method protocol host port tail version)
        ≡ returns (some (parts method protocol host port (47 ∷ tail) (http_slash ++ version) mem)))
parse_line-words bad_port [] protocol host tail version port m p h o t v b = elim m [ ]
parse_line-words bad_port (c ∷ cs) [] host tail version port m p h o t v b = elim p [ ]
parse_line-words bad_port (c ∷ cs) (d ∷ ds) [] tail version port m p h o t v b = elim h [ ]
parse_line-words bad_port (c ∷ cs) (d ∷ ds) (e ∷ es) tail version port m p h o t v b =
    parse_line-text bad_port c cs d ds e es port tail version m p h o t v b

has_end-cons : (a : ℕ) (rest : String) → has_end rest ≡ true → has_end (a ∷ rest) ≡ true
unfolding has_end
has_end-cons a [] h = cc h
has_end-cons a (b ∷ []) h = cc h
has_end-cons a (b ∷ c ∷ []) h = cc h
has_end-cons a (b ∷ c ∷ d ∷ more) h = ground (arith, h)

has_end-append : (s : String) → has_end (s ++ (crlf ++ crlf)) ≡ true
has_end-append [] = unfold has_end in refl
has_end-append (a ∷ s) = has_end-cons a (s ++ (crlf ++ crlf)) (has_end-append s)

lines-end :
    (hs : List (String × String))
    → (s : String) × (crlf ++ (lines (map header hs) ++ crlf) ≡ s ++ (crlf ++ crlf))
lines-end [] = ([], refl)
lines-end ((key, value) ∷ hs) =
    let (s, q) = lines-end hs in
    (
      crlf ++ (key ++ (58 ∷ 32 ∷ (value ++ s))),
      (simp (append_assoc, append-nil))
          ∙ ap (λ x. crlf ++ (key ++ (58 ∷ 32 ∷ (value ++ x)))) q
          ∙ (simp append_assoc),
    )

parse_text_lem :
    (bad_port : String → Bool) (pr l : ParsedRequest) (line rest : String)
    → All (λ c. c ≢ 13) line
    → has_end (line ++ (crlf ++ rest)) ≡ true
    → parse_line bad_port line ≡ returns (some l)
    → parse_text bad_port pr (line ++ (crlf ++ rest))
      ≡ parse_headers
          (suc (length (line ++ (crlf ++ rest))))
          (record l { headers = pr.headers; headerslen = pr.headerslen })
          rest
unfolding parse_text
parse_text_lem bad_port pr l line rest n e p =
    rw (e, parse_text)
      (rw (before_crlf-append line rest n) (
        rw p (
          ap
            (parse_headers (suc (length (line ++ (crlf ++ rest))))
              (record l { headers = pr.headers; headerslen = pr.headerslen }))
            (drop-prefix line (crlf ++ rest) (length line + 2) 2 (omega arith)))))

parse_lem :
    (bad_port : String → Bool) (pr : ParsedRequest) (buf : Bytes)
    → pr.buf ≡ none
    → 4 ≤ length buf
    → length buf ≤ max_req_len
    → Clean [] buf
    → ParsedRequest_parse bad_port pr buf ≡ parse_text bad_port pr buf
unfolding ParsedRequest_parse
parse_lem bad_port pr buf b n x c =
    let long : ltb (length buf) 4 ≡ false = ground arith in
    let short : ltb 65535 (length buf) ≡ false = ground arith in
    let read = string_from (buf ++ 0 ∷ []) >>= λ text. parse_text bad_port pr text in
    ap
      (λ o. elim o [
        | some b ↦ returns (some (false, pr))
        | none ↦
            if ltb (length buf) min_req_len || ltb max_req_len (length buf)
            then returns (some (false, pr))
            else read
      ])
      b
    ∙ ap (λ t. if t || ltb 65535 (length buf) then returns (some (false, pr)) else read) long
    ∙ ap (λ t. if t then returns (some (false, pr)) else read) short
    ∙ ap (λ o. o >>= λ text. parse_text bad_port pr text) (string_from-Clean [] buf [] c)

-- The text of a request, with its line apart.
abbrev pub request_text :
    String → String → String → Option String → String → String → List (String × String) → Bytes
request_text method protocol host port tail version hs =
    line_text method protocol host port tail version ++ (crlf ++ (lines (map header hs) ++ crlf))

length-lines : (hs : List (String × String)) → length hs ≤ length (lines (map header hs))
length-lines [] = omega arith
length-lines ((key, value) ∷ hs) =
    let rest = lines (map header hs) in
    let first = key ++ (58 ∷ 32 ∷ (value ++ (crlf ++ []))) in
    omega (
      arith,
      length-lines hs,
      length-append first rest,
      length-append key (58 ∷ 32 ∷ (value ++ (crlf ++ []))),
    )

pub value_in-nil : (k : String) → value_in [] k ≡ none
unfolding find
value_in-nil k = refl

-- The parser finds the parts of the line, and sets the headers in their order.
pub parse-request_text :
    (bad_port : String → Bool) (method protocol host tail version : String) (port : Option String)
    (hs : List (String × String)) (pr : ParsedRequest)
    → IsWord method
    → IsWord protocol
    → IsWord host
    → IsPort port
    → IsTail tail
    → Clean [] version
    → is_bad bad_port port ≡ false
    → All IsHeader hs
    → All (λ c. c ≢ 13) (line_text method protocol host port tail version)
    → Clean [] (request_text method protocol host port tail version hs)
    → length (request_text method protocol host port tail version hs) ≤ max_req_len
    → pr.buf ≡ none
    → pr.headers ≡ []
    → 0 < pr.headerslen
    → (pr' : ParsedRequest) × (ParsedRequest_parse bad_port pr
          (request_text method protocol host port tail version hs)
        ≡ returns (some (true, pr')))
      × SameLine (parts method protocol host port (47 ∷ tail) (http_slash ++ version) []) pr'
      × ((k : String) → value_in pr'.headers k ≡ finally hs (λ k. none) k)
parse-request_text bad_port method protocol host tail version port hs pr m p h o t v b ih cr nul n
      none_buf none_headers room =
    let line = line_text method protocol host port tail version in
    let rest = lines (map header hs) ++ crlf in
    let whole = line ++ (crlf ++ rest) in
    let (mem, q) = parse_line-words bad_port method protocol host tail version port m p h o t v b in
    let l = parts method protocol host port (47 ∷ tail) (http_slash ++ version) mem in
    let start : ParsedRequest = record l { headers = []; headerslen = pr.headerslen } in
    let size = length-append line (crlf ++ rest) in
    let size' = length-append (lines (map header hs)) crlf in
    let few = length-lines hs in
    let (s, e) = lines-end hs in
    let ends : has_end whole ≡ true =
      ap has_end (ap (λ x. line ++ x) e ∙ sym (append_assoc line s (crlf ++ crlf)))
      ∙ has_end-append (line ++ s) in
    let (pr', a, f, u) = set_all-finally hs start (room, tt) (omega (arith, n, size, size', few)) in
    (
      pr',
      parse_lem bad_port pr whole none_buf (omega (arith, size, size')) n nul
          ∙ parse_text_lem bad_port pr l line rest cr ends q
          ∙ ap
              (λ x.
                parse_headers (suc (length whole))
                  (record l { headers = x; headerslen = pr.headerslen }) rest)
              none_headers
          ∙ parse_headers-lines hs (suc (length whole)) start ih (omega (arith, size, size', few))
          ∙ ap parsed a,
      f,
      λ k. u k ∙ ap (λ g. finally hs g k) (fun_ext λ j. value_in-nil j),
    )
