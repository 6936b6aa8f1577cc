-- ===== src/Proxy/RequestLine.antt =====
-- Assignment1/starter_code/proxy_parse.c: the request line, and the whole request written out.
use computer_networks.Prelude.{
  ℕ, ◌+◌, ◌-◌, ◌≤◌, ◌<◌, ◌%◌, ◌^◌, ◌≡◌, ap, ◌∙◌, List, [], ◌∷◌, ◌++◌, Option, none, some, false,
  if◌then◌else◌, ltb, length, length-append, drop, length-drop, Outcome, returns, ◌>>=◌, arith, All,
  Bytes, copy_all, concat, copy_all-append, append_after,
}
use computer_networks.Proxy.{String, ParsedRequest}
use computer_networks.Proxy.Headers.{
  read_string, ParsedHeader_headers_len, ParsedHeader_print_headers, crlf,
}
use computer_networks.Proxy.Headers.Print.{HasValue, lines, headers_len-length, print_headers-text}

-- The length of ":port", where there is a port.
abbrev port_len : Option String → ℕ
port_len none = 0
port_len (some p) = length p + 1

pub ParsedRequest_request_line_len : ParsedRequest → Outcome ℕ
ParsedRequest_request_line_len pr = elim pr.buf [
  | none ↦ returns 0
  | some b ↦ do
    method ← read_string pr.method
    protocol ← read_string pr.protocol
    host ← read_string pr.host
    version ← read_string pr.version
    path ← read_string pr.path
    returns (
        (length method
          + 1
          + length protocol
          + 3
          + length host
          + 1
          + length version
          + 2
          + port_len pr.port
          + length path)
        % 2 ^ 64)
]

abbrev port_chunks : Option String → List Bytes
port_chunks none = []
port_chunks (some p) = (58 ∷ []) ∷ p ∷ []

-- What is copied into the buffer, piece by piece.
abbrev chunks : String → String → String → Option String → String → String → List Bytes
chunks method protocol host port path version =
    method
    ∷ (32 ∷ [])
    ∷ protocol
    ∷ (58 ∷ 47 ∷ 47 ∷ [])
    ∷ host
    ∷ (port_chunks port ++ path ∷ (32 ∷ []) ∷ version ∷ crlf ∷ [])

-- The buffer and the number of bytes written.
pub print_pieces : ParsedRequest → Bytes → ℕ → Outcome (Bytes × ℕ)
print_pieces pr buf current = do
  method ← read_string pr.method
  protocol ← read_string pr.protocol
  host ← read_string pr.host
  path ← read_string pr.path
  version ← read_string pr.version
  buf ← copy_all buf current (chunks method protocol host pr.port path version)
  returns (buf, length (concat (chunks method protocol host pr.port path version)))

-- None where -1 is returned. `current` is the place of the line in the buffer.
pub ParsedRequest_print_request_line : ParsedRequest → Bytes → ℕ → ℕ → Outcome (Option (Bytes × ℕ))
unfolding ParsedRequest_request_line_len print_pieces
ParsedRequest_print_request_line pr buf current buflen =
    ParsedRequest_request_line_len pr >>= λ needed.
    if ltb buflen needed
    then returns none
    else (print_pieces pr buf current >>= λ out. returns (some out))

pub ParsedRequest_total_len : ParsedRequest → Outcome ℕ
unfolding ParsedRequest_request_line_len
ParsedRequest_total_len pr = elim pr.buf [
  | none ↦ returns 0
  | some b ↦ do
    first ← ParsedRequest_request_line_len pr
    rest ← ParsedHeader_headers_len pr
    returns ((first + rest) % 2 ^ 64)
]

-- The buffer, or none where -1 is returned.
pub ParsedRequest_unparse_headers : ParsedRequest → Bytes → ℕ → Outcome (Option Bytes)
ParsedRequest_unparse_headers pr buf buflen = elim pr.buf [
  | none ↦ returns none
  | some b ↦ ParsedHeader_print_headers pr buf 0 buflen
]

-- `ParsedRequest_unparse` behind the request line.
pub unparse_rest : ParsedRequest → ℕ → Option (Bytes × ℕ) → Outcome (Option Bytes)
unparse_rest pr buflen none = returns none
unparse_rest pr buflen (some out) = ParsedHeader_print_headers pr out.0 out.1 (buflen - out.1)

pub ParsedRequest_unparse : ParsedRequest → Bytes → ℕ → Outcome (Option Bytes)
unfolding ParsedRequest_print_request_line unparse_rest
ParsedRequest_unparse pr buf buflen = elim pr.buf [
  | none ↦ returns none
  | some b ↦ ParsedRequest_print_request_line pr buf 0 buflen >>= λ out. unparse_rest pr buflen out
]

-- A request all of whose parts are there, as `ParsedRequest_parse` leaves it.
pub record Parts : Type 0 where
  pub method : String
  pub protocol : String
  pub host : String
  pub path : String
  pub version : String

abbrev pub Has : ParsedRequest → Parts → Type 0
Has pr p =
    ((b : String) × (pr.buf ≡ some b))
    × (pr.method ≡ some p.method)
    × (pr.protocol ≡ some p.protocol)
    × (pr.host ≡ some p.host)
    × (pr.path ≡ some p.path)
    × (pr.version ≡ some p.version)

-- "method protocol://host:port/path version" and the end of the line.
abbrev pub line : Parts → Option String → Bytes
line p port = concat (chunks p.method p.protocol p.host port p.path p.version)

abbrev line_len : Parts → Option String → ℕ
line_len p port =
    length p.method
    + 1
    + length p.protocol
    + 3
    + length p.host
    + 1
    + length p.version
    + 2
    + port_len port
    + length p.path

length-line : (p : Parts) (port : Option String) → length (line p port) ≡ line_len p port
length-line p none = grind (arith, length-append)
length-line p (some q) = grind (arith, length-append)

parts_len :
    (p : Parts) (port : Option String)
    → length (line p port) < 2 ^ 64
    → line_len p port % 2 ^ 64 ≡ length (line p port)
parts_len p port b = omega (arith, b, length-line p port)

request_line_len-length :
    (pr : ParsedRequest) (p : Parts)
    → Has pr p
    → length (line p pr.port) < 2 ^ 64
    → ParsedRequest_request_line_len pr ≡ returns (length (line p pr.port))
unfolding ParsedRequest_request_line_len
request_line_len-length pr p h b =
    rw (h.0.1, h.1, h.2, h.3, h.5, h.4) (ap returns (parts_len p pr.port b))

print_pieces-line :
    (pr : ParsedRequest) (p : Parts) (pre old : Bytes)
    → Has pr p
    → length (line p pr.port) ≤ length old
    → print_pieces pr (pre ++ old) (length pre)
      ≡ returns
          (pre ++ (line p pr.port ++ drop (length (line p pr.port)) old), length (line p pr.port))
unfolding print_pieces
print_pieces-line pr p pre old h b =
    rw (h.1, h.2, h.3, h.4, h.5)
      (ap (λ o. o >>= λ buf. returns (buf, length (line p pr.port)))
        (copy_all-append pre old (chunks p.method p.protocol p.host pr.port p.path p.version) b))

print_request_line-line :
    (pr : ParsedRequest) (p : Parts) (buf : Bytes)
    → Has pr p
    → length (line p pr.port) < 2 ^ 31
    → length (line p pr.port) ≤ length buf
    → ParsedRequest_print_request_line pr buf 0 (length buf)
      ≡ returns
          (some (line p pr.port ++ drop (length (line p pr.port)) buf, length (line p pr.port)))
unfolding ParsedRequest_print_request_line
print_request_line-line pr p buf h b c =
    let n = length (line p pr.port) in
    let fits : ltb (length buf) n ≡ false = ground arith in
    ap
      (λ o. o >>= λ needed.
        if ltb (length buf) needed
        then returns none
        else (print_pieces pr buf 0 >>= λ out. returns (some out)))
      (request_line_len-length pr p h (omega (arith, b)))
    ∙ ap (λ t. if t then returns none else (print_pieces pr buf 0 >>= λ out. returns (some out)))
        fits
    ∙ ap (λ o. o >>= λ out. returns (some out)) (print_pieces-line pr p [] buf h c)

-- The whole text of a request.
abbrev pub text : Parts → ParsedRequest → Bytes
text p pr = line p pr.port ++ (lines pr.headers ++ crlf)

-- Into a buffer that is at least as large as its text, a request whose parts are all there is written
-- as that text: the request line, one line for each header with a key, and an empty line; the rest of
-- the buffer stays, and `totalLen` gives the length of the text. The headers and the line are shorter
-- than 2^31 - 2 bytes.
pub unparse-text :
    (pr : ParsedRequest) (p : Parts) (buf : Bytes)
    → Has pr p
    → All HasValue pr.headers
    → length (lines pr.headers) + 2 < 2 ^ 31
    → length (line p pr.port) < 2 ^ 31
    → length (text p pr) ≤ length buf
    → (ParsedRequest_unparse pr buf (length buf)
        ≡ returns (some (text p pr ++ drop (length (text p pr)) buf)))
      × (ParsedRequest_total_len pr ≡ returns (length (text p pr)))
unfolding ParsedRequest_unparse ParsedRequest_total_len unparse_rest
unparse-text pr p buf h v a b c =
    let l = line p pr.port in
    let tail = lines pr.headers ++ crlf in
    let sum = length-append l tail in
    let sum' = length-append (lines pr.headers) crlf in
    let left = length-drop (length l) buf in
    (
      rw (h.0.1, ParsedRequest_unparse)
          (ap (λ o. o >>= λ out. unparse_rest pr (length buf) out)
              (print_request_line-line pr p buf h b (omega (arith, c, sum)))
            ∙ print_headers-text pr h.0.0 l (drop (length l) buf) (length buf - length l) h.0.1 v a
                (omega (arith, c, sum, sum')) (omega (arith, left))
            ∙ ap (λ t. returns (some t)) (append_after [] l tail buf)),
      rw (h.0.1, ParsedRequest_total_len)
          (ap
              (λ o. o >>= λ first.
                ParsedHeader_headers_len pr >>= λ rest. returns ((first + rest) % 2 ^ 64))
              (request_line_len-length pr p h (omega (arith, b)))
            ∙ ap (λ o. o >>= λ rest. returns ((length l + rest) % 2 ^ 64))
                (headers_len-length pr h.0.0 h.0.1 v a)
            ∙ ap returns (omega (arith, a, b, sum, sum'))),
    )
