-- ===== src/Proxy/Parse.antt =====
-- Assignment1/starter_code/proxy_parse.c: `ParsedRequest_parse`. `strtok_r` works by offsets on the copy
-- of the request line, in which it writes a 0 behind each token. `printf` of NULL prints a text.
pub mod Tokens
pub mod Segments
pub mod Words
pub mod LineParts
pub mod Finish
pub mod LineText
pub mod HeaderLines
pub mod RequestText
pub mod RoundTrip
use computer_networks.Prelude.{
  ℕ, zero, suc, ◌+◌, List, [], ◌∷◌, ◌++◌, Option, none, some, Bool, true, false, if◌then◌else◌,
  ◌==◌, ◌&&◌, ◌||◌, ltb, set, drop, length, Outcome, returns, undefined, ◌>>=◌, Bytes, read8,
}
use computer_networks.Proxy.{String, ParsedRequest}
use computer_networks.Proxy.Headers.{before_crlf, ParsedHeader_parse, crlf}

abbrev pub min_req_len : ℕ
min_req_len = 4

abbrev pub max_req_len : ℕ
max_req_len = 65535

abbrev pub is_in : ℕ → Bytes → Bool
is_in c [] = false
is_in c (d ∷ ds) = c == d || is_in c ds

-- The string that starts with these bytes; its end must be among them.
unfoldable pub string_from : Bytes → Outcome String
string_from [] = undefined
string_from (c ∷ rest) = if c == 0 then returns [] else (string_from rest >>= λ s. returns (c ∷ s))

-- `strspn`
unfoldable pub spn : Bytes → Bytes → Outcome ℕ
spn delims [] = undefined
spn delims (c ∷ rest) =
    if c == 0
    then returns 0
    else if is_in c delims
    then (spn delims rest >>= λ n. returns (suc n))
    else returns 0

-- `strcspn`
unfoldable pub cspn : Bytes → Bytes → Outcome ℕ
cspn delims [] = undefined
cspn delims (c ∷ rest) =
    if c == 0
    then returns 0
    else if is_in c delims
    then returns 0
    else (cspn delims rest >>= λ n. returns (suc n))

-- The place of a token, none for NULL; the memory; and where the next search starts.
pub record Token : Type 0 where
  pub place : Option ℕ
  pub mem : Bytes
  pub saveptr : ℕ

-- `strtok_r`
unfoldable pub strtok : Bytes → ℕ → Bytes → Outcome Token
unfolding spn cspn
strtok mem start delims = do
  skipped ← spn delims (drop start mem)
  let first = start + skipped
  n ← cspn delims (drop first mem)
  c ← read8 mem (first + n)
  returns (
      if n == 0
      then record { place = none; mem = mem; saveptr = first }
      else if c == 0
      then record { place = some first; mem = mem; saveptr = first + n }
      else record { place = some first; mem = set mem (first + n) 0; saveptr = suc (first + n) })

-- `strncmp(s, prefix, strlen(prefix)) == 0`
unfoldable pub has_prefix : Bytes → Bytes → Outcome Bool
has_prefix s [] = returns true
has_prefix [] (p ∷ ps) = undefined
has_prefix (c ∷ cs) (p ∷ ps) = if c == p then has_prefix cs ps else returns false

abbrev pub space : Bytes
space = 32 ∷ []

abbrev pub slash : Bytes
slash = 47 ∷ []

abbrev pub colon : Bytes
colon = 58 ∷ []

-- "://", as a set of characters.
abbrev pub colon_slash_slash : Bytes
colon_slash_slash = 58 ∷ 47 ∷ 47 ∷ []

-- "HTTP/"
abbrev pub http_slash : Bytes
http_slash = 72 ∷ 84 ∷ 84 ∷ 80 ∷ 47 ∷ []

-- The method, the address and the version, as places in the copy of the line.
pub record Line : Type 0 where
  pub text : Bytes
  pub method : ℕ
  pub full_addr : ℕ
  pub version : ℕ

-- The version is taken to stand behind the address, whether or not a space ended that.
unfoldable pub take_version : Token → ℕ → ℕ → Outcome (Option Line)
unfolding string_from has_prefix
take_version t method full_addr = do
  addr ← string_from (drop full_addr t.mem)
  let version = full_addr + length addr + 1
  supported ← has_prefix (drop version t.mem) http_slash
  returns (
      if supported
      then some (record { text = t.mem; method = method; full_addr = full_addr; version = version })
      else none)

-- None is a return of -1.
unfoldable pub split_line : Bytes → Outcome (Option Line)
unfolding strtok take_version
split_line line = do
  t ← strtok (line ++ 0 ∷ []) 0 space
  elim t.place [
    | none ↦ returns none
    | some method ↦ do
      t ← strtok t.mem t.saveptr space
      elim t.place [ none ↦ returns none | some full_addr ↦ take_version t method full_addr ]
  ]

-- The path, as a copy behind a slash; none where it begins with one already.
unfoldable pub make_path : Token → Outcome (Option String)
unfolding string_from
make_path t = elim t.place [
  | none ↦ returns (some slash)
  | some place ↦ do
    path ← string_from (drop place t.mem)
    elim path [
      | [] ↦ returns (some slash)
      | c ∷ rest ↦ returns (if c == 47 then none else some (47 ∷ c ∷ rest))
    ]
]

abbrev pub optional_string : Bytes → Option ℕ → Outcome (Option String)
optional_string mem none = returns none
optional_string mem (some place) = string_from (drop place mem) >>= λ s. returns (some s)

abbrev pub is_bad : (String → Bool) → Option String → Bool
is_bad bad_port none = false
is_bad bad_port (some p) = bad_port p

-- The host without its port, and the port; then all strings are what their places hold. `bad_port` is
-- whether `strtol` returns 0 and leaves EINVAL in `errno`.
unfoldable pub finish_line :
    (String → Bool) → Line → ℕ → Bytes → ℕ → String → Outcome (Option ParsedRequest)
unfolding strtok string_from
finish_line bad_port l protocol mem host path = do
  t ← strtok mem host colon
  t' ← strtok t.mem t.saveptr slash
  elim t.place [
    | none ↦ returns none
    | some host ↦ do
      method ← string_from (drop l.method t'.mem)
      protocol ← string_from (drop protocol t'.mem)
      host ← string_from (drop host t'.mem)
      port ← optional_string t'.mem t'.place
      version ← string_from (drop l.version t'.mem)
      returns (
          if is_bad bad_port port
          then none
          else some (record {
            method = some method;
            protocol = some protocol;
            host = some host;
            port = port;
            path = some path;
            version = some version;
            buf = some t'.mem;
            buflen = length t'.mem;
            headers = [];
            headerslen = 0;
          }))
  ]

-- The host and the path, behind the protocol.
unfoldable pub split_rest : (String → Bool) → Line → ℕ → Token → Outcome (Option ParsedRequest)
unfolding strtok make_path finish_line
split_rest bad_port l protocol t = do
  p ← string_from (drop protocol t.mem)
  rem ← string_from (drop (l.full_addr + length p + 3) t.mem)
  t ← strtok t.mem t.saveptr slash
  elim t.place [
    | none ↦ returns none
    | some host ↦ do
      h ← string_from (drop host t.mem)
      elim (length h == length rem) [
        | true ↦ returns none
        | false ↦ do
          t ← strtok t.mem t.saveptr space
          path ← make_path t
          elim path [
            | none ↦ returns none
            | some path ↦ finish_line bad_port l protocol t.mem host path
          ]
      ]
  ]

-- The parts of the request line, in a request without headers.
unfoldable pub parse_line : (String → Bool) → Bytes → Outcome (Option ParsedRequest)
unfolding split_line split_rest
parse_line bad_port line = do
  l ← split_line line
  elim l [
    | none ↦ returns none
    | some l ↦ do
      t ← strtok l.text l.full_addr colon_slash_slash
      elim t.place [ none ↦ returns none | some protocol ↦ split_rest bad_port l protocol t ]
  ]

-- `strstr(s, "\r\n\r\n") != NULL`
unfoldable pub has_end : String → Bool
has_end [] = false
has_end (a ∷ rest) = elim rest [
  | b ∷ c ∷ d ∷ more ↦ (a == 13 && b == 10 && c == 13 && d == 10) || has_end rest
  | _ ↦ false
]

-- The loop over the headers, from `currentHeader` on; whether 0 is returned. None is that the rounds ran
-- out.
unfoldable pub parse_headers : ℕ → ParsedRequest → String → Outcome (Option (Bool × ParsedRequest))
parse_headers zero pr line = returns none
parse_headers (suc rounds) pr [] = returns (some (true, pr))
parse_headers (suc rounds) pr (c ∷ rest) =
    if c == 13 && starts_with rest 10
    then returns (some (true, pr))
    else (ParsedHeader_parse pr (c ∷ rest) >>= λ parsed. elim parsed [
      | none ↦ returns (some (false, pr))
      | some pr' ↦ elim (before_crlf (c ∷ rest)) [
        | none ↦ returns (some (true, pr'))
        | some before ↦ parse_headers rounds pr' (drop (length before + 2) (c ∷ rest))
      ]
    ])
  where
    starts_with : String → ℕ → Bool
    starts_with [] d = false
    starts_with (e ∷ es) d = e == d

-- The request line of the whole text, and the headers behind it.
unfoldable pub parse_text :
    (String → Bool) → ParsedRequest → String → Outcome (Option (Bool × ParsedRequest))
unfolding has_end parse_line parse_headers
parse_text bad_port pr text = elim (has_end text) [
  | false ↦ returns (some (false, pr))
  | true ↦ elim (before_crlf text) [
    | none ↦ undefined
    | some line ↦ do
      parts ← parse_line bad_port line
      elim parts [
        | none ↦ returns (some (false, pr))
        | some l ↦
            parse_headers (suc (length text))
              (record l { headers = pr.headers; headerslen = pr.headerslen })
              (drop (length line + 2) text)
      ]
  ]
]

-- Whether 0 is returned, and the request. After a -1 for the request line `buf` is NULL, and the other
-- fields may point into freed memory, which the model leaves out.
unfoldable pub ParsedRequest_parse :
    (String → Bool) → ParsedRequest → Bytes → Outcome (Option (Bool × ParsedRequest))
unfolding parse_text string_from
ParsedRequest_parse bad_port pr buf = elim pr.buf [
  | some b ↦ returns (some (false, pr))
  | none ↦
      if ltb (length buf) min_req_len || ltb max_req_len (length buf)
      then returns (some (false, pr))
      else (string_from (buf ++ 0 ∷ []) >>= λ text. parse_text bad_port pr text)
]
