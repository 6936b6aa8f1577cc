-- ===== src/Proxy/Headers.antt =====
-- Assignment1/starter_code/proxy_parse.c: the headers of a request. `malloc` and `realloc` succeed.
pub mod Lookup
pub mod MapView
pub mod Print
pub mod Line
use computer_networks.Prelude.{
  ℕ, zero, suc, ◌+◌, ◌*◌, ◌-◌, ◌%◌, ◌^◌, List, [], ◌∷◌, ◌++◌, map, Option, none, some, Bool, true,
  false, if◌then◌else◌, ◌==◌, ◌&&◌, ltb, leb, length, get_elem?, Outcome, returns, undefined, ◌>>=◌,
  bytes_eq, copy_to, copy_all, Bytes,
}
use computer_networks.Proxy.{String, ParsedHeader, ParsedRequest}

abbrev pub default_nhdrs : ℕ
default_nhdrs = 8

unfoldable pub has_key : ParsedHeader → String → Bool
has_key h key = elim h.key [ none ↦ false | some k ↦ bytes_eq k key ]

-- The loop of `ParsedHeader_get`: the place of the first header with the key.
unfoldable pub find : List ParsedHeader → String → Option ℕ
unfolding has_key
find [] key = none
find (h ∷ rest) key =
    if has_key h key then some 0 else elim (find rest key) [ none ↦ none | some i ↦ some (suc i) ]

-- The header that the pointer returned points to, by its place in the array.
pub ParsedHeader_get : ParsedRequest → String → Option ℕ
unfolding find
ParsedHeader_get pr key = find pr.headers key

abbrev pub update_at : (ParsedHeader → ParsedHeader) → List ParsedHeader → ℕ → List ParsedHeader
update_at f [] i = []
update_at f (h ∷ rest) zero = f h ∷ rest
update_at f (h ∷ rest) (suc i) = h ∷ update_at f rest i

abbrev pub freed : ParsedHeader → ParsedHeader
freed h = record h { key = none; value = none }

-- The request, and whether 0 is returned.
unfoldable pub ParsedHeader_remove : ParsedRequest → String → ParsedRequest × Bool
unfolding ParsedHeader_get
ParsedHeader_remove pr key = elim (ParsedHeader_get pr key) [
  | none ↦ (pr, false)
  | some i ↦ (record pr { headers = update_at freed pr.headers i }, true)
]

abbrev pub new_header : String → String → ParsedHeader
new_header key value = record {
  key = some key;
  keylen = length key + 1;
  value = some value;
  valuelen = length value + 1;
}

-- The length of the array behind the test for room.
abbrev pub grown : ParsedRequest → ℕ
grown pr =
    if leb pr.headerslen (length pr.headers + 1) then pr.headerslen * 2 % 2 ^ 64 else pr.headerslen

-- `ParsedHeader_set` behind the removal. A header that is written behind the end of the array is
-- undefined.
unfoldable pub append_header : ParsedRequest → String → String → Outcome ParsedRequest
append_header pr key value =
    if ltb (length pr.headers) (grown pr)
    then returns
        (record pr { headers = pr.headers ++ new_header key value ∷ []; headerslen = grown pr })
    else undefined

unfoldable pub ParsedHeader_set : ParsedRequest → String → String → Outcome ParsedRequest
unfolding ParsedHeader_remove append_header
ParsedHeader_set pr key value = append_header (ParsedHeader_remove pr key).0 key value

pub ParsedHeader_create : ParsedRequest → ParsedRequest
ParsedHeader_create pr = record pr { headers = []; headerslen = default_nhdrs }

-- `strlen` and `memcpy` of a pointer that may not point to a string.
abbrev pub read_string : Option String → Outcome String
read_string s = elim s [ none ↦ undefined | some c ↦ returns c ]

pub ParsedHeader_line_len : ParsedHeader → Outcome ℕ
ParsedHeader_line_len h = elim h.key [
  | none ↦ returns 0
  | some key ↦ do value ← read_string h.value; returns (length key + length value + 4)
]

-- The sum is kept in an `int`, here its value modulo 2^32.
pub sum_line_len : ℕ → List ParsedHeader → Outcome ℕ
unfolding ParsedHeader_line_len
sum_line_len len [] = returns len
sum_line_len len (h ∷ rest) =
    ParsedHeader_line_len h >>= λ n. sum_line_len ((len + n) % 2 ^ 32) rest

-- An `int` returned as a `size_t`: the sign goes into the upper half.
abbrev pub int_to_size : ℕ → ℕ
int_to_size x = if ltb x (2 ^ 31) then x else x + (2 ^ 64 - 2 ^ 32)

pub ParsedHeader_headers_len : ParsedRequest → Outcome ℕ
unfolding sum_line_len
ParsedHeader_headers_len pr = elim pr.buf [
  | none ↦ returns 0
  | some b ↦ sum_line_len 0 pr.headers >>= λ len. returns (int_to_size ((len + 2) % 2 ^ 32))
]

abbrev pub crlf : Bytes
crlf = 13 ∷ 10 ∷ []

abbrev pub colon_space : Bytes
colon_space = 58 ∷ 32 ∷ []

-- The loop of `ParsedHeader_printHeaders`; `current` is a place in the buffer.
pub print_lines : Bytes → ℕ → List ParsedHeader → Outcome Bytes
print_lines buf current [] = copy_to buf current crlf
print_lines buf current (h ∷ rest) = elim h.key [
  | none ↦ print_lines buf current rest
  | some key ↦ do
    value ← read_string h.value
    buf ← copy_all buf current (key ∷ colon_space ∷ value ∷ crlf ∷ [])
    print_lines buf (current + (length key + length value + 4)) rest
]

-- The buffer that was written, or none where -1 is returned.
pub ParsedHeader_print_headers : ParsedRequest → Bytes → ℕ → ℕ → Outcome (Option Bytes)
unfolding ParsedHeader_headers_len print_lines
ParsedHeader_print_headers pr buf current len = do
  needed ← ParsedHeader_headers_len pr
  if ltb len needed
      then returns none
      else (print_lines buf current pr.headers >>= λ buf'. returns (some buf'))

pub ParsedHeader_destroy_one : ParsedHeader → ParsedHeader
ParsedHeader_destroy_one h = elim h.key [
  | none ↦ h
  | some key ↦ record { key = none; keylen = 0; value = none; valuelen = 0 }
]

-- The array itself is freed.
pub ParsedHeader_destroy : ParsedRequest → ParsedRequest
unfolding ParsedHeader_destroy_one
ParsedHeader_destroy pr = record pr { headers = []; headerslen = 0 }

-- `index`: what stands before the first colon, and behind it.
unfoldable pub split_colon : String → Option (String × String)
split_colon [] = none
split_colon (c ∷ rest) =
    if c == 58
    then some ([], rest)
    else elim (split_colon rest) [ none ↦ none | some parts ↦ some (c ∷ parts.0, parts.1) ]

-- `strstr(s, "\r\n")`: what stands before the first end of a line.
unfoldable pub before_crlf : String → Option String
before_crlf [] = none
before_crlf (c ∷ rest) =
    let later : Option String = elim (before_crlf rest) [ none ↦ none | some s ↦ some (c ∷ s) ] in
    elim rest [ [] ↦ later | d ∷ rest' ↦ if c == 13 && d == 10 then some [] else later ]

-- What stands behind the colon. One character is passed over, whatever it is: behind the end of the
-- string the search is undefined, and so is a length taken from a search that found nothing.
unfoldable pub parse_value : ParsedRequest → String → String → Outcome (Option ParsedRequest)
unfolding before_crlf ParsedHeader_set
parse_value pr key [] = undefined
parse_value pr key (c ∷ rest) = elim (before_crlf rest) [
  | none ↦ undefined
  | some value ↦ ParsedHeader_set pr key value >>= λ pr'. returns (some pr')
]

-- The request, or none where -1 is returned.
unfoldable pub ParsedHeader_parse : ParsedRequest → String → Outcome (Option ParsedRequest)
unfolding split_colon parse_value
ParsedHeader_parse pr line = elim (split_colon line) [
  | none ↦ returns none
  | some parts ↦ parse_value pr parts.0 parts.1
]
