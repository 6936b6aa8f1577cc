-- ===== src/Proxy/Headers/Print.antt =====
-- The headers written out.
use computer_networks.Prelude.{
  ℕ, ◌+◌, ◌≤◌, ◌<◌, ◌^◌, ◌%◌, ◌≡◌, refl, ap, sym, ◌∙◌, List, [], ◌∷◌, ◌++◌, Option, none, some,
  false, if◌then◌else◌, ltb, length, length-append, drop, length-drop, returns, ◌>>=◌, arith, All,
  Option-cases, inl, inr, Bytes, copy_all-append, copy_to-append, append_after,
}
use mathlib.Core.List.{append_assoc}
use computer_networks.Proxy.{String, ParsedHeader, ParsedRequest}
use computer_networks.Proxy.Headers.{
  ParsedHeader_line_len, sum_line_len, ParsedHeader_headers_len, int_to_size, crlf, colon_space,
  print_lines, ParsedHeader_print_headers,
}

-- A header that has a key has a value.
abbrev pub HasValue : ParsedHeader → Type 0
HasValue h = (k : String) → h.key ≡ some k → (v : String) × (h.value ≡ some v)

abbrev pub line_of : Option String → Option String → Bytes
line_of none v = []
line_of (some k) none = []
line_of (some k) (some v) = k ++ (colon_space ++ (v ++ (crlf ++ [])))

-- The text that the headers stand for, without the empty line at the end.
abbrev pub lines : List ParsedHeader → Bytes
lines [] = []
lines (h ∷ rest) = line_of h.key h.value ++ lines rest

line_len-length :
    (h : ParsedHeader)
    → HasValue h
    → ParsedHeader_line_len h ≡ returns (length (line_of h.key h.value))
unfolding ParsedHeader_line_len
line_len-length h v = elim (Option-cases h.key) [
  | inl n ↦ rw n refl
  | inr (k, s) ↦
      let w = v k s in
      rw (s, w.1)
        (ap returns (
          omega (
            arith,
            length-append k (colon_space ++ (w.0 ++ (crlf ++ []))),
            length-append w.0 (crlf ++ []),
          )))
]

sum_line_len-length :
    (len : ℕ) (hs : List ParsedHeader)
    → All HasValue hs
    → len + length (lines hs) < 2 ^ 31
    → sum_line_len len hs ≡ returns (len + length (lines hs))
unfolding sum_line_len
sum_line_len-length len [] v b = ap returns (omega arith)
sum_line_len-length len (h ∷ rest) v b =
    let n = length (line_of h.key h.value) in
    let both = length-append (line_of h.key h.value) (lines rest) in
    let small : (len + n) % 2 ^ 32 ≡ len + n = omega (arith, both, b) in
    ap (λ o. o >>= λ m. sum_line_len ((len + m) % 2 ^ 32) rest) (line_len-length h v.0)
    ∙ ap (λ m. sum_line_len m rest) small
    ∙ sum_line_len-length (len + n) rest v.1 (omega (arith, both, b))
    ∙ ap returns (omega (arith, both))

int_to_size-small : (n : ℕ) → n + 2 < 2 ^ 31 → int_to_size ((0 + n + 2) % 2 ^ 32) ≡ n + 2
int_to_size-small n h = ground arith

-- The length that is computed is that of the text, as long as it fits into an `int`.
pub headers_len-length :
    (pr : ParsedRequest) (b : String)
    → pr.buf ≡ some b
    → All HasValue pr.headers
    → length (lines pr.headers) + 2 < 2 ^ 31
    → ParsedHeader_headers_len pr ≡ returns (length (lines pr.headers) + 2)
unfolding ParsedHeader_headers_len
headers_len-length pr b e v h = rw e (
    ap (λ o. o >>= λ len. returns (int_to_size ((len + 2) % 2 ^ 32)))
      (sum_line_len-length 0 pr.headers v (omega (arith, h)))
    ∙ ap returns (int_to_size-small (length (lines pr.headers)) h))

position :
    (pre : Bytes) (k w : String)
    → length pre + (length k + length w + 4) ≡ length (pre ++ line_of (some k) (some w))
position pre k w = omega (
  arith,
  length-append pre (line_of (some k) (some w)),
  length-append k (colon_space ++ (w ++ (crlf ++ []))),
  length-append w (crlf ++ []),
)

print_lines-text :
    (pre old : Bytes) (hs : List ParsedHeader)
    → All HasValue hs
    → length (lines hs) + 2 ≤ length old
    → print_lines (pre ++ old) (length pre) hs
      ≡ returns (pre ++ ((lines hs ++ crlf) ++ drop (length (lines hs ++ crlf)) old))
unfolding print_lines
print_lines-text pre old [] v h = copy_to-append pre old crlf h
print_lines-text pre old (h ∷ rest) v b = elim (Option-cases h.key) [
  | inl n ↦ rw n (print_lines-text pre old rest v.1 (rw n at b))
  | inr (k, s) ↦
      let w = v.0 k s in
      let c = line_of (some k) (some w.0) in
      let more = drop (length c) old in
      let both : length (c ++ lines rest) + 2 ≤ length old = rw (s, w.1) at b in
      let sum = length-append c (lines rest) in
      let h' : length (lines rest) + 2 ≤ length more =
        omega (arith, both, sum, length-drop (length c) old) in
      rw (s, w.1)
        (ap (λ o. o >>= λ buf. print_lines buf (length pre + (length k + length w.0 + 4)) rest)
            (copy_all-append pre old (k ∷ colon_space ∷ w.0 ∷ crlf ∷ []) (omega (arith, both, sum)))
          ∙ ap (λ i. print_lines (pre ++ (c ++ more)) i rest) (position pre k w.0)
          ∙ ap (λ l. print_lines l (length (pre ++ c)) rest) (sym (append_assoc pre c more))
          ∙ print_lines-text (pre ++ c) more rest v.1 h'
          ∙ ap returns (append_after pre c (lines rest ++ crlf) old)
          ∙ ap (λ t. returns (pre ++ (t ++ drop (length t) old)))
              (sym (append_assoc c (lines rest) crlf)))
]

-- Into a buffer that is large enough, the headers are written as one line "key: value" for each that
-- has a key, in their order, and an empty line behind them; what stands before and behind that in the
-- buffer stays. The text is shorter than 2^31 - 2 bytes.
pub print_headers-text :
    (pr : ParsedRequest) (b : String) (pre old : Bytes) (len : ℕ)
    → pr.buf ≡ some b
    → All HasValue pr.headers
    → length (lines pr.headers) + 2 < 2 ^ 31
    → length (lines pr.headers) + 2 ≤ len
    → len ≤ length old
    → ParsedHeader_print_headers pr (pre ++ old) (length pre) len
      ≡ returns (
          some
            (pre ++ ((lines pr.headers ++ crlf) ++ drop (length (lines pr.headers ++ crlf)) old)))
unfolding ParsedHeader_print_headers
print_headers-text pr b pre old len e v h f g =
    let fits : ltb len (length (lines pr.headers) + 2) ≡ false = ground arith in
    ap
      (λ o. o >>= λ needed.
        if ltb len needed
        then returns none
        else (print_lines (pre ++ old) (length pre) pr.headers >>= λ buf'. returns (some buf')))
      (headers_len-length pr b e v h)
    ∙ ap
        (λ t.
          if t
          then returns none
          else (print_lines (pre ++ old) (length pre) pr.headers >>= λ buf'. returns (some buf')))
        fits
    ∙ ap (λ o. o >>= λ buf'. returns (some buf'))
        (print_lines-text pre old pr.headers v (omega (arith, f, g)))
