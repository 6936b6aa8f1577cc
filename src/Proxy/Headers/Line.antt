-- ===== src/Proxy/Headers/Line.antt =====
-- One line of a request, taken apart.
use computer_networks.Prelude.{
  ℕ, ◌≡◌, ◌≢◌, refl, ap, ◌∙◌, [], ◌∷◌, ◌++◌, Option, none, some, ==_of_ne, Outcome, returns,
  undefined, ◌>>=◌, arith, All,
}
use computer_networks.Proxy.{String, ParsedRequest}
use computer_networks.Proxy.Headers.{
  split_colon, before_crlf, ParsedHeader_set, parse_value, ParsedHeader_parse, crlf, colon_space,
}

split_colon-append :
    (key rest : String) → All (λ c. c ≢ 58) key → split_colon (key ++ 58 ∷ rest) ≡ some (key, rest)
unfolding split_colon
split_colon-append [] rest h = refl
split_colon-append (c ∷ key) rest h = rw (==_of_ne c 58 h.0, split_colon-append key rest h.1) refl

split_colon-none : (line : String) → All (λ c. c ≢ 58) line → split_colon line ≡ none
unfolding split_colon
split_colon-none [] h = refl
split_colon-none (c ∷ line) h = rw (==_of_ne c 58 h.0, split_colon-none line h.1) refl

before_crlf-cons :
    (c : ℕ) (s t : String) → c ≢ 13 → before_crlf s ≡ some t → before_crlf (c ∷ s) ≡ some (c ∷ t)
unfolding before_crlf
before_crlf-cons c [] t n e = ground arith
before_crlf-cons c (d ∷ s) t n e = ground arith

pub before_crlf-append :
    (value rest : String)
    → All (λ c. c ≢ 13) value
    → before_crlf (value ++ (crlf ++ rest)) ≡ some value
unfolding before_crlf
before_crlf-append [] rest h = refl
before_crlf-append (c ∷ value) rest h =
    before_crlf-cons c (value ++ (crlf ++ rest)) value h.0 (before_crlf-append value rest h.1)

after_split :
    (pr : ParsedRequest) (line : String) {key rest : String}
    → split_colon line ≡ some (key, rest)
    → ParsedHeader_parse pr line ≡ parse_value pr key rest
unfolding ParsedHeader_parse
after_split pr line e = rw (e, ParsedHeader_parse) refl

abbrev value_found : ParsedRequest → String → Option String → Outcome (Option ParsedRequest)
value_found pr key none = undefined
value_found pr key (some value) = ParsedHeader_set pr key value >>= λ pr'. returns (some pr')

-- A line "key: value" is entered under its key, whatever follows it, when the key has no colon and the
-- value no carriage return; a line without a colon is refused and changes nothing; and a line that
-- ends with its colon is read past its end.
pub ParsedHeader_parse_lem :
    (pr : ParsedRequest) (key value rest : String)
    → All (λ c. c ≢ 58) key
    → All (λ c. c ≢ 13) value
    → (ParsedHeader_parse pr (key ++ (colon_space ++ (value ++ (crlf ++ rest))))
        ≡ (ParsedHeader_set pr key value >>= λ pr'. returns (some pr')))
      × (ParsedHeader_parse pr key ≡ returns none)
      × (ParsedHeader_parse pr (key ++ 58 ∷ []) ≡ undefined)
unfolding parse_value ParsedHeader_parse
ParsedHeader_parse_lem pr key value rest h v = (
  after_split pr (key ++ 58 ∷ 32 ∷ (value ++ (crlf ++ rest)))
        (split_colon-append key (32 ∷ (value ++ (crlf ++ rest))) h)
      ∙ ap (value_found pr key) (before_crlf-append value rest v),
  rw (split_colon-none key h, ParsedHeader_parse) refl,
  after_split pr (key ++ 58 ∷ []) (split_colon-append key [] h),
)
