-- ===== src/Transfer/Client/Responses.antt =====
-- client.c: taking an answer of the server apart, and storing the content behind it.
use mathlib.Core.List.{append_assoc}
use computer_networks.Prelude.{
  ℕ, zero, suc, ◌+◌, ◌-◌, ◌<◌, ◌≤◌, ◌≡◌, ◌≢◌, refl, sym, ap, subst, ◌∙◌, List, [], ◌∷◌, ◌++◌,
  Option, none, some, Bool, true, false, if◌then◌else◌, ==_of_ne, take, drop, min, length,
  length-append, length-take, length-drop, take-append-drop, take-prefix, drop-prefix, arith, All,
  ◌>>=◌, Bytes,
}
use computer_networks.Stcp.Framing.{Call, moves}
use computer_networks.Stcp.Framing.RoundTrip.{chunks}
use computer_networks.Transfer.Numbers.{scan_int}
use computer_networks.Transfer.Numbers.RoundTrip.{IsDigits}
use computer_networks.Transfer.Lines.{line, up_to_nul}
use computer_networks.Transfer.Server.{end_of_line}
use computer_networks.Transfer.Server.Session.{get_nvt_line-name}
use computer_networks.Transfer.Client.{
  line_size, fetched, into_file, fetch, split_comma, parse_response, receive_file, scanned,
  after_line, answer_round,
}

-- Calls that read so many bytes together.
abbrev pub Takes : List ℕ → ℕ → Type 0
Takes [] n = n ≡ 0
Takes (k ∷ ks) n = (0 < n) × Takes ks (n - min (suc k) (min n line_size))

fetch-step :
    (quiet_opt : Bool) (k : ℕ) (calls : List Call) (a b : Bytes) (n : ℕ)
    → 0 < n
    → n ≤ length a + length b
    → length a ≡ min (suc k) (min n line_size)
    → fetch quiet_opt (moves k ∷ calls) (a ++ b) n
      ≡ into_file quiet_opt a (fetch quiet_opt calls b (n - length a))
unfolding fetch
fetch-step quiet_opt k calls a b zero p le e = absurd (omega arith)
fetch-step quiet_opt k calls [] b (suc n) p le e = absurd (omega (arith, e))
fetch-step quiet_opt k calls (c ∷ a) b (suc n) p le e =
    let m = min (suc k) (min (suc n) line_size) in
    ap
      (λ x.
        into_file quiet_opt x (fetch quiet_opt calls (drop m (c ∷ (a ++ b))) (suc n - length x)))
      (take-prefix (c ∷ a) b m (sym e))
    ∙ ap (λ y. into_file quiet_opt (c ∷ a) (fetch quiet_opt calls y (suc n - length (c ∷ a))))
        (drop-prefix (c ∷ a) b m 0 (omega (arith, e)))

into_file-append :
    (quiet_opt : Bool) (a b content rest : Bytes) (calls : List Call)
    → a ++ b ≡ content
    → into_file quiet_opt a (fetched (if quiet_opt then [] else b) rest calls)
      ≡ fetched (if quiet_opt then [] else content) rest calls
into_file-append true a b content rest calls e = refl
into_file-append false a b content rest calls e = ap (λ x. fetched x rest calls) e

fetch-nothing :
    (quiet_opt : Bool) (calls : List Call) (rest : Bytes)
    → fetch quiet_opt calls rest 0 ≡ fetched (if quiet_opt then [] else []) rest calls
unfolding fetch
fetch-nothing true calls rest = refl
fetch-nothing false calls rest = refl

-- The content is stored, and what follows it stays in the stream; with -q the file stays empty.
pub fetch-chunks :
    (quiet_opt : Bool) (ks : List ℕ) (calls : List Call) (content rest : Bytes) (n : ℕ)
    → n ≡ length content
    → Takes ks n
    → fetch quiet_opt (chunks ks calls) (content ++ rest) n
      ≡ fetched (if quiet_opt then [] else content) rest calls
fetch-chunks quiet_opt [] calls [] rest zero e t = fetch-nothing quiet_opt calls rest
fetch-chunks quiet_opt [] calls (c ∷ content) rest zero e t = absurd (omega (arith, e))
fetch-chunks quiet_opt [] calls content rest (suc n) e t = absurd (omega (arith, t))
fetch-chunks quiet_opt (k ∷ ks) calls content rest zero e t = absurd (omega (arith, t.0))
fetch-chunks quiet_opt (k ∷ ks) calls content rest (suc n) e t =
    let m = min (suc k) (min (suc n) line_size) in
    let a = take m content in
    let b = drop m content in
    let whole : a ++ b ≡ content = take-append-drop m content in
    let la : length a ≡ m = omega (arith, e, length-take m content) in
    let lb : suc n - length a ≡ length b = omega (arith, e, la, length-drop m content) in
    ap (λ s. fetch quiet_opt (moves k ∷ chunks ks calls) s (suc n))
      (ap (λ x. x ++ rest) (sym whole) ∙ append_assoc a b rest)
    ∙ fetch-step quiet_opt k (chunks ks calls) a (b ++ rest) (suc n) (omega arith)
        (omega (arith, e, la, length-drop m content, length-append b rest)) la
    ∙ ap (into_file quiet_opt a) (
        fetch-chunks quiet_opt ks calls b rest (suc n - length a) lb
          (subst (λ x. Takes ks (suc n - x)) (sym la) t.1))
    ∙ into_file-append quiet_opt a b content rest calls whole

-- Bytes that may stand in a line.
abbrev pub IsPlain : Bytes → Type 0
IsPlain = All (λ b. (b ≢ 0) × (b ≢ 13))

pub IsPlain-append : (a b : Bytes) → IsPlain a → IsPlain b → IsPlain (a ++ b)
IsPlain-append [] b p q = q
IsPlain-append (c ∷ a) b p q = (p.0, IsPlain-append a b p.1 q)

pub IsDigits-IsPlain : (s : Bytes) → IsDigits s → IsPlain s
IsDigits-IsPlain [] h = tt
IsDigits-IsPlain (c ∷ s) h = (((λ e. ground arith), (λ e. ground arith)), IsDigits-IsPlain s h.1)

split_comma-none : (s : Bytes) → All (λ b. b ≢ 44) s → split_comma s ≡ none
unfolding split_comma
split_comma-none [] h = refl
split_comma-none (c ∷ s) h = rw (split_comma-none s h.1, ==_of_ne c 44 h.0) refl

split_comma-append : (a b : Bytes) → All (λ b. b ≢ 44) b → split_comma (a ++ 44 ∷ b) ≡ some (a, b)
unfolding split_comma
split_comma-append [] b h = rw (split_comma-none b h) refl
split_comma-append (c ∷ a) b h = rw (split_comma-append a b h) refl

pub IsDigits-no_comma : (s : Bytes) → IsDigits s → All (λ b. b ≢ 44) s
IsDigits-no_comma [] h = tt
IsDigits-no_comma (c ∷ s) h = ((λ e. ground arith), IsDigits-no_comma s h.1)

pub up_to_nul-IsPlain : (s : Bytes) → IsPlain s → up_to_nul s ≡ s
up_to_nul-IsPlain [] h = refl
up_to_nul-IsPlain (c ∷ s) h = rw (==_of_ne c 0 h.0.0) (ap (◌∷◌ c) (up_to_nul-IsPlain s h.1))

-- The line of an answer.
abbrev pub response : Bytes → Bytes → Bytes → Bytes
response name number message = name ++ (44 ∷ (number ++ 44 ∷ message))

parse_response-response :
    (name number message : Bytes)
    → All (λ b. b ≢ 44) number
    → All (λ b. b ≢ 44) message
    → parse_response (response name number message) ≡ some (scan_int number)
unfolding parse_response
parse_response-response name number message n m =
    let last : split_comma (response name number message) ≡ some (name ++ 44 ∷ number, message) =
      ap split_comma (sym (append_assoc name (44 ∷ number) (44 ∷ message)))
      ∙ split_comma-append (name ++ 44 ∷ number) message m in
    rw (last, parse_response) (rw (split_comma-append name number n) refl)

after_line-parsed :
    (quiet_opt : Bool) (old : Option (Bool × ℕ)) (text stream : Bytes) (calls : List Call)
    {l : Option (Bool × ℕ)}
    → up_to_nul text ≡ text
    → parse_response text ≡ some l
    → after_line quiet_opt true old (line text stream calls)
      ≡ receive_file quiet_opt true stream calls (scanned old l)
after_line-parsed quiet_opt old text stream calls u p = rw (u, after_line) (rw (p, after_line) refl)

module _ (quiet_opt : Bool) (old : Option (Bool × ℕ)) (name number message behind : Bytes)
    (ks : List ℕ) (calls : List Call) (plain_name : IsPlain name) (plain_number : IsPlain number)
    (plain_message : IsPlain message)
    (no_comma : All (λ b. b ≢ 44) number × All (λ b. b ≢ 44) message)
    (short : length (response name number message) < line_size)
    (reads : length ks ≡ length (response name number message) + 2) where
  -- What a well-formed answer leads to.
  pub answer_round-response :
      answer_round quiet_opt true old
        (chunks ks calls)
        (response name number message ++ (end_of_line ++ behind))
      ≡ receive_file quiet_opt true behind calls (scanned old (scan_int number))
  unfolding answer_round
  answer_round-response =
      let plain : IsPlain (response name number message) =
        IsPlain-append name (44 ∷ (number ++ 44 ∷ message)) plain_name (
          ((λ e. omega (arith, e)), (λ e. omega (arith, e))),
          IsPlain-append number (44 ∷ message) plain_number
              (((λ e. omega (arith, e)), (λ e. omega (arith, e))), plain_message),
        ) in
      ap (λ o. o >>= after_line quiet_opt true old)
        (get_nvt_line-name (response name number message) behind ks calls line_size short plain
          reads)
      ∙ after_line-parsed quiet_opt old (response name number message) behind calls
          (up_to_nul-IsPlain (response name number message) plain)
          (parse_response-response name number message no_comma.0 no_comma.1)
