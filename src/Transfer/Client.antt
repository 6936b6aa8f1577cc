-- ===== src/Transfer/Client.antt =====
-- Assignment3/src/client.c: the requests of the client, what it makes of the answers, and the address of
-- the server. The lines that `fgets` returns are an argument, and so is whether `mywrite` fails; `fwrite`
-- writes what it is given.
pub mod Responses
pub mod Answered
pub mod Address
use computer_networks.Prelude.{
  ℕ, zero, suc, ◌+◌, ◌-◌, ◌%◌, ◌^◌, List, [], ◌∷◌, ◌++◌, Option, none, some, Bool, true, false,
  if◌then◌else◌, ◌==◌, not, leb, ltb, take, drop, min, length, Outcome, returns, undefined, ◌>>=◌,
  Bytes,
}
use computer_networks.Prelude.Words.{swap16}
use computer_networks.Stcp.Framing.{Call, moves, ends, fails}
use computer_networks.Transfer.Numbers.{is_space, scan_int}
use computer_networks.Transfer.Lines.{Line, line, no_line, still_reading, get_nvt_line, up_to_nul}

abbrev pub line_size : ℕ
line_size = 1000

abbrev pub int_max : ℕ
int_max = 2147483647

-- What the loop over the content comes to: all of it is in the file; the connection ended before; or
-- it waits. With what the file holds, and nothing if the option -q is given.
pub data Fetched : Type 0 where
  fetched : Bytes → Bytes → List Call → Fetched
  cut : Bytes → Fetched
  awaited : Fetched

abbrev pub into_file : Bool → Bytes → Fetched → Fetched
into_file quiet_opt piece awaited = awaited
into_file quiet_opt piece (cut file) = cut (if quiet_opt then file else piece ++ file)
into_file quiet_opt piece (fetched file stream calls) =
    fetched (if quiet_opt then file else piece ++ file) stream calls

-- A call of `myread` takes no more than is asked for, and no more than there is.
unfoldable pub fetch : Bool → List Call → Bytes → ℕ → Fetched
fetch quiet_opt calls stream zero = fetched [] stream calls
fetch quiet_opt [] stream (suc n) = awaited
fetch quiet_opt (fails ∷ calls) stream (suc n) = cut []
fetch quiet_opt (ends ∷ calls) stream (suc n) = cut []
fetch quiet_opt (moves k ∷ calls) [] (suc n) = awaited
fetch quiet_opt (moves k ∷ calls) (c ∷ stream) (suc n) =
    let to_read = min (suc k) (min (suc n) line_size) in
    let piece = take to_read (c ∷ stream) in
    into_file quiet_opt piece
      (fetch quiet_opt calls (drop to_read (c ∷ stream)) (suc n - length piece))

-- `strrchr(s, ',')`: what stands in front of the last comma, and what stands behind it.
unfoldable pub split_comma : Bytes → Option (Bytes × Bytes)
split_comma [] = none
split_comma (c ∷ rest) = elim (split_comma rest) [
  | some (a, b) ↦ some (c ∷ a, b)
  | none ↦ if c == 44 then some ([], rest) else none
]

-- The length in an answer; the outer none is a malformed one, the inner a text that is no number.
unfoldable pub parse_response : Bytes → Option (Option (Bool × ℕ))
unfolding split_comma scan_int
parse_response s = elim (split_comma s) [
  | none ↦ none
  | some (front, resp) ↦ elim (split_comma front) [
    | none ↦ none
    | some (name, lenstr) ↦ some (scan_int lenstr)
  ]
]

-- What one request comes to: the file is stored; the server has none; the loop is left, or the program,
-- with a file that is not whole; or it waits.
pub data Round : Type 0 where
  stored : Bytes → Bytes → List Call → Round
  unavailable : Bytes → List Call → Round
  broken : Round
  exits : Bytes → Round
  pending : Round

abbrev pub round_of : Fetched → Round
round_of (fetched file stream calls) = stored file stream calls
round_of (cut file) = exits file
round_of awaited = pending

-- `length`, with its sign. Below -1 it becomes a huge size for `myread`, more than the buffer holds;
-- a number that is no `int`, or none that was read, is undefined. `opened` is whether `fopen` succeeds for
-- the file to write; where it does not, the loop is left.
unfoldable pub receive_file : Bool → Bool → Bytes → List Call → Option (Bool × ℕ) → Outcome Round
unfolding fetch
receive_file quiet_opt opened stream calls none = undefined
receive_file quiet_opt opened stream calls (some (true, n)) =
    if n == 1
    then returns (unavailable stream calls)
    else if ltb (int_max + 1) n
    then undefined
    else if not opened
    then returns broken
    else if n == 0
    then returns (stored [] stream calls)
    else undefined
receive_file quiet_opt opened stream calls (some (false, n)) =
    if ltb int_max n
    then undefined
    else if opened
    then returns (round_of (fetch quiet_opt calls stream n))
    else returns broken

-- What `sscanf` leaves in `length`.
abbrev pub scanned : Option (Bool × ℕ) → Option (Bool × ℕ) → Option (Bool × ℕ)
scanned old none = old
scanned old (some l) = some l

abbrev pub after_line : Bool → Bool → Option (Bool × ℕ) → Line → Outcome Round
after_line quiet_opt opened old no_line = returns broken
after_line quiet_opt opened old still_reading = returns pending
after_line quiet_opt opened old (line text stream calls) = elim (parse_response (up_to_nul text)) [
  | none ↦ returns broken
  | some l ↦ receive_file quiet_opt opened stream calls (scanned old l)
]

-- From the answer on. `old` is what `length` holds before.
unfoldable pub answer_round : Bool → Bool → Option (Bool × ℕ) → List Call → Bytes → Outcome Round
unfolding parse_response receive_file
answer_round quiet_opt opened old calls stream =
    get_nvt_line line_size calls stream >>= after_line quiet_opt opened old

unfoldable pub drop_spaces : Bytes → Bytes
drop_spaces [] = []
drop_spaces (c ∷ rest) = elim (drop_spaces rest) [
  | d ∷ ds ↦ c ∷ d ∷ ds
  | [] ↦ if is_space c then [] else c ∷ []
]

-- CR LF and a 0 behind the name, in the buffer of the line.
abbrev pub terminated : Bytes → Outcome Bytes
terminated name =
    if leb (length name + 3) line_size then returns (name ++ 13 ∷ 10 ∷ []) else undefined

-- A line of the user without the spaces at its end; a single character is passed over.
unfoldable pub typed_request : Bytes → Outcome (Option Bytes)
unfolding drop_spaces
typed_request text =
    let name = drop_spaces (up_to_nul text) in
    if leb (length name) 1 then returns none else (terminated name >>= λ s. returns (some s))

-- What the loop comes to: it ends, the program exits, or it waits; with what was sent, and each file that
-- was stored.
pub data Run : Type 0 where
  ended : Bytes → List Bytes → Run
  exited : Bytes → List Bytes → Run
  suspended : Bytes → List Bytes → Run

abbrev pub run_behind : Bytes → List Bytes → Run → Run
run_behind sent files (ended sent' files') = ended (sent ++ sent') (files ++ files')
run_behind sent files (exited sent' files') = exited (sent ++ sent') (files ++ files')
run_behind sent files (suspended sent' files') = suspended (sent ++ sent') (files ++ files')

abbrev pub follow : (ℕ → Bytes → List Call → Outcome Run) → Bytes → Round → Outcome Run
follow next sent broken = returns (ended sent [])
follow next sent (exits file) = returns (exited sent (file ∷ []))
follow next sent pending = returns (suspended sent [])
follow next sent (stored file stream calls) =
    next 0 stream calls >>= λ r. returns (run_behind sent (file ∷ []) r)
follow next sent (unavailable stream calls) =
    next 1 stream calls >>= λ r. returns (run_behind sent [] r)

-- The loop with the user's lines, each with whether `mywrite` fails for it, and whether the file to write
-- can be opened. `old` is 0 or, with a
-- minus, 1 when a request came before.
unfoldable pub interactive :
    Bool → Option (Bool × ℕ) → List (Bytes × Bool × Bool) → List Call → Bytes → Outcome Run
unfolding typed_request answer_round
interactive quiet_opt old [] calls stream = returns (ended [] [])
interactive quiet_opt old ((text, refused, opened) ∷ inputs) calls stream =
    typed_request text >>= λ name. elim name [
      | none ↦ interactive quiet_opt old inputs calls stream
      | some sent ↦
          if refused
          then returns (ended [] [])
          else (answer_round quiet_opt opened old calls stream
              >>= follow
                  (λ n stream calls. interactive quiet_opt (some (n == 1, n)) inputs calls stream)
                  sent)
    ]

-- The loop with the option -f, which makes one request.
unfoldable pub single : Bool → Bytes → Bool → Bool → List Call → Bytes → Outcome Run
unfolding answer_round
single quiet_opt filename refused opened calls stream = terminated filename >>= λ sent.
    if refused
    then returns (ended [] [])
    else (answer_round quiet_opt opened none calls stream
        >>= follow (λ n stream calls. returns (ended [] [])) sent)

-- `struct sockaddr_in`, the port as the bytes in memory make it on the host.
pub record ServerAddress : Type 0 where
  pub sin_port : ℕ
  pub sin_addr : Bytes

-- `strchr(s, ':')`
unfoldable pub split_colon : Bytes → Bytes × Option Bytes
split_colon [] = ([], none)
split_colon (c ∷ rest) =
    let later = split_colon rest in if c == 58 then ([], some rest) else (c ∷ later.0, later.1)

-- `%u` into `h_port`; a minus gives the number modulo 2^32. None is EINVAL.
unfoldable pub scan_port : Option Bytes → Outcome (Option ℕ)
unfolding scan_int
scan_port none = returns (some 0)
scan_port (some s) = elim (scan_int s) [
  | none ↦ returns none
  | some (minus, n) ↦
      if leb n (2 ^ 32 - 1)
      then returns (some (swap16 ((if minus then (2 ^ 32 - n) % 2 ^ 32 else n) % 2 ^ 16)))
      else undefined
]

-- The address in dotted form, or else the one found for the name; none where neither is there.
abbrev pub with_address : Option Bytes → Option Bytes → Option ℕ → Option ServerAddress
with_address dotted named none = none
with_address (some addr) named (some port) = some (record { sin_port = port; sin_addr = addr })
with_address none (some addr) (some port) = some (record { sin_port = port; sin_addr = addr })
with_address none none (some port) = none

-- `inet_addr` and `gethostbyname` are parameters; none is an address that they do not find.
unfoldable pub parse_parts :
    (Bytes → Option Bytes)
    → (Bytes → Option Bytes)
    → Bytes × Option Bytes
    → Outcome (Option ServerAddress)
unfolding scan_port
parse_parts inet_addr gethostbyname (host, port) = scan_port port >>= λ sin_port.
    returns (with_address (inet_addr host) (gethostbyname host) sin_port)

unfoldable pub parse_address :
    (Bytes → Option Bytes) → (Bytes → Option Bytes) → Bytes → Outcome (Option ServerAddress)
unfolding split_colon parse_parts
parse_address inet_addr gethostbyname address =
    parse_parts inet_addr gethostbyname (split_colon address)
