-- ===== src/Router/Server/Reading.antt =====
-- How the messages of the server are read.
use computer_networks.Prelude.{
  ℕ, zero, suc, ◌+◌, ◌-◌, ◌/◌, ◌%◌, ◌<◌, ◌≤◌, ◌≡◌, refl, ap, sym, ◌∙◌, List, [], ◌∷◌, ◌++◌, Option,
  none, some, true, false, ltb, leb, arith, length, length-append, returns, diverges, assert, ◌>>=◌,
  ◌>>◌,
}
use mathlib.Core.List.{append_assoc, append-nil}
use computer_networks.Router.Frame.{Bytes}
use computer_networks.Router.Vns.{network32}
use computer_networks.Router.Server.{
  Recv, got, interrupted, closed, bytes, read_bytes, from_network32, ntohl_at, message_of_length,
  message_behind, read_message,
}

-- Calls that give some bytes (at least one), or are interrupted by a signal, and the calls after them.
abbrev pub deliver : List (Option (ℕ × Bytes)) → List Recv → List Recv
deliver [] calls = calls
deliver (none ∷ ds) calls = interrupted ∷ deliver ds calls
deliver (some (b, bs) ∷ ds) calls = got b bs ∷ deliver ds calls

-- All that they give.
abbrev pub content : List (Option (ℕ × Bytes)) → Bytes
content [] = []
content (none ∷ ds) = content ds
content (some (b, bs) ∷ ds) = b ∷ bs ++ content ds

-- The calls that come before the last byte is there.
abbrev pub Needed : List (Option (ℕ × Bytes)) → Type 0
Needed [] = Unit
Needed (d ∷ ds) = (0 < length (content (d ∷ ds))) × Needed ds

read_bytes-deliver :
    (ds : List (Option (ℕ × Bytes))) (calls : List Recv) (before : Bytes) (n : ℕ)
    → Needed ds
    → n ≡ length (content ds)
    → read_bytes (deliver ds calls) before n ≡ returns (bytes (before ++ content ds) calls)
unfolding read_bytes
read_bytes-deliver [] calls before zero h e =
    ap (λ b. returns (bytes b calls)) (sym (append-nil before))
read_bytes-deliver [] calls before (suc n) h e = absurd (omega (arith, e))
read_bytes-deliver (d ∷ ds) calls before zero h e = absurd (omega (arith, e, h.0))
read_bytes-deliver (none ∷ ds) calls before (suc n) h e =
    read_bytes-deliver ds calls before (suc n) (h.1) e
read_bytes-deliver (some (b, bs) ∷ ds) calls before (suc n) h e =
    let len = length-append bs (content ds) in
    let t : leb (length bs) n ≡ true = ground (arith, e, len) in
    ap (λ x. assert x >> read_bytes (deliver ds calls) (before ++ b ∷ bs) (n - length bs)) t
    ∙ read_bytes-deliver ds calls (before ++ b ∷ bs) (n - length bs) (h.1) (omega (arith, e, len))
    ∙ ap (λ x. returns (bytes x calls)) (append_assoc before (b ∷ bs) (content ds))

-- If the server closes the connection before all bytes are there, the loop never ends.
pub read_bytes-closed :
    (ds : List (Option (ℕ × Bytes))) (calls : List Recv) (before : Bytes) (n : ℕ)
    → length (content ds) < n
    → read_bytes (deliver ds (closed ∷ calls)) before n ≡ diverges
unfolding read_bytes
read_bytes-closed ds calls before zero h = absurd (omega arith)
read_bytes-closed [] calls before (suc n) h = refl
read_bytes-closed (none ∷ ds) calls before (suc n) h = read_bytes-closed ds calls before (suc n) h
read_bytes-closed (some (b, bs) ∷ ds) calls before (suc n) h =
    let len = length-append bs (content ds) in
    let t : leb (length bs) n ≡ true = ground (arith, h, len) in
    ap
      (λ x. assert x >> read_bytes (deliver ds (closed ∷ calls)) (before ++ b ∷ bs) (n - length bs))
      t
    ∙ read_bytes-closed ds calls (before ++ b ∷ bs) (n - length bs) (omega (arith, h, len))

from_network32-network32 :
    (n : ℕ)
    → n < 65536
    → from_network32 (n / 16777216 % 256) (n / 65536 % 256) (n / 256 % 256) (n % 256) ≡ n
from_network32-network32 n h = omega (arith, h)

message_of_length_lem :
    (es : List (Option (ℕ × Bytes))) (calls : List Recv) (head body : Bytes)
    → Needed es
    → content es ≡ body
    → length body ≤ 9996
    → message_of_length (deliver es calls) head (4 + length body)
      ≡ returns (bytes (head ++ body) calls)
message_of_length_lem es calls head body h c high =
    let short : ltb 10000 (4 + length body) ≡ false = ground arith in
    let long : ltb (4 + length body) 4 ≡ false = ground arith in
    rw (short, long)
      (read_bytes-deliver es calls head (4 + length body - 4) h (omega (arith, ap length c))
        ∙ ap (λ b. returns (bytes (head ++ b) calls)) c)

-- A message of at most 10000 bytes whose first four are its length, in network order, is read as it was sent, however the
-- calls cut it and whatever signals come between; what follows is left for the next call.
pub read_message_lem :
    (ds es : List (Option (ℕ × Bytes))) (calls : List Recv) (body : Bytes)
    → Needed ds
    → Needed es
    → content ds ≡ network32 (4 + length body)
    → content es ≡ body
    → length body ≤ 9996
    → read_message (deliver ds (deliver es calls))
      ≡ returns (bytes (network32 (4 + length body) ++ body) calls)
unfolding read_message ntohl_at
read_message_lem ds es calls body h h' c c' high =
    ap (λ o. o >>= message_behind)
      (read_bytes-deliver ds (deliver es calls) [] 4 h (ap length (sym c)))
    ∙ ap (λ head. message_behind (bytes head (deliver es calls))) c
    ∙ ap (message_of_length (deliver es calls) (network32 (4 + length body)))
        (from_network32-network32 (4 + length body) (omega (arith, high)))
    ∙ message_of_length_lem es calls (network32 (4 + length body)) body h' c' high
