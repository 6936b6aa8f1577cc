-- ===== src/Transfer/Client/Answered.antt =====
-- client.c: what becomes of a request that the server answers.
use mathlib.Core.List.{append_assoc}
use computer_networks.Prelude.{
  ℕ, ◌+◌, ◌<◌, ◌≤◌, ◌≡◌, ◌≢◌, refl, ap, ◌∙◌, List, [], ◌∷◌, ◌++◌, Option, Bool, true, if◌then◌else◌,
  false, ltb, length, length-append, arith, All, returns, Bytes, codes,
}
use computer_networks.Stcp.Framing.{Call}
use computer_networks.Stcp.Framing.RoundTrip.{chunks}
use computer_networks.Transfer.Numbers.{decimal, scan_int}
use computer_networks.Transfer.Numbers.RoundTrip.{decimal-IsDigits, scan_int-decimal}
use computer_networks.Transfer.Server.{File, denied, not_opened, opened, status, end_of_line}
use computer_networks.Transfer.Server.Answers.{answer, length-decimal}
use computer_networks.Transfer.Client.{
  int_max, Round, stored, unavailable, round_of, receive_file, scanned, answer_round, line_size,
}
use computer_networks.Transfer.Client.Responses.{
  IsPlain, IsDigits-IsPlain, IsDigits-no_comma, Takes, fetch-chunks, response,
  answer_round-response,
}

-- The two fields of an answer behind the name, and what follows its line.
abbrev pub number : File → Bytes
number denied = 45 ∷ 49 ∷ []
number not_opened = 45 ∷ 49 ∷ []
number (opened content) = decimal (length content)

abbrev pub message : File → Bytes
message denied = codes "File does not exist or access denied"
message not_opened = codes "File could not be opened"
message (opened content) = codes "Ok"

abbrev pub body : File → Bytes
body denied = []
body not_opened = []
body (opened content) = content

abbrev pub head : Bytes → File → Bytes
head name file = response name (number file) (message file)

pub answer-head :
    (name : Bytes) (file : File) (rest : Bytes)
    → answer name file ++ rest ≡ head name file ++ (end_of_line ++ (body file ++ rest))
unfolding status
answer-head name denied rest = simp append_assoc
answer-head name not_opened rest = simp append_assoc
answer-head name (opened content) rest = simp append_assoc

-- The length of the file is an `int`.
abbrev pub Fits : File → Type 0
Fits denied = Unit
Fits not_opened = Unit
Fits (opened content) = length content ≤ int_max

Fits-number : (file : File) → IsPlain (number file) × All (λ b. b ≢ 44) (number file)
Fits-number denied = omega arith
Fits-number not_opened = omega arith
Fits-number (opened content) =
    let d = decimal-IsDigits (length content) in (IsDigits-IsPlain _ d, IsDigits-no_comma _ d)

message-IsPlain : (file : File) → IsPlain (message file) × All (λ b. b ≢ 44) (message file)
message-IsPlain denied = omega arith
message-IsPlain not_opened = omega arith
message-IsPlain (opened content) = omega arith

length-head :
    (name : Bytes) (file : File)
    → length name < 256
    → Fits file
    → length (head name file) < line_size
length-head name denied h f =
    omega (arith, h, length-append name (44 ∷ (number denied ++ 44 ∷ message denied)))
length-head name not_opened h f =
    omega (arith, h, length-append name (44 ∷ (number not_opened ++ 44 ∷ message not_opened)))
length-head name (opened content) h f = omega (
  arith,
  h,
  f,
  length-append name (44 ∷ (number (opened content) ++ 44 ∷ message (opened content))),
  length-append (decimal (length content)) (44 ∷ message (opened content)),
  length-decimal (length content) (omega (arith, f)),
)

abbrev pub round_with : Bool → File → Bytes → List Call → Round
round_with quiet_opt denied rest calls = unavailable rest calls
round_with quiet_opt not_opened rest calls = unavailable rest calls
round_with quiet_opt (opened content) rest calls =
    stored (if quiet_opt then [] else content) rest calls

Takes-nothing : (ls : List ℕ) → Takes ls 0 → ls ≡ []
Takes-nothing [] t = refl
Takes-nothing (k ∷ ls) t = absurd (omega (arith, t.0))

minus_one :
    (quiet_opt : Bool) (old : Option (Bool × ℕ)) (rest : Bytes) (calls : List Call)
    → receive_file quiet_opt true rest calls (scanned old (scan_int (45 ∷ 49 ∷ [])))
      ≡ returns (unavailable rest calls)
unfolding receive_file scan_int
minus_one quiet_opt old rest calls = refl

receive_file-body :
    (quiet_opt : Bool) (file : File) (old : Option (Bool × ℕ)) (rest : Bytes) (ls : List ℕ)
    (calls : List Call)
    → Fits file
    → Takes ls (length (body file))
    → receive_file quiet_opt true
        (body file ++ rest)
        (chunks ls calls)
        (scanned old (scan_int (number file)))
      ≡ returns (round_with quiet_opt file rest calls)
unfolding receive_file
receive_file-body quiet_opt denied old rest ls calls f t =
    minus_one quiet_opt old rest (chunks ls calls)
    ∙ ap (λ x. returns (unavailable rest (chunks x calls))) (Takes-nothing ls t)
receive_file-body quiet_opt not_opened old rest ls calls f t =
    minus_one quiet_opt old rest (chunks ls calls)
    ∙ ap (λ x. returns (unavailable rest (chunks x calls))) (Takes-nothing ls t)
receive_file-body quiet_opt (opened content) old rest ls calls f t =
    let in_range : ltb int_max (length content) ≡ false = ground arith in
    ap (λ l. receive_file quiet_opt true (content ++ rest) (chunks ls calls) (scanned old l))
      (scan_int-decimal (length content))
    ∙ rw in_range (
        ap (λ x. returns (round_of x))
          (fetch-chunks quiet_opt ls calls content rest (length content) refl t))

pub answer_round-answer :
    (quiet_opt : Bool) (old : Option (Bool × ℕ)) (name : Bytes) (file : File) (rest : Bytes)
    (ks ls : List ℕ) (calls : List Call)
    → length name < 256
    → IsPlain name
    → Fits file
    → length ks ≡ length (head name file) + 2
    → Takes ls (length (body file))
    → answer_round quiet_opt true old (chunks ks (chunks ls calls)) (answer name file ++ rest)
      ≡ returns (round_with quiet_opt file rest calls)
answer_round-answer quiet_opt old name file rest ks ls calls short plain f n t =
    ap (answer_round quiet_opt true old (chunks ks (chunks ls calls))) (answer-head name file rest)
    ∙ answer_round-response quiet_opt old name (number file) (message file) (body file ++ rest) ks
        (chunks ls calls) plain (Fits-number file).0 (message-IsPlain file).0
        ((Fits-number file).1, (message-IsPlain file).1) (length-head name file short f) n
    ∙ receive_file-body quiet_opt file old rest ls calls f t
