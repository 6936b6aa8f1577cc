-- ===== src/Transfer/Server.antt =====
-- Assignment3/src/server.c: a request for a file, and the connection that brings the requests. The files
-- are an argument, and so are the results of the calls of `read` and `mywrite`. The conversions of the
-- length and of the text are those of a host where `unsigned long` and `off_t` have 64 bits.
pub mod Answers
pub mod Session
use computer_networks.Prelude.{
  ℕ, zero, suc, List, [], ◌∷◌, ◌++◌, Bool, true, false, if◌then◌else◌, ltb, take, drop, min, length,
  Outcome, returns, undefined, ◌>>=◌, Bytes, codes,
}
use computer_networks.Stcp.Framing.{Call, moves, ends, fails}
use computer_networks.Transfer.Numbers.{decimal}
use computer_networks.Transfer.Lines.{Line, line, no_line, still_reading, get_nvt_line, up_to_nul}

abbrev pub request_size : ℕ
request_size = 256

abbrev pub resp_size : ℕ
resp_size = 5000

-- What `access` and `open` find under a name.
pub data File : Type 0 where
  denied : File
  not_opened : File
  opened : Bytes → File

abbrev pub end_of_line : Bytes
end_of_line = 13 ∷ 10 ∷ []

-- What `sprintf` puts behind the name.
unfoldable pub status : File → Bytes
status denied = codes ",-1,File does not exist or access denied" ++ end_of_line
status not_opened = codes ",-1,File could not be opened" ++ end_of_line
status (opened content) = codes "," ++ (decimal (length content) ++ (codes ",Ok" ++ end_of_line))

-- The results of the calls for one request: whether the first `mywrite` fails; then those of `read`, each
-- with whether the `mywrite` that follows it fails.
pub record Turn : Type 0 where
  pub refused : Bool
  pub rounds : List (Call × Bool)

-- What `process_line` comes to: what it wrote, and whether it returns 0.
pub data Served : Type 0 where
  answered : Bytes → Bool → Served
  still_serving : Served

abbrev pub written_first : Bytes → Served → Served
written_first bytes (answered out ok) = answered (bytes ++ out) ok
written_first bytes still_serving = still_serving

-- The loop over the file.
unfoldable pub send_file : List (Call × Bool) → Bytes → Served
send_file [] content = still_serving
send_file ((fails, write_fails) ∷ rounds) content = answered [] false
send_file ((ends, write_fails) ∷ rounds) content = answered [] true
send_file ((moves k, write_fails) ∷ rounds) [] = answered [] true
send_file ((moves k, write_fails) ∷ rounds) (c ∷ content) =
    let n = min (suc k) resp_size in
    let rest = send_file rounds (drop n (c ∷ content)) in
    if write_fails then answered [] false else written_first (take n (c ∷ content)) rest

abbrev sprintf_resp : Bytes → Outcome Bytes
sprintf_resp s = if ltb (length s) resp_size then returns s else undefined

-- What follows the status.
abbrev send_content : List (Call × Bool) → File → Served
send_content rounds denied = answered [] true
send_content rounds not_opened = answered [] true
send_content rounds (opened content) = send_file rounds content

unfoldable pub process_line : File → Turn → Bytes → Outcome Served
unfolding status send_file
process_line file turn name = do
  resp ← sprintf_resp (name ++ status file)
  returns (
      if turn.refused
      then answered [] false
      else written_first resp (send_content turn.rounds file))

-- What `do_connection` comes to: what it wrote before it closes the mysocket, or before it waits.
pub data Conversation : Type 0 where
  closed : Bytes → Conversation
  open_still : Conversation

abbrev pub session_behind : Bytes → Conversation → Conversation
session_behind bytes (closed out) = closed (bytes ++ out)
session_behind bytes open_still = open_still

-- A line that is read; the connection ends with an empty one.
abbrev pub request :
    (Bytes → Bytes → List Call → Outcome Conversation) → Line → Outcome Conversation
request next no_line = returns (closed [])
request next still_reading = returns open_still
request next (line text stream calls) = elim (up_to_nul text) [
  | [] ↦ returns (closed [])
  | c ∷ cs ↦ next (c ∷ cs) stream calls
]

abbrev pub after : Served → Outcome Conversation → Outcome Conversation
after still_serving next = returns open_still
after (answered out false) next = returns (closed out)
after (answered out true) next = next >>= λ s. returns (session_behind out s)

unfoldable pub do_connection : (Bytes → File) → List Turn → List Call → Bytes → Outcome Conversation
unfolding process_line
do_connection files [] calls stream =
    get_nvt_line request_size calls stream >>= request (λ name stream calls. returns open_still)
do_connection files (turn ∷ turns) calls stream =
    get_nvt_line request_size calls stream
    >>= request (λ name stream calls. process_line (files name) turn name >>= λ served.
        after served (do_connection files turns calls stream))
