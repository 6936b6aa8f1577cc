-- ===== src/Proxy/Relay.antt =====
-- Assignment1/starter_code/proxy.c: `client_helper`, what the proxy does for a client, and the socket that it
-- listens on. What the calls of the system return is an argument; `send` takes all that it is given.
pub mod Requests
use computer_networks.Prelude.{
  ℕ, ◌+◌, ◌-◌, List, [], ◌∷◌, ◌++◌, Option, none, some, Bool, true, false, if◌then◌else◌, ◌==◌,
  ◌&&◌, ◌||◌, not, leb, take, drop, length, replicate, Outcome, returns, undefined, ◌>>=◌, Bytes,
  codes,
}
use computer_networks.Prelude.Sockets.{
  Chunk, got, closes, errs, Candidate, connect_first, recv_all, Address,
}
use computer_networks.Proxy.{String, ParsedRequest}
use computer_networks.Proxy.Headers.{crlf, before_crlf, read_string, ParsedHeader_set}
use computer_networks.Proxy.Parse.{max_req_len, ParsedRequest_parse}

abbrev pub up_to_nul : Bytes → Bytes
up_to_nul [] = []
up_to_nul (c ∷ rest) = if c == 0 then [] else c ∷ up_to_nul rest

abbrev pub has_crlf : Bytes → Bool
has_crlf text = elim (before_crlf text) [ none ↦ false | some line ↦ true ]

-- Everything but the last byte.
abbrev pub without_last : Bytes → Bytes
without_last [] = []
without_last (c ∷ rest) = elim rest [ [] ↦ [] | d ∷ ds ↦ c ∷ without_last rest ]

-- What the loop that receives the request comes to: the bytes at the start of `buff`, and what the last
-- call returned; or a wait.
pub data Received : Type 0 where
  received : Bytes → ℕ → Received
  receiving : Received

-- The loop, with the bytes that are in `buff`; the others are 0. A 0 is written behind them, which must
-- be inside the buffer. A call that fails takes one byte away, and what was there before has no CR LF.
-- A call that returns 0, since the client has closed the connection, is a round like one that brings no
-- bytes.
unfoldable pub receive : List Chunk → Bytes → Outcome Received
receive [] filled = returns receiving
receive (closes ∷ calls) filled =
    let rest = receive calls filled in
    if length filled == max_req_len
    then undefined
    else if has_crlf (up_to_nul filled)
    then returns (received filled 0)
    else rest
receive (errs ∷ calls) [] = undefined
receive (errs ∷ calls) (c ∷ filled) = receive calls (without_last (c ∷ filled))
receive (got bytes ∷ calls) filled =
    let piece = take (max_req_len - length filled) bytes in
    let all = filled ++ piece in
    let rest = receive calls all in
    if length all == max_req_len
    then undefined
    else if has_crlf (up_to_nul all)
    then returns (received all (length piece))
    else rest

-- The whole buffer.
abbrev pub buffer : Bytes → Bytes
buffer filled = filled ++ replicate (max_req_len - length filled) 0

-- `strcat(buff, "\r\n")`
unfoldable pub with_crlf : Bytes → Outcome Bytes
with_crlf filled =
    let text = up_to_nul filled in
    if leb (length text + 3) max_req_len
    then returns (text ++ (crlf ++ 0 ∷ drop (length text + 3) (buffer filled)))
    else undefined

abbrev starts_get : Bytes → Bool
starts_get (a ∷ b ∷ c ∷ rest) = a == 71 && b == 69 && c == 84
starts_get _ = false

-- `strstr(s, "GET") != NULL`
unfoldable pub has_get : Bytes → Bool
has_get [] = false
has_get (a ∷ rest) = starts_get (a ∷ rest) || has_get rest

abbrev pub server_error : Bytes
server_error = codes "HTTP/1.0 501 Server Error" ++ (crlf ++ crlf)

abbrev pub bad_request : Bytes
bad_request = codes "HTTP/1.0 400 Bad Request" ++ (crlf ++ crlf)

abbrev pub send_error : Bytes
send_error = codes "HTTP/1.0 500 server error" ++ (crlf ++ crlf)

-- What `client_helper` comes to: the process ends with this reply to the client; it returns without one;
-- it has sent these bytes to this host and port, and this reply to the client; or it waits.
pub data Handled : Type 0 where
  refused : Bytes → Handled
  unresolved : Handled
  forwarded : String → String → Bytes → Bytes → Handled
  waits : Handled

-- The addresses of a host and port, none where `getaddrinfo` fails; whether the `send` to the server
-- fails; and what the server sends.
pub record Network : Type 0 where
  pub getaddrinfo : String → String → Option (List Candidate)
  pub send_fails : Bool
  pub response : List Chunk

abbrev pub reply : String → String → Bytes → Bytes → Option Bytes → Handled
reply host port request first none = waits
reply host port request first (some rest) = forwarded host port request (first ++ rest)

-- Behind the parsing. On a descriptor that is not connected `send` and `recv` fail.
unfoldable pub relay : Network → String → String → Bytes → Handled
unfolding connect_first recv_all
relay net host port request = elim (net.getaddrinfo host port) [
  | none ↦ unresolved
  | some addresses ↦
      if connect_first addresses
      then (if net.send_fails
          then reply host port [] send_error (recv_all net.response)
          else reply host port request [] (recv_all net.response))
      else reply host port [] send_error (some [])
]

abbrev pub default_port : Option String → String
default_port none = codes "80"
default_port (some port) = port

-- The headers are set in the parsed request, but `buff` is sent.
unfoldable pub forward_request : Network → Bytes → ℕ → ParsedRequest → Outcome Handled
unfolding relay
forward_request net buff recd pr = do
  pr ← ParsedHeader_set pr (codes "Connection") (codes "close")
  host ← read_string pr.host
  pr ← ParsedHeader_set pr (codes "Host") host
  returns (relay net host (default_port pr.port) (take recd buff))

abbrev pub after_parse : Network → Bytes → ℕ → Option (Bool × ParsedRequest) → Outcome Handled
after_parse net buff recd none = returns waits
after_parse net buff recd (some (false, pr)) = returns (refused bad_request)
after_parse net buff recd (some (true, pr)) = forward_request net buff recd pr

-- `pr` is what `ParsedRequest_create` makes.
unfoldable pub handle : (String → Bool) → Network → ParsedRequest → Received → Outcome Handled
unfolding with_crlf has_get forward_request
handle bad_port net pr receiving = returns waits
handle bad_port net pr (received filled recd) = with_crlf filled >>= λ buff.
    if has_get (up_to_nul buff)
    then (ParsedRequest_parse bad_port pr (take (recd + 2) buff) >>= after_parse net buff recd)
    else returns (refused server_error)

unfoldable pub client_helper :
    (String → Bool) → Network → ParsedRequest → List Chunk → Outcome Handled
unfolding receive handle
client_helper bad_port net pr calls = receive calls [] >>= handle bad_port net pr

-- Whether `proxy` comes to its loop with a socket that listens; else it returns 1. A `bind` that fails
-- ends the search as one that succeeds does, and `listen` then fails on the closed socket.
unfoldable pub listens : List Address → Bool
listens [] = false
listens (a ∷ rest) =
    if a.socket_fails then listens rest else if a.setsockopt_fails then false else not a.bind_fails
