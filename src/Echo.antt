-- ===== src/Echo.antt =====
-- Assignment0/client.c and server.c: the client sends its standard input, and the server prints what its
-- clients send, one after the other. What the calls of the system return is an argument.
pub mod Streams
mod Tests
use computer_networks.Prelude.{
  ℕ, zero, suc, List, [], ◌∷◌, ◌++◌, Option, none, some, Bool, true, false, if◌then◌else◌, not,
  take, drop, Bytes,
}
use computer_networks.Prelude.Sockets.{Chunk, got, closes, errs, Candidate, connect_first, Address}

abbrev pub send_buffer_size : ℕ
send_buffer_size = 2048

-- The loop of the client: the bytes that `send` takes. A call takes so many bytes of the block, or none
-- where it returns -1; the loop goes on in either case. Without further results it waits.
unfoldable pub send_input : List (Option ℕ) → Bytes → Option Bytes
send_input sends [] = some []
send_input [] (c ∷ input) = none
send_input (none ∷ sends) (c ∷ input) = send_input sends (drop send_buffer_size (c ∷ input))
send_input (some k ∷ sends) (c ∷ input) =
    let block = take send_buffer_size (c ∷ input) in
    elim (send_input sends (drop send_buffer_size (c ∷ input))) [
      | none ↦ none
      | some more ↦ some (take k block ++ more)
    ]

-- What `client` comes to: the value that it returns, and what it has sent; or it waits.
pub data Sent : Type 0 where
  exits : ℕ → Bytes → Sent
  sending : Sent

abbrev pub finished : Option Bytes → Sent
finished none = sending
finished (some bytes) = exits 0 bytes

-- Where no address accepts, all calls of `send` fail, and 0 is returned all the same.
unfoldable pub client : Option (List Candidate) → List (Option ℕ) → Bytes → Sent
unfolding connect_first send_input
client none sends input = exits 1 []
client (some addresses) sends input =
    if connect_first addresses then finished (send_input sends input) else exits 0 []

-- Whether the loop finds an address to listen on. A `setsockopt` that fails ends the program.
unfoldable pub bind_first : List Address → Bool
bind_first [] = false
bind_first (a ∷ rest) =
    let later = bind_first rest in
    if a.socket_fails
    then later
    else if a.setsockopt_fails
    then false
    else if a.bind_fails
    then later
    else true

-- What is printed for one connection, and whether it has ended.
unfoldable pub print_chunks : List Chunk → Bytes × Bool
print_chunks [] = ([], false)
print_chunks (closes ∷ rest) = ([], true)
print_chunks (errs ∷ rest) = ([], true)
print_chunks (got bytes ∷ rest) = (bytes ++ (print_chunks rest).0, (print_chunks rest).1)

-- The loop of the server, with what each connection brings, or none where `accept` fails. It takes the
-- next connection when the one before has ended.
unfoldable pub print_connections : List (Option (List Chunk)) → Bytes
unfolding print_chunks
print_connections [] = []
print_connections (none ∷ rest) = print_connections rest
print_connections (some chunks ∷ rest) =
    let later = print_connections rest in
    (print_chunks chunks).0 ++ (if (print_chunks chunks).1 then later else [])

-- None where the program ends, since `listen` fails on a socket that is closed.
unfoldable pub server : List Address → List (Option (List Chunk)) → Option Bytes
unfolding bind_first print_connections
server addresses connections =
    if bind_first addresses then some (print_connections connections) else none
