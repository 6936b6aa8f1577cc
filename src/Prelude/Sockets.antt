-- ===== src/Prelude/Sockets.antt =====
-- Assignment0/client.c, Assignment0/server.c and Assignment1/starter_code/proxy.c: what the calls on
-- sockets return, and the loops that they share.
use mathlib.Core.Bool.{Bool, true, false}
use mathlib.Core.List.{List, [], ◌∷◌, ◌++◌}
use mathlib.Core.Option.{Option, none, some}
use computer_networks.Prelude.Memory.{Bytes}

-- A call of `recv`: bytes, at least one; 0, the end of the connection; or -1.
pub data Chunk : Type 0 where
  got : Bytes → Chunk
  closes : Chunk
  errs : Chunk

-- An address that `getaddrinfo` found: `socket` fails for it, or `connect`, or neither.
pub data Candidate : Type 0 where
  no_socket : Candidate
  refuses : Candidate
  accepts : Candidate

-- Whether the descriptor behind the loop is connected. If not, it is -1 or closed already; the test for
-- this stands inside the loop, behind its `break`, and is never made.
unfoldable pub connect_first : List Candidate → Bool
connect_first [] = false
connect_first (no_socket ∷ rest) = connect_first rest
connect_first (refuses ∷ rest) = connect_first rest
connect_first (accepts ∷ rest) = true

-- An address to listen on: whether `socket`, `setsockopt` and `bind` fail for it.
pub record Address : Type 0 where
  pub socket_fails : Bool
  pub setsockopt_fails : Bool
  pub bind_fails : Bool

-- A loop of `recv` that passes on what it gets until the connection ends or fails. None is a wait.
unfoldable pub recv_all : List Chunk → Option Bytes
recv_all [] = none
recv_all (closes ∷ rest) = some []
recv_all (errs ∷ rest) = some []
recv_all (got bytes ∷ rest) = elim (recv_all rest) [
  | none ↦ none
  | some more ↦ some (bytes ++ more)
]
