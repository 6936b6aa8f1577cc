-- ===== src/Transfer/Lines.antt =====
-- Assignment3/src/client.c and server.c: `get_nvt_line`, which both have. The stream is what
-- the peer has sent; a call of `myread` that is to return a positive number waits for its first byte.
pub mod Reading
use computer_networks.Prelude.{
  ℕ, zero, suc, List, [], ◌∷◌, ◌++◌, Bool, true, false, if◌then◌else◌, ◌==◌, ◌&&◌, Outcome, returns,
  undefined, Bytes,
}
use computer_networks.Stcp.Framing.{Call, moves, ends, fails}

-- What `get_nvt_line` comes to: 0 with the bytes in front of the 0 that it puts behind the line; or -1.
pub data Line : Type 0 where
  line : Bytes → Bytes → List Call → Line
  no_line : Line
  still_reading : Line

-- A 0 in the place of the last byte written.
abbrev pub without_last : Bytes → Bytes
without_last [] = []
without_last (c ∷ rest) = elim rest [ [] ↦ [] | d ∷ ds ↦ c ∷ without_last rest ]

-- The loop, with room for so many bytes more behind those that are written. Each call asks for one
-- byte.
unfoldable pub nvt_from : ℕ → ℕ → Bytes → List Call → Bytes → Outcome Line
nvt_from room last_char written [] stream = returns still_reading
nvt_from room last_char written (fails ∷ calls) stream = returns no_line
nvt_from zero last_char written (ends ∷ calls) stream = undefined
nvt_from (suc room) last_char written (ends ∷ calls) stream = returns (line written stream calls)
nvt_from room last_char written (moves k ∷ calls) [] = returns still_reading
nvt_from zero last_char written (moves k ∷ calls) (c ∷ stream) =
    if last_char == 13 && c == 10
    then returns (line (without_last written) stream calls)
    else undefined
nvt_from (suc room) last_char written (moves k ∷ calls) (c ∷ stream) =
    let rest = nvt_from room c (written ++ c ∷ []) calls stream in
    if last_char == 13 && c == 10 then returns (line (without_last written) stream calls) else rest

unfoldable pub get_nvt_line : ℕ → List Call → Bytes → Outcome Line
unfolding nvt_from
get_nvt_line size calls stream = nvt_from size 0 [] calls stream

-- A C string ends before its first 0.
abbrev pub up_to_nul : Bytes → Bytes
up_to_nul [] = []
up_to_nul (c ∷ rest) = if c == 0 then [] else c ∷ up_to_nul rest
