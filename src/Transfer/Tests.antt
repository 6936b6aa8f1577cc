-- ===== src/Transfer/Tests.antt =====
-- Runs of the file transfer on small inputs.
use computer_networks.Prelude.{
  ◌≡◌, refl, List, [], ◌∷◌, ◌++◌, none, some, false, if◌then◌else◌, ltb, replicate, arith, returns,
  undefined, Bytes, codes,
}
use computer_networks.Prelude.Words.{swap16}
use computer_networks.Stcp.Framing.RoundTrip.{chunks}
use computer_networks.Proxy.Headers.{before_crlf, crlf}
use computer_networks.Transfer.Numbers.{decimal}
use computer_networks.Transfer.Lines.{line, get_nvt_line}
use computer_networks.Transfer.Lines.Reading.{get_nvt_line_lem}
use computer_networks.Transfer.Server.{File, denied, opened, Turn, closed, do_connection}
use computer_networks.Transfer.Server.Answers.{reads}
use computer_networks.Transfer.Server.Session.{
  AllServe, lines, line_reads, answers, do_connection_lem,
}
use computer_networks.Transfer.Client.{drop_spaces, ended, interactive, parse_address, with_address}
use computer_networks.Transfer.Client.Address.{parse_address_lem}
use computer_networks.Transfer.Whole.{AllFetch, typed, answer_reads, interactive-do_connection}

line_ends : before_crlf (codes "ab" ++ crlf) ≡ some (codes "ab")
unfolding before_crlf
line_ends = refl

get_nvt_line_lem_example :
    get_nvt_line 2 (chunks (replicate 4 0) []) (codes "ab" ++ crlf)
    ≡ (if ltb 2 2 then returns (line (codes "ab") [] []) else undefined)
get_nvt_line_lem_example =
    get_nvt_line_lem 2 (replicate 4 0) [] (codes "ab" ++ crlf) (codes "ab") line_ends refl

-- Two files; the second cannot be read.
abbrev files : Bytes → File
files [] = denied
files (c ∷ name) = if ltb c b'm' then opened (7 ∷ 8 ∷ 9 ∷ []) else denied

abbrev names : List Bytes
names = codes "ab" ∷ codes "xy" ∷ []

abbrev turns : List Turn
turns =
    record { refused = false; rounds = reads (0 ∷ 5 ∷ []) }
    ∷ record { refused = false; rounds = [] }
    ∷ []

serves : AllServe files names turns
serves = (
  (omega arith, omega arith),
  (refl, omega arith, 0 ∷ 5 ∷ [], refl, omega arith),
  ((omega arith, omega arith), refl, tt),
)

fetches : AllFetch files names ((replicate 9 0, 1 ∷ 0 ∷ []) ∷ (replicate 44 0, []) ∷ [])
unfolding drop_spaces decimal
fetches = (
  (omega arith, omega arith),
  (omega arith, refl),
  omega arith,
  refl,
  omega arith,
  ((omega arith, omega arith), (omega arith, refl), tt, refl, refl, tt),
)

do_connection_lem_example :
    do_connection files turns (line_reads (replicate 4 0 ∷ replicate 4 0 ∷ [])) (lines names)
    ≡ returns (closed (answers files names))
do_connection_lem_example =
    do_connection_lem files names turns (replicate 4 0 ∷ replicate 4 0 ∷ []) serves
      (refl, (refl, tt))

interactive-do_connection_example :
    (requests : Bytes) × (out : Bytes) × (do_connection files turns
        (line_reads (replicate 4 0 ∷ replicate 4 0 ∷ []))
        requests
      ≡ returns (closed out))
    × (interactive false none
          (typed names)
          (answer_reads ((replicate 9 0, 1 ∷ 0 ∷ []) ∷ (replicate 44 0, []) ∷ []))
          out
        ≡ returns (ended requests ((7 ∷ 8 ∷ 9 ∷ []) ∷ [])))
interactive-do_connection_example =
    interactive-do_connection files names turns (replicate 4 0 ∷ replicate 4 0 ∷ [])
      ((replicate 9 0, 1 ∷ 0 ∷ []) ∷ (replicate 44 0, []) ∷ []) serves (refl, (refl, tt)) fetches

-- A port above 65535 loses its upper bits: 65616 is 80.
parse_address_lem_example :
    (parse_address (λ s. none) (λ s. some (127 ∷ 0 ∷ 0 ∷ 1 ∷ [])) (codes "vm" ++ 58 ∷ decimal 65616)
      ≡ returns (with_address none (some (127 ∷ 0 ∷ 0 ∷ 1 ∷ [])) (some (swap16 80))))
    × (parse_address (λ s. none) (λ s. some (127 ∷ 0 ∷ 0 ∷ 1 ∷ [])) (codes "vm")
        ≡ returns (with_address none (some (127 ∷ 0 ∷ 0 ∷ 1 ∷ [])) (some 0)))
parse_address_lem_example =
    parse_address_lem (λ s. none) (λ s. some (127 ∷ 0 ∷ 0 ∷ 1 ∷ [])) (codes "vm") 65616
      (omega arith) (omega arith)
