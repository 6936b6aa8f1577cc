-- ===== src/Transfer/Server/Session.antt =====
-- server.c: a connection that brings any number of requests and then ends.
use computer_networks.Prelude.{
  ℕ, ◌+◌, ◌<◌, ◌≡◌, ◌≢◌, refl, ap, ◌∙◌, List, [], ◌∷◌, ◌++◌, true, ltb, length, drop-prefix, concat,
  map, arith, All, ==_of_ne, Outcome, returns, ◌>>=◌, Bytes,
}
use computer_networks.Stcp.Framing.{Call, ends}
use computer_networks.Stcp.Framing.RoundTrip.{chunks}
use computer_networks.Proxy.Headers.{crlf}
use computer_networks.Proxy.Headers.Line.{before_crlf-append}
use computer_networks.Transfer.Lines.{line, get_nvt_line, up_to_nul}
use computer_networks.Transfer.Lines.Reading.{get_nvt_line_lem}
use computer_networks.Transfer.Server.{
  File, Turn, process_line, Conversation, closed, session_behind, request, after, do_connection,
  request_size,
}
use computer_networks.Transfer.Server.Answers.{answer, Serves, process_line_lem}

-- A name that can be asked for: not empty, of at most 255 bytes, without 0 and CR.
abbrev pub IsName : Bytes → Type 0
IsName [] = ⊥
IsName (c ∷ cs) = (length (c ∷ cs) < 256) × All (λ b. (b ≢ 0) × (b ≢ 13)) (c ∷ cs)

-- What the client sends, and calls of `myread` that return one byte each.
abbrev pub lines : List Bytes → Bytes
lines [] = []
lines (name ∷ names) = name ++ (crlf ++ lines names)

abbrev pub line_reads : List (List ℕ) → List Call
line_reads [] = ends ∷ []
line_reads (ks ∷ kss) = chunks ks (line_reads kss)

abbrev pub ReadsLines : List Bytes → List (List ℕ) → Type 0
ReadsLines [] [] = Unit
ReadsLines [] (ks ∷ kss) = ⊥
ReadsLines (name ∷ names) [] = ⊥
ReadsLines (name ∷ names) (ks ∷ kss) = (length ks ≡ length name + 2) × ReadsLines names kss

abbrev pub AllServe : (Bytes → File) → List Bytes → List Turn → Type 0
AllServe files [] turns = Unit
AllServe files (name ∷ names) [] = ⊥
AllServe files (name ∷ names) (turn ∷ turns) =
    IsName name × Serves (files name) turn × AllServe files names turns

up_to_nul-name : (s : Bytes) → All (λ b. (b ≢ 0) × (b ≢ 13)) s → up_to_nul s ≡ s
up_to_nul-name [] h = refl
up_to_nul-name (c ∷ s) h = rw (==_of_ne c 0 h.0.0) (ap (◌∷◌ c) (up_to_nul-name s h.1))

no_cr : (s : Bytes) → All (λ b. (b ≢ 0) × (b ≢ 13)) s → All (λ b. b ≢ 13) s
no_cr [] h = tt
no_cr (c ∷ s) h = (h.0.1, no_cr s h.1)

-- The line of a name is read.
pub get_nvt_line-name :
    (name rest : Bytes) (ks : List ℕ) (calls : List Call) (size : ℕ)
    → length name < size
    → All (λ b. (b ≢ 0) × (b ≢ 13)) name
    → length ks ≡ length name + 2
    → get_nvt_line size (chunks ks calls) (name ++ (crlf ++ rest)) ≡ returns (line name rest calls)
get_nvt_line-name name rest ks calls size short ok n =
    let fits : ltb (length name) size ≡ true = ground arith in
    get_nvt_line_lem size ks calls (name ++ (crlf ++ rest)) name
      (before_crlf-append name rest (no_cr name ok)) n
    ∙ rw fits (
        ap (λ r. returns (line name r calls))
          (drop-prefix name (crlf ++ rest) (length name + 2) 2 (omega arith)))

-- The answers to the requests, in their order.
abbrev pub answers : (Bytes → File) → List Bytes → Bytes
answers files names = concat (map (λ name. answer name (files name)) names)

get_nvt_line-ends : get_nvt_line request_size (ends ∷ []) [] ≡ returns (line [] [] [])
unfolding get_nvt_line
get_nvt_line-ends = refl

request-name :
    (next : Bytes → Bytes → List Call → Outcome Conversation) (c : ℕ) (cs stream : Bytes)
    (calls : List Call)
    → All (λ b. (b ≢ 0) × (b ≢ 13)) (c ∷ cs)
    → request next (line (c ∷ cs) stream calls) ≡ next (c ∷ cs) stream calls
request-name next c cs stream calls ok = rw (up_to_nul-name (c ∷ cs) ok, request) refl

-- Each request on a connection, however many there are, is answered in its turn, and the end of the
-- connection closes the mysocket; the names are not empty, have at most 255 bytes, none of them 0 or CR,
-- the files are shorter than 2^64 bytes, and no call fails.
pub do_connection_lem :
    (files : Bytes → File) (names : List Bytes) (turns : List Turn) (kss : List (List ℕ))
    → AllServe files names turns
    → ReadsLines names kss
    → do_connection files turns (line_reads kss) (lines names)
      ≡ returns (closed (answers files names))
unfolding do_connection
do_connection_lem files [] [] [] s r = rw (get_nvt_line-ends, do_connection) refl
do_connection_lem files [] (turn ∷ turns) [] s r = rw (get_nvt_line-ends, do_connection) refl
do_connection_lem files [] turns (ks ∷ kss) s r = elim r [ ]
do_connection_lem files (name ∷ names) turns [] s r = elim r [ ]
do_connection_lem files (name ∷ names) [] (ks ∷ kss) s r = elim s [ ]
do_connection_lem files ([] ∷ names) (turn ∷ turns) (ks ∷ kss) s r = elim s.0 [ ]
do_connection_lem files ((c ∷ cs) ∷ names) (turn ∷ turns) (ks ∷ kss) ((short, ok), serves, s)
      (n, r) =
    let name = c ∷ cs in
    let next : Bytes → Bytes → List Call → Outcome Conversation = λ name stream calls.
      process_line (files name) turn name >>= λ served.
      after served (do_connection files turns calls stream) in
    ap (λ o. o >>= request next)
      (get_nvt_line-name name (lines names) ks (line_reads kss) request_size short ok n)
    ∙ request-name next c cs (lines names) (line_reads kss) ok
    ∙ ap
        (λ o.
          o >>= λ served. after served (do_connection files turns (line_reads kss) (lines names)))
        (process_line_lem (files name) turn name short serves)
    ∙ ap (λ o. o >>= λ s. returns (session_behind (answer name (files name)) s))
        (do_connection_lem files names turns kss s r)
