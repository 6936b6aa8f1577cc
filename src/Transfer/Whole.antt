-- ===== src/Transfer/Whole.antt =====
-- client.c and server.c together: the client asks for any number of files, and the server sends them.
use mathlib.Core.List.{append_assoc}
use computer_networks.Prelude.{
  ℕ, ◌+◌, ◌<◌, ◌≤◌, ◌≡◌, refl, ap, ◌∙◌, List, [], ◌∷◌, ◌++◌, Option, none, some, Bool, true, false,
  ◌==◌, leb, length, map, arith, Outcome, returns, Bytes,
}
use computer_networks.Stcp.Framing.{Call}
use computer_networks.Stcp.Framing.RoundTrip.{chunks}
use computer_networks.Transfer.Lines.{up_to_nul}
use computer_networks.Transfer.Server.{
  File, denied, not_opened, opened, Turn, closed, do_connection,
}
use computer_networks.Transfer.Server.Session.{
  IsName, lines, line_reads, ReadsLines, AllServe, answers, do_connection_lem,
}
use computer_networks.Transfer.Client.{
  drop_spaces, typed_request, answer_round, Round, Run, ended, follow, interactive,
}
use computer_networks.Transfer.Client.Responses.{IsPlain, Takes, up_to_nul-IsPlain, IsPlain-append}
use computer_networks.Transfer.Client.Answered.{head, body, Fits, round_with, answer_round-answer}

-- What the user types: the name and the end of the line.
abbrev pub typed : List Bytes → List (Bytes × Bool × Bool)
typed names = map (λ name. (name ++ 10 ∷ [], false, true)) names

-- A name of two characters or more without spaces at its end.
abbrev pub IsTyped : Bytes → Type 0
IsTyped name = (2 ≤ length name) × (drop_spaces name ≡ name)

-- The calls of `myread` for the answers: byte by byte for the line, in any pieces for the content.
abbrev pub answer_reads : List (List ℕ × List ℕ) → List Call
answer_reads [] = []
answer_reads ((ks, ls) ∷ cuts) = chunks ks (chunks ls (answer_reads cuts))

abbrev pub AllFetch : (Bytes → File) → List Bytes → List (List ℕ × List ℕ) → Type 0
AllFetch files [] [] = Unit
AllFetch files [] (c ∷ cuts) = ⊥
AllFetch files (name ∷ names) [] = ⊥
AllFetch files (name ∷ names) ((ks, ls) ∷ cuts) =
    IsName name
    × IsTyped name
    × Fits (files name)
    × (length ks ≡ length (head name (files name)) + 2)
    × Takes ls (length (body (files name)))
    × AllFetch files names cuts

abbrev content : File → List Bytes
content denied = []
content not_opened = []
content (opened bytes) = bytes ∷ []

-- The files that can be opened, in the order of the names.
abbrev pub contents : (Bytes → File) → List Bytes → List Bytes
contents files [] = []
contents files (name ∷ names) = content (files name) ++ contents files names

drop_spaces-newline : (s : Bytes) → drop_spaces (s ++ 10 ∷ []) ≡ drop_spaces s
unfolding drop_spaces
drop_spaces-newline [] = refl
drop_spaces-newline (c ∷ s) = rw (drop_spaces-newline s) refl

typed_request-name :
    (name : Bytes)
    → length name < 256
    → IsPlain name
    → IsTyped name
    → typed_request (name ++ 10 ∷ []) ≡ returns (some (name ++ 13 ∷ 10 ∷ []))
unfolding typed_request
typed_request-name name short plain (two, ends) =
    let newline : IsPlain (10 ∷ []) = omega arith in
    let whole : drop_spaces (up_to_nul (name ++ 10 ∷ [])) ≡ name =
      ap drop_spaces
        (up_to_nul-IsPlain (name ++ 10 ∷ []) (IsPlain-append name (10 ∷ []) plain newline))
      ∙ drop_spaces-newline name
      ∙ ends in
    let not_short : leb (length name) 1 ≡ false = ground arith in
    let fits : leb (length name + 3) 1000 ≡ true = ground arith in
    rw (whole, typed_request) (rw (not_short, fits) refl)

interactive-step :
    (old : Option (Bool × ℕ)) (inputs : List (Bytes × Bool × Bool)) (calls : List Call)
    (stream text : Bytes) {sent : Bytes} {r : Round}
    → typed_request text ≡ returns (some sent)
    → answer_round false true old calls stream ≡ returns r
    → interactive false old ((text, false, true) ∷ inputs) calls stream
      ≡ follow (λ n stream calls. interactive false (some (n == 1, n)) inputs calls stream) sent r
unfolding interactive
interactive-step old inputs calls stream text t a = rw (t, interactive) (rw a refl)

follow-file :
    (next : ℕ → Bytes → List Call → Outcome Run) (sent : Bytes) (file : File) (rest : Bytes)
    (calls : List Call) {sent' : Bytes} {stored' : List Bytes}
    → ((n : ℕ) → next n rest calls ≡ returns (ended sent' stored'))
    → follow next sent (round_with false file rest calls)
      ≡ returns (ended (sent ++ sent') (content file ++ stored'))
follow-file next sent denied rest calls h = rw (h 1) refl
follow-file next sent not_opened rest calls h = rw (h 1) refl
follow-file next sent (opened bytes) rest calls h = rw (h 0) refl

-- The client sends the names as lines, and stores the files that can be opened.
interactive_lem :
    (files : Bytes → File) (names : List Bytes) (cuts : List (List ℕ × List ℕ))
    (old : Option (Bool × ℕ))
    → AllFetch files names cuts
    → interactive false old (typed names) (answer_reads cuts) (answers files names)
      ≡ returns (ended (lines names) (contents files names))
interactive_lem files [] [] old a = unfold interactive in refl
interactive_lem files [] (c ∷ cuts) old a = elim a [ ]
interactive_lem files (name ∷ names) [] old a = elim a [ ]
interactive_lem files ([] ∷ names) ((ks, ls) ∷ cuts) old a = elim a.0 [ ]
interactive_lem files ((c ∷ cs) ∷ names) ((ks, ls) ∷ cuts) old ((short, plain), t, f, n, l, a) =
    let name = c ∷ cs in
    interactive-step old (typed names) (chunks ks (chunks ls (answer_reads cuts)))
      (answers files (name ∷ names)) (name ++ 10 ∷ []) (typed_request-name name short plain t)
      (answer_round-answer false old name (files name) (answers files names) ks ls
        (answer_reads cuts) short plain f n l)
    ∙ follow-file
        (λ n stream calls. interactive false (some (n == 1, n)) (typed names) calls stream)
        (name ++ 13 ∷ 10 ∷ []) (files name) (answers files names) (answer_reads cuts)
        (λ n. interactive_lem files names cuts (some (n == 1, n)) a)
    ∙ ap (λ x. returns (ended x (contents files (name ∷ names))))
        (append_assoc name (13 ∷ 10 ∷ []) (lines names))

-- The client asks for any number of files, and the server answers: all requests arrive, and the client
-- stores the content of every file that can be opened, in the order of the names, however the calls of
-- `read` and `myread` cut it. The names have 2 to 255 bytes, no 0 and no CR, and no space at the end; the
-- files have less than 2^31 bytes; no call fails, and the option -q is not given.
pub interactive-do_connection :
    (files : Bytes → File) (names : List Bytes) (turns : List Turn) (kss : List (List ℕ))
    (cuts : List (List ℕ × List ℕ))
    → AllServe files names turns
    → ReadsLines names kss
    → AllFetch files names cuts
    → (requests : Bytes) × (out : Bytes) × (do_connection files turns (line_reads kss) requests
        ≡ returns (closed out))
      × (interactive false none (typed names) (answer_reads cuts) out
          ≡ returns (ended requests (contents files names)))
interactive-do_connection files names turns kss cuts s r a = (
  lines names,
  answers files names,
  do_connection_lem files names turns kss s r,
  interactive_lem files names cuts none a,
)
