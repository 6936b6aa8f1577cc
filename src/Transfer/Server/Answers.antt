-- ===== src/Transfer/Server/Answers.antt =====
-- server.c: what the server answers to one request.
use mathlib.Core.List.{append-nil}
use computer_networks.Prelude.{
  ℕ, zero, suc, ◌+◌, ◌*◌, ◌/◌, ◌%◌, ◌^◌, ◌<◌, ◌≤◌, ◌≡◌, inl, inr, refl, ap, ◌∙◌, List, [], ◌∷◌,
  ◌++◌, Bool, true, false, ◌==◌, Bool-cases, ltb, take, drop, min, length, length-append,
  length-drop, take-append-drop, arith, returns, Bytes, codes,
}
use computer_networks.Stcp.Framing.{Call, moves, ends}
use computer_networks.Transfer.Numbers.{digits, decimal}
use computer_networks.Transfer.Server.{
  File, denied, not_opened, opened, status, resp_size, Turn, answered, written_first, send_file,
  send_content, process_line, end_of_line,
}

-- Calls of `read` that return so many bytes and one more, and the end of the file behind them.
abbrev pub reads : List ℕ → List (Call × Bool)
reads [] = (ends, false) ∷ []
reads (k ∷ ks) = (moves k, false) ∷ reads ks

-- What they read at most.
abbrev pub capacity : List ℕ → ℕ
capacity [] = 0
capacity (k ∷ ks) = min (suc k) resp_size + capacity ks

send_file-reads :
    (ks : List ℕ) (content : Bytes)
    → length content ≤ capacity ks
    → send_file (reads ks) content ≡ answered content true
unfolding send_file
send_file-reads [] [] h = refl
send_file-reads [] (c ∷ content) h = absurd (omega arith)
send_file-reads (k ∷ ks) [] h = refl
send_file-reads (k ∷ ks) (c ∷ content) h =
    let n = min (suc k) resp_size in
    ap (written_first (take n (c ∷ content)))
      (send_file-reads ks (drop n (c ∷ content)) (omega (arith, h, length-drop n (c ∷ content))))
    ∙ ap (λ x. answered x true) (take-append-drop n (c ∷ content))

length-digits :
    (rounds n k : ℕ) (out : Bytes)
    → n < 10 ^ suc k
    → length (digits rounds n out) ≤ suc k + length out
unfolding digits
length-digits zero n k out h = omega arith
length-digits (suc rounds) n zero out h =
    let e : (n / 10 == 0) ≡ true = ground arith in rw e (omega arith)
length-digits (suc rounds) n (suc k) out h =
    let small : n < 10 * 10 ^ suc k = omega (arith, h) in
    elim (Bool-cases (n / 10 == 0)) [
      | inl e ↦ rw e (omega arith)
      | inr e ↦ rw e (
          omega
            (arith, length-digits rounds (n / 10) k ((48 + n % 10) ∷ out) (omega (arith, small))))
    ]

pub length-decimal : (n : ℕ) → n < 2 ^ 64 → length (decimal n) ≤ 20
unfolding decimal
length-decimal n h = omega (arith, length-digits (suc n) n 19 [] (omega arith))

respond :
    (file : File) (turn : Turn) (name : Bytes) {content : Bytes}
    → length (name ++ status file) < resp_size
    → turn.refused ≡ false
    → send_content turn.rounds file ≡ answered content true
    → process_line file turn name ≡ returns (answered ((name ++ status file) ++ content) true)
unfolding process_line
respond file turn name h r c =
    let fits : ltb (length (name ++ status file)) resp_size ≡ true = ground arith in
    rw (fits, process_line) (rw (r, c) refl)

-- What the server writes for a file.
abbrev pub answer : Bytes → File → Bytes
answer name denied = name ++ status denied
answer name not_opened = name ++ status not_opened
answer name (opened content) = (name ++ status (opened content)) ++ content

-- The files of the host are shorter than 2^64 bytes, and the calls read all of an open one.
abbrev pub Serves : File → Turn → Type 0
Serves denied turn = turn.refused ≡ false
Serves not_opened turn = turn.refused ≡ false
Serves (opened content) turn =
    (turn.refused ≡ false)
    × (length content < 2 ^ 64)
    × (ks : List ℕ) × (turn.rounds ≡ reads ks)
    × (length content ≤ capacity ks)

length-status-denied : length (status denied) < 100
unfolding status
length-status-denied = omega arith

length-status-not_opened : length (status not_opened) < 100
unfolding status
length-status-not_opened = omega arith

length-status-opened :
    (content : Bytes) → length content < 2 ^ 64 → length (status (opened content)) < 100
unfolding status
length-status-opened content h = omega (
  arith,
  length-decimal (length content) h,
  length-append (decimal (length content)) (codes ",Ok" ++ end_of_line),
)

pub process_line_lem :
    (file : File) (turn : Turn) (name : Bytes)
    → length name < 256
    → Serves file turn
    → process_line file turn name ≡ returns (answered (answer name file) true)
process_line_lem denied turn name h s =
    respond denied turn name
      (omega (arith, h, length-append name (status denied), length-status-denied)) s refl
    ∙ ap (λ x. returns (answered x true)) (append-nil (name ++ status denied))
process_line_lem not_opened turn name h s =
    respond not_opened turn name
      (omega (arith, h, length-append name (status not_opened), length-status-not_opened)) s refl
    ∙ ap (λ x. returns (answered x true)) (append-nil (name ++ status not_opened))
process_line_lem (opened content) turn name h (s, l, ks, r, c) =
    respond (opened content) turn name
      (omega
        (arith, h, length-append name (status (opened content)), length-status-opened content l))
      s (ap (λ x. send_file x content) r ∙ send_file-reads ks content c)
