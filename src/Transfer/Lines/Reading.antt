-- ===== src/Transfer/Lines/Reading.antt =====
-- Reading a line, and the room for it in the buffer.
use mathlib.Core.List.{append-nil}
use mathlib.Core.Path.{fun_ext}
use computer_networks.Prelude.{
  ℕ, zero, suc, ◌+◌, ◌≡◌, ◌⊎◌, inl, inr, refl, sym, ◌∙◌, List, [], ◌∷◌, ◌++◌, Option, none, some,
  true, false, if◌then◌else◌, ◌==◌, ◌&&◌, ltb, Bool-cases, drop, length, arith, ap, Outcome,
  returns, undefined, Bytes,
}
use computer_networks.Stcp.Framing.{Call, moves}
use computer_networks.Stcp.Framing.RoundTrip.{chunks}
use computer_networks.Proxy.Headers.{before_crlf}
use computer_networks.Transfer.Lines.{Line, line, without_last, nvt_from, get_nvt_line}

without_last-append : (pre : Bytes) (c : ℕ) → without_last (pre ++ c ∷ []) ≡ pre
without_last-append [] c = refl
without_last-append (d ∷ []) c = refl
without_last-append (d ∷ e ∷ pre) c = ap (◌∷◌ d) (without_last-append (e ∷ pre) c)

append_middle : (pre : Bytes) (c : ℕ) (s : Bytes) → (pre ++ c ∷ []) ++ s ≡ pre ++ (c ∷ s)
append_middle [] c s = refl
append_middle (d ∷ pre) c s = ap (◌∷◌ d) (append_middle pre c s)

-- The first CR LF begins here, or the text goes on.
before_crlf-cases :
    (c d : ℕ) (s t : Bytes)
    → before_crlf (c ∷ d ∷ s) ≡ some t
    → ((c == 13 && d == 10) ≡ true) × (t ≡ [])
      ⊎ ((c == 13 && d == 10) ≡ false)
        × (t' : Bytes) × (before_crlf (d ∷ s) ≡ some t')
        × (t ≡ c ∷ t')
unfolding before_crlf
before_crlf-cases c d s t h = elim (Bool-cases (c == 13 && d == 10)) [
  | inl e ↦ inl (e, ground arith)
  | inr e ↦ let (t', b, q) = found (before_crlf (d ∷ s)) (rw e at h) in inr (e, t', b, q)
]
  where
    found :
        (o : Option Bytes)
        → elim o [ none ↦ none | some r ↦ some (c ∷ r) ] ≡ some t
        → (t' : Bytes) × (o ≡ some t') × (t ≡ c ∷ t')
    found none q = cc
    found (some r) q = (r, refl, ground arith)

before_crlf-one : (c : ℕ) (t : Bytes) → before_crlf (c ∷ []) ≡ some t → ⊥
unfolding before_crlf
before_crlf-one c t h = cc h

ltb-zero_suc : (n : ℕ) → ltb 0 (suc n) ≡ true
ltb-zero_suc n = ground arith

ltb-suc-suc : (m n : ℕ) → ltb (suc m) (suc n) ≡ ltb m n
ltb-suc-suc m n = ground arith

length-zero : (ks : List ℕ) → length ks ≡ 0 → ks ≡ []
length-zero [] h = refl
length-zero (k ∷ ks) h = absurd (omega (arith, h))

-- What the line is, given that there is enough room or not.
abbrev pub outcome : ℕ → Bytes → Bytes → Bytes → List Call → Outcome Line
outcome room pre t stream calls =
    if ltb room (length t)
    then undefined
    else returns (line (pre ++ t) (drop (suc (length t)) stream) calls)

nvt_from_end :
    (room c d : ℕ) (pre : Bytes) (k : ℕ) (calls : List Call) (stream : Bytes)
    → (c == 13 && d == 10) ≡ true
    → nvt_from room c (pre ++ c ∷ []) (moves k ∷ calls) (d ∷ stream)
      ≡ returns (line pre stream calls)
unfolding nvt_from
nvt_from_end zero c d pre k calls stream e = rw (e, without_last-append pre c) refl
nvt_from_end (suc room) c d pre k calls stream e = rw (e, without_last-append pre c) refl

outcome-nil :
    (room : ℕ) (pre : Bytes) (d : ℕ) (stream : Bytes) (calls : List Call)
    → returns (line pre stream calls) ≡ outcome room pre [] (d ∷ stream) calls
outcome-nil room pre d stream calls =
    let room_left : ltb room 0 ≡ false = ground arith in rw (room_left, append-nil) refl

-- A byte that does not end the line is written, if there is room.
abbrev stored : ℕ → (ℕ → Outcome Line) → Outcome Line
stored zero next = undefined
stored (suc room) next = next room

nvt_from_more :
    (room c d : ℕ) (written : Bytes) (k : ℕ) (calls : List Call) (stream : Bytes)
    → (c == 13 && d == 10) ≡ false
    → nvt_from room c written (moves k ∷ calls) (d ∷ stream)
      ≡ stored room (λ r. nvt_from r d (written ++ d ∷ []) calls stream)
unfolding nvt_from
nvt_from_more zero c d written k calls stream e = rw e refl
nvt_from_more (suc room) c d written k calls stream e = rw e refl

outcome-cons :
    (room c : ℕ) (pre t : Bytes) (d : ℕ) (stream : Bytes) (calls : List Call)
    → stored room (λ r. outcome r (pre ++ c ∷ []) t stream calls)
      ≡ outcome room pre (c ∷ t) (d ∷ stream) calls
outcome-cons zero c pre t d stream calls = rw (ltb-zero_suc (length t)) refl
outcome-cons (suc room) c pre t d stream calls =
    rw (append_middle pre c t, ltb-suc-suc room (length t)) refl

nvt_from_lem :
    (room c : ℕ) (pre : Bytes) (ks : List ℕ) (calls : List Call) (stream t : Bytes)
    → before_crlf (c ∷ stream) ≡ some t
    → length ks ≡ suc (length t)
    → nvt_from room c (pre ++ c ∷ []) (chunks ks calls) stream ≡ outcome room pre t stream calls
nvt_from_lem room c pre [] calls stream t h k = absurd (omega (arith, k))
nvt_from_lem room c pre (k ∷ ks) calls [] t h n = absurd (before_crlf-one c t h)
nvt_from_lem room c pre (k ∷ ks) calls (d ∷ stream) t h n =
    elim (before_crlf-cases c d stream t h) [
      | inl (e, q) ↦
          let no_more : ks ≡ [] = length-zero ks (omega (arith, n, ap length q)) in
          nvt_from_end room c d pre k (chunks ks calls) stream e
          ∙ ap (λ x. returns (line pre stream (chunks x calls))) no_more
          ∙ outcome-nil room pre d stream calls
          ∙ ap (λ x. outcome room pre x (d ∷ stream) calls) (sym q)
      | inr (e, t', b, q) ↦
          nvt_from_more room c d (pre ++ c ∷ []) k (chunks ks calls) stream e
          ∙ ap (stored room) (
              fun_ext λ r.
                nvt_from_lem r d (pre ++ c ∷ []) ks calls stream t' b
                  (omega (arith, n, ap length q)))
          ∙ outcome-cons room c pre t' d stream calls
          ∙ ap (λ x. outcome room pre x (d ∷ stream) calls) (sym q)
    ]

whole_line :
    (size : ℕ) (text : Bytes) (d : ℕ) (stream : Bytes) (calls : List Call)
    → stored size (λ r. outcome r [] text stream calls) ≡ (
        if ltb (length text) size
        then returns (line text (drop (length text + 2) (d ∷ stream)) calls)
        else undefined)
whole_line zero text d stream calls =
    let e : ltb (length text) 0 ≡ false = ground arith in rw e refl
whole_line (suc r) text d stream calls =
    let e : length text + 2 ≡ suc (suc (length text)) = omega arith in
    elim (Bool-cases (ltb r (length text))) [
      | inl q ↦ let q' : ltb (length text) (suc r) ≡ false = ground arith in rw (q, q') refl
      | inr q ↦ let q' : ltb (length text) (suc r) ≡ true = ground arith in rw (q, q', e) refl
    ]

-- If there is a CR LF in the stream and each call reads a byte, the line is what stands in front of the
-- first one, and the stream goes on behind it; where the buffer is not longer than the line, the CR is
-- written behind its end.
pub get_nvt_line_lem :
    (size : ℕ) (ks : List ℕ) (calls : List Call) (stream text : Bytes)
    → before_crlf stream ≡ some text
    → length ks ≡ length text + 2
    → get_nvt_line size (chunks ks calls) stream ≡ (
        if ltb (length text) size
        then returns (line text (drop (length text + 2) stream) calls)
        else undefined)
unfolding get_nvt_line
get_nvt_line_lem size [] calls stream text h n = absurd (omega (arith, n))
get_nvt_line_lem size (k ∷ ks) calls [] text h n = absurd (unfold before_crlf in cc h)
get_nvt_line_lem size (k ∷ ks) calls (d ∷ stream) text h n =
    nvt_from_more size 0 d [] k (chunks ks calls) stream refl
    ∙ ap (stored size) (fun_ext λ r. nvt_from_lem r d [] ks calls stream text h (omega (arith, n)))
    ∙ whole_line size text d stream calls
