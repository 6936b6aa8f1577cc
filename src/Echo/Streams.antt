-- ===== src/Echo/Streams.antt =====
-- What the server prints of what the clients read.
use computer_networks.Prelude.{
  ℕ, zero, suc, ◌<◌, ◌≤◌, ◌≡◌, ◌⊎◌, inl, inr, refl, ap, ◌∙◌, List, [], ◌∷◌, ◌++◌, Option, none,
  some, true, map, concat, take, drop, length, length-append, length-take, length-drop,
  take-append-drop, take-eq_self, arith, Bytes,
}
use computer_networks.Prelude.Sockets.{Chunk, got, closes, Candidate, connect_first, Address}
use computer_networks.Echo.{
  send_buffer_size, send_input, exits, client, bind_first, print_chunks, print_connections, server,
}

-- Each call of `send` takes the whole block: it returns how many bytes that has.
abbrev pub Whole : List (Option ℕ) → Bytes → Type 0
Whole sends [] = Unit
Whole [] (c ∷ input) = ⊥
Whole (none ∷ sends) (c ∷ input) = ⊥
Whole (some k ∷ sends) (c ∷ input) =
    (k ≡ length (take send_buffer_size (c ∷ input)))
    × Whole sends (drop send_buffer_size (c ∷ input))

drop-nil : (n : ℕ) → drop {A = ℕ} n [] ≡ []
drop-nil zero = refl
drop-nil (suc n) = refl

send_input-Whole :
    (sends : List (Option ℕ)) (input : Bytes)
    → Whole sends input
    → send_input sends input ≡ some input
unfolding send_input
send_input-Whole sends [] w = refl
send_input-Whole [] (c ∷ input) w = elim w [ ]
send_input-Whole (none ∷ sends) (c ∷ input) w = elim w [ ]
send_input-Whole (some k ∷ sends) (c ∷ input) w =
    let block = take send_buffer_size (c ∷ input) in
    let all : take k block ≡ block = take-eq_self k block (omega (arith, w.0)) in
    rw (send_input-Whole sends (drop send_buffer_size (c ∷ input)) w.1) (
      ap some (
        ap (λ b. b ++ drop send_buffer_size (c ∷ input)) all
        ∙ take-append-drop send_buffer_size (c ∷ input)))

-- Some call of `send` fails, or takes less than its block.
abbrev pub Short : List (Option ℕ) → Bytes → Type 0
Short [] input = ⊥
Short (s ∷ sends) [] = ⊥
Short (none ∷ sends) (c ∷ input) = Unit
Short (some k ∷ sends) (c ∷ input) =
    (k < length (take send_buffer_size (c ∷ input)))
    ⊎ Short sends (drop send_buffer_size (c ∷ input))

-- What a call that succeeds adds.
taken :
    (first : Bytes) (o : Option Bytes) {out : Bytes}
    → elim o [ none ↦ none | some more ↦ some (first ++ more) ] ≡ some out
    → (more : Bytes) × (o ≡ some more) × (out ≡ first ++ more)
taken first none e = absurd (cc e)
taken first (some more) e = (more, refl, ground arith)

send_input-le :
    (sends : List (Option ℕ)) (input : Bytes) {out : Bytes}
    → send_input sends input ≡ some out
    → length out ≤ length input
unfolding send_input
send_input-le sends [] {out} e = let q : out ≡ [] = ground arith in omega (arith, ap length q)
send_input-le [] (c ∷ input) e = absurd (cc e)
send_input-le (none ∷ sends) (c ∷ input) e = omega (
  arith,
  send_input-le sends (drop send_buffer_size (c ∷ input)) e,
  length-drop send_buffer_size (c ∷ input),
)
send_input-le (some k ∷ sends) (c ∷ input) e =
    let block = take send_buffer_size (c ∷ input) in
    let (more, m, q) =
      taken (take k block) (send_input sends (drop send_buffer_size (c ∷ input))) e in
    omega (
      arith,
      ap length q,
      send_input-le sends (drop send_buffer_size (c ∷ input)) m,
      length-append (take k block) more,
      length-take k block,
      length-take send_buffer_size (c ∷ input),
      length-drop send_buffer_size (c ∷ input),
    )

-- A call of `send` that fails or takes less than its block loses input: less is sent than was read.
pub send_input-Short :
    (sends : List (Option ℕ)) (input : Bytes) {out : Bytes}
    → Short sends input
    → send_input sends input ≡ some out
    → length out < length input
unfolding send_input
send_input-Short [] input s e = elim s [ ]
send_input-Short (s ∷ sends) [] h e = elim h [ ]
send_input-Short (none ∷ sends) (c ∷ input) s e = omega (
  arith,
  send_input-le sends (drop send_buffer_size (c ∷ input)) e,
  length-drop send_buffer_size (c ∷ input),
)
send_input-Short (some k ∷ sends) (c ∷ input) s e =
    let block = take send_buffer_size (c ∷ input) in
    let later = drop send_buffer_size (c ∷ input) in
    let (more, m, q) = taken (take k block) (send_input sends later) e in
    elim s [
      | inl short ↦ omega (
        arith,
        short,
        ap length q,
        send_input-le sends later m,
        length-append (take k block) more,
        length-take k block,
        length-take send_buffer_size (c ∷ input),
        length-drop send_buffer_size (c ∷ input),
      )
      | inr short ↦ omega (
        arith,
        ap length q,
        send_input-Short sends later short m,
        length-append (take k block) more,
        length-take k block,
        length-take send_buffer_size (c ∷ input),
        length-drop send_buffer_size (c ∷ input),
      )
    ]

-- A client: its input, the results of `send`, and the pieces in which the server receives.
pub record Visit : Type 0 where
  pub input : Bytes
  pub sends : List (Option ℕ)
  pub pieces : List Bytes

-- Nothing is lost on the way, and the pieces are those of what was sent.
pub record IsWhole (v : Visit) : Type 0 where
  pub whole : Whole v.sends v.input
  pub cut : concat v.pieces ≡ v.input

abbrev pub connection : Visit → Option (List Chunk)
connection v = some (map got v.pieces ++ closes ∷ [])

abbrev pub AllWhole : List Visit → Type 0
AllWhole [] = Unit
AllWhole (v ∷ vs) = IsWhole v × AllWhole vs

-- Every client exits with 0 and has sent its input.
abbrev pub AllSent : List Candidate → List Visit → Type 0
AllSent addresses [] = Unit
AllSent addresses (v ∷ vs) =
    (client (some addresses) v.sends v.input ≡ exits 0 v.input) × AllSent addresses vs

print_chunks-pieces :
    (pieces : List Bytes) → print_chunks (map got pieces ++ closes ∷ []) ≡ (concat pieces, true)
unfolding print_chunks
print_chunks-pieces [] = refl
print_chunks-pieces (p ∷ pieces) = rw (print_chunks-pieces pieces) refl

print_connections-visits :
    (vs : List Visit)
    → AllWhole vs
    → print_connections (map connection vs) ≡ concat (map (λ v. v.input) vs)
unfolding print_connections
print_connections-visits [] w = refl
print_connections-visits (v ∷ vs) w = rw (print_chunks-pieces v.pieces) (
    ap (λ x. x ++ print_connections (map connection vs)) w.0.cut
    ∙ ap (λ x. v.input ++ x) (print_connections-visits vs w.1))

clients_send :
    (addresses : List Candidate) (vs : List Visit)
    → connect_first addresses ≡ true
    → AllWhole vs
    → AllSent addresses vs
unfolding client
clients_send addresses [] c w = tt
clients_send addresses (v ∷ vs) c w = (
  rw (c, client) (rw (send_input-Whole v.sends v.input w.0.whole) refl),
  clients_send addresses vs c w.1,
)

-- Any number of clients, one after the other, send their inputs, and the server prints all of them, in the
-- order of the connections, however they are cut; every call of `send` takes the whole of its block, and there
-- are addresses to listen on and to connect to.
pub server-clients :
    (own : List Address) (addresses : List Candidate) (vs : List Visit)
    → bind_first own ≡ true
    → connect_first addresses ≡ true
    → AllWhole vs
    → AllSent addresses vs
      × (server own (map connection vs) ≡ some (concat (map (λ v. v.input) vs)))
unfolding server
server-clients own addresses vs b c w =
    (clients_send addresses vs c w, rw (b, server) (ap some (print_connections-visits vs w)))
