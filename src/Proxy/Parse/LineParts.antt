-- ===== src/Proxy/Parse/LineParts.antt =====
-- The parts of a request line as the parser looks for them.
use mathlib.Core.List.{append_assoc}
use computer_networks.Prelude.{
  ℕ, suc, ◌+◌, ◌≡◌, ◌≢◌, refl, ap, ◌∙◌, [], ◌∷◌, ◌++◌, Option, none, some, false, ==_of_ne, arith,
  drop, drop-prefix, length, length-append, returns, Bytes,
}
use computer_networks.Proxy.Parse.{
  is_in, string_from, Token, strtok, has_prefix, space, slash, colon_slash_slash, http_slash, Line,
  take_version, split_line, make_path,
}
use computer_networks.Proxy.Parse.Tokens.{Clean}
use computer_networks.Proxy.Parse.Words.{
  separators, IsWord, Clean-weaken, in_space, in_slash, in_protocol, Clean-append,
  colon_slash_slash-Clean, slashes, port_text, IsPort, IsTail,
}
use computer_networks.Proxy.Parse.Segments.{
  strtok_delim, strtok_last, strtok-nothing, string_from-segment,
}

make_path-some :
    (mem : Bytes) (place saveptr c : ℕ) (s : Bytes)
    → c ≢ 47
    → string_from (drop place mem) ≡ returns (c ∷ s)
    → make_path (record { place = some place; mem = mem; saveptr = saveptr })
      ≡ returns (some (47 ∷ c ∷ s))
unfolding make_path
make_path-some mem place saveptr c s n e = rw (e, make_path) (rw (==_of_ne c 47 n) refl)

module _ (m : ℕ) (ms : Bytes) (p : ℕ) (ps : Bytes) (h : ℕ) (hs : Bytes) (port : Option Bytes)
    (tail version : Bytes) where
  abbrev pub end : Bytes
  end = http_slash ++ (version ++ 0 ∷ [])

  -- The host with its port.
  abbrev pub hp : Bytes
  hp = hs ++ port_text port

  abbrev pub addr : Bytes
  addr = p ∷ ps ++ 58 ∷ 47 ∷ 47 ∷ (h ∷ hp ++ 47 ∷ tail)

  abbrev pub text : Bytes
  text = m ∷ ms ++ 32 ∷ (addr ++ 32 ∷ (http_slash ++ version))

  -- The copy of the line after each of the searches.
  abbrev pub mem1 : Bytes
  mem1 = m ∷ ms ++ 0 ∷ (addr ++ 32 ∷ end)

  abbrev pub mem2 : Bytes
  mem2 = m ∷ ms ++ 0 ∷ (addr ++ 0 ∷ end)

  abbrev pub mem3 : Bytes
  mem3 = m ∷ ms ++ 0 ∷ (p ∷ ps ++ 0 ∷ 47 ∷ 47 ∷ ((h ∷ hp ++ 47 ∷ tail) ++ 0 ∷ end))

  abbrev pub mem4 : Bytes
  mem4 = m ∷ ms ++ 0 ∷ (p ∷ ps ++ 0 ∷ 47 ∷ 47 ∷ (h ∷ hp ++ 0 ∷ (tail ++ 0 ∷ end)))

  abbrev pub at_addr : ℕ
  at_addr = suc (suc (length ms))

  abbrev pub at_host : ℕ
  at_host = at_addr + suc (length ps) + 3

  abbrev pub split : Line
  split = record {
    text = mem2;
    method = 0;
    full_addr = at_addr;
    version = at_addr + length addr + 1;
  }

  abbrev pub after_host : ℕ
  after_host = suc (at_host + suc (length hp))

  module _ (method-IsWord : IsWord (m ∷ ms)) (protocol-IsWord : IsWord (p ∷ ps))
      (host-IsWord : IsWord (h ∷ hs)) (port-IsPort : IsPort port) (tail-IsTail : IsTail tail) where
    pub hp-Clean :
        (delims : Bytes)
        → is_in 58 delims ≡ false
        → ((c : ℕ) → is_in c separators ≡ false → is_in c delims ≡ false)
        → Clean delims (h ∷ hp)
    hp-Clean delims i f =
        Clean-append delims (h ∷ hs) (port_text port) (Clean-weaken delims (h ∷ hs) f host-IsWord)
          (go port port-IsPort)
      where
        go : (o : Option Bytes) → IsPort o → Clean delims (port_text o)
        go none k = tt
        go (some []) k = elim k [ ]
        go (some (c ∷ s)) k = (((λ e. omega (arith, e)), i), Clean-weaken delims (c ∷ s) f k)

    tail-Clean : Clean space tail
    tail-Clean = go tail tail-IsTail
      where
        go : (t : Bytes) → IsTail t → Clean space t
        go [] k = tt
        go (c ∷ s) k = k.1

    pub rest-Clean : Clean space (h ∷ hp ++ 47 ∷ tail)
    rest-Clean =
        Clean-append space (h ∷ hp) (47 ∷ tail) (hp-Clean space refl in_space)
          (((λ e. omega (arith, e)), refl), tail-Clean)

    addr-Clean : Clean space addr
    addr-Clean =
        Clean-append space (p ∷ ps) (58 ∷ 47 ∷ 47 ∷ (h ∷ hp ++ 47 ∷ tail))
          (Clean-weaken space (p ∷ ps) in_space protocol-IsWord)
          (Clean-append space (58 ∷ 47 ∷ 47 ∷ []) (h ∷ hp ++ 47 ∷ tail) colon_slash_slash-Clean
            rest-Clean)

    first_token :
        strtok (text ++ 0 ∷ []) 0 space
        ≡ returns (record { place = some 0; mem = mem1; saveptr = at_addr })
    first_token =
        strtok_delim space (text ++ 0 ∷ []) [] [] m ms (addr ++ 32 ∷ end) 0 0 at_addr refl tt
          (Clean-weaken space (m ∷ ms) in_space method-IsWord) refl 32 mem1 (simp append_assoc)
          (λ e. omega (arith, e)) refl (omega arith) refl

    second_token :
        strtok mem1 at_addr space
        ≡ returns
            (record { place = some at_addr; mem = mem2; saveptr = suc (at_addr + length addr) })
    second_token =
        strtok_delim space mem1 (m ∷ ms ++ 0 ∷ []) [] p (ps ++ 58 ∷ 47 ∷ 47 ∷ (h ∷ hp ++ 47 ∷ tail))
          end at_addr at_addr (suc (at_addr + length addr))
          (omega (arith, length-append ms (0 ∷ []))) tt addr-Clean
          (omega (arith, length-append ms (0 ∷ []))) 32 mem2 (simp append_assoc)
          (λ e. omega (arith, e)) refl refl (simp append_assoc)

    version_found :
        (saveptr : ℕ)
        → take_version (record { place = some at_addr; mem = mem2; saveptr = saveptr }) 0 at_addr
          ≡ returns (some split)
    unfolding take_version has_prefix
    version_found saveptr =
        let a : string_from (drop at_addr mem2) ≡ returns addr =
          string_from-segment space (m ∷ ms ++ 0 ∷ []) addr end mem2 at_addr (simp append_assoc)
            (omega (arith, length-append ms (0 ∷ []))) addr-Clean in
        let v : drop (at_addr + length addr + 1) mem2 ≡ end =
          ap (drop (at_addr + length addr + 1)) (simp append_assoc)
          ∙ drop-prefix ((m ∷ ms ++ 0 ∷ addr) ++ 0 ∷ []) end (at_addr + length addr + 1) 0 (
              omega (
                arith,
                length-append (m ∷ ms ++ 0 ∷ addr) (0 ∷ []),
                length-append ms (0 ∷ addr),
              )) in
        rw (a, take_version) (rw v refl)

    pub split_line-text : split_line text ≡ returns (some split)
    unfolding split_line
    split_line-text =
        rw (first_token, split_line) (rw second_token (version_found (suc (at_addr + length addr))))

    pub third_token :
        strtok mem2 at_addr colon_slash_slash
        ≡ returns
            (record { place = some at_addr; mem = mem3; saveptr = suc (at_addr + suc (length ps)) })
    third_token =
        strtok_delim colon_slash_slash mem2 (m ∷ ms ++ 0 ∷ []) [] p ps
          (47 ∷ 47 ∷ ((h ∷ hp ++ 47 ∷ tail) ++ 0 ∷ end)) at_addr at_addr
          (suc (at_addr + suc (length ps))) (omega (arith, length-append ms (0 ∷ []))) tt
          (Clean-weaken colon_slash_slash (p ∷ ps) in_protocol protocol-IsWord)
          (omega (arith, length-append ms (0 ∷ []))) 58 mem3 (simp append_assoc)
          (λ e. omega (arith, e)) refl refl (simp append_assoc)

    pub fourth_token :
        strtok mem3 (suc (at_addr + suc (length ps))) slash
        ≡ returns
            (record { place = some at_host; mem = mem4; saveptr = suc (at_host + suc (length hp)) })
    fourth_token =
        let before : suc (at_addr + suc (length ps)) ≡ length (m ∷ ms ++ 0 ∷ (p ∷ ps ++ 0 ∷ [])) =
          omega (arith, length-append ms (0 ∷ (p ∷ ps ++ 0 ∷ [])), length-append ps (0 ∷ [])) in
        strtok_delim slash mem3 (m ∷ ms ++ 0 ∷ (p ∷ ps ++ 0 ∷ [])) (47 ∷ 47 ∷ []) h hp
          (tail ++ 0 ∷ end) (suc (at_addr + suc (length ps))) at_host
          (suc (at_host + suc (length hp))) before slashes (hp-Clean slash refl in_slash)
          (omega (arith, before)) 47 mem4 (simp append_assoc) (λ e. omega (arith, e)) refl refl
          (simp append_assoc)

    pub length-before_tail :
        after_host ≡ length (m ∷ ms ++ 0 ∷ (p ∷ ps ++ 0 ∷ 47 ∷ 47 ∷ (h ∷ hp ++ 0 ∷ [])))
    length-before_tail = omega (
      arith,
      length-append ms (0 ∷ (p ∷ ps ++ 0 ∷ 47 ∷ 47 ∷ (h ∷ hp ++ 0 ∷ []))),
      length-append ps (0 ∷ 47 ∷ 47 ∷ (h ∷ hp ++ 0 ∷ [])),
      length-append hp (0 ∷ []),
    )

    -- The path, whether or not something stands behind the first slash.
    pub path_found :
        (t : Token) × (strtok mem4 after_host space ≡ returns t)
        × (t.mem ≡ mem4)
        × (make_path t ≡ returns (some (47 ∷ tail)))
    unfolding make_path
    path_found = go tail tail-IsTail (simp append_assoc)
      where
        pre : Bytes
        pre = m ∷ ms ++ 0 ∷ (p ∷ ps ++ 0 ∷ 47 ∷ 47 ∷ (h ∷ hp ++ 0 ∷ []))

        go :
            (t : Bytes)
            → IsTail t
            → mem4 ≡ pre ++ (t ++ 0 ∷ end)
            → (k : Token) × (strtok mem4 after_host space ≡ returns k)
              × (k.mem ≡ mem4)
              × (make_path k ≡ returns (some (47 ∷ t)))
        go [] k e = (
          record { place = none; mem = mem4; saveptr = length pre + 0 },
          strtok-nothing space pre [] end mem4 after_host e length-before_tail tt,
          refl,
          refl,
        )
        go (c ∷ s) (n, k) e = (
          record { place = some after_host; mem = mem4; saveptr = after_host + suc (length s) },
          strtok_last space mem4 pre [] c s end after_host after_host (after_host + suc (length s))
              length-before_tail tt k (omega (arith, length-before_tail)) e refl,
          refl,
          make_path-some mem4 after_host (after_host + suc (length s)) c s n
              (string_from-segment space pre (c ∷ s) end mem4 after_host e length-before_tail k),
        )
