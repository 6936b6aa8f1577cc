-- ===== src/Proxy/Parse/LineText.antt =====
-- A request line as a whole: its parts, from the tokens of the line.
use mathlib.Core.List.{append_assoc}
use computer_networks.Prelude.{
  ℕ, suc, ◌+◌, ◌≡◌, refl, ap, ◌∙◌, [], ◌∷◌, ◌++◌, Option, some, Bool, false, ◌==◌, ==_of_ne, arith,
  drop, length, length-append, returns, ◌>>=◌, Bytes,
}
use computer_networks.Proxy.{String}
use computer_networks.Proxy.Parse.{
  string_from, Token, strtok, space, slash, http_slash, Line, make_path, is_bad, finish_line,
  split_rest, parse_line,
}
use computer_networks.Proxy.Parse.Tokens.{Clean}
use computer_networks.Proxy.Parse.Words.{separators, IsWord, in_space, port_text, IsPort, IsTail}
use computer_networks.Proxy.Parse.LineParts.{
  text, mem3, mem4, after_host, split, split_line-text, third_token, fourth_token, path_found,
  rest-Clean, hp-Clean,
}
use computer_networks.Proxy.Parse.Segments.{string_from-segment}
use computer_networks.Proxy.Parse.Finish.{parts, to_host, length-to_host, finished}

split_rest_lem :
    (bad_port : String → Bool) (l : Line) (protocol place saveptr host save : ℕ) (mem mem' : Bytes)
    (t : Token) (word rem word' path : Bytes)
    → string_from (drop protocol mem) ≡ returns word
    → string_from (drop (l.full_addr + length word + 3) mem) ≡ returns rem
    → strtok mem saveptr slash ≡ returns (record { place = some host; mem = mem'; saveptr = save })
    → string_from (drop host mem') ≡ returns word'
    → (length word' == length rem) ≡ false
    → strtok mem' save space ≡ returns t
    → make_path t ≡ returns (some path)
    → split_rest bad_port l protocol (record { place = some place; mem = mem; saveptr = saveptr })
      ≡ finish_line bad_port l protocol t.mem host path
unfolding split_rest
split_rest_lem bad_port l protocol place saveptr host save mem mem' t word rem word' path a b c d e
      f g =
    rw (a, split_rest) (rw b (rw c (rw d (rw (e, ◌>>=◌) (rw f (rw g refl))))))

-- A request line of a method, a protocol, a host, perhaps a port, a path and a version is taken apart into
-- just these.
pub parse_line-text :
    (bad_port : String → Bool) (m : ℕ) (ms : Bytes) (p : ℕ) (ps : Bytes) (h : ℕ) (hs : Bytes)
    (port : Option Bytes) (tail version : Bytes)
    → IsWord (m ∷ ms)
    → IsWord (p ∷ ps)
    → IsWord (h ∷ hs)
    → IsPort port
    → IsTail tail
    → Clean [] version
    → is_bad bad_port port ≡ false
    → (mem : Bytes) × (parse_line bad_port (text m ms p ps h hs port tail version)
        ≡ returns
            (some (parts (m ∷ ms) (p ∷ ps) (h ∷ hs) port (47 ∷ tail) (http_slash ++ version) mem)))
unfolding parse_line split_rest
parse_line-text bad_port m ms p ps h hs port tail version mw pw hw ow tw vw b =
    let (mem, f) = finished bad_port m ms p ps h hs port tail version mw pw hw ow vw b in
    let (t, s, q, k) = path_found m ms p ps h hs port tail version mw pw hw ow tw in
    let a = suc (suc (length ms)) in
    let host = a + suc (length ps) + 3 in
    let mem' = mem4 m ms p ps h hs port tail version in
    let rem = h ∷ (hs ++ port_text port) ++ 47 ∷ tail in
    let ending = http_slash ++ (version ++ 0 ∷ []) in
    let n = length-to_host m ms p ps h hs [] in
    let front = to_host m ms p ps h hs [] in
    let old = mem3 m ms p ps h hs port tail version in
    let word : string_from (drop a old) ≡ returns (p ∷ ps) =
      string_from-segment separators (m ∷ ms ++ 0 ∷ []) (p ∷ ps) (47 ∷ 47 ∷ (rem ++ 0 ∷ ending)) old
        a (simp append_assoc) (omega (arith, length-append ms (0 ∷ []))) pw in
    let rest : string_from (drop host old) ≡ returns rem =
      string_from-segment space front rem ending old host (simp append_assoc) n
        (rest-Clean m ms p ps h hs port tail version mw pw hw ow tw) in
    let host_port : string_from (drop host mem') ≡ returns (h ∷ (hs ++ port_text port)) =
      string_from-segment space front (h ∷ (hs ++ port_text port)) (tail ++ 0 ∷ ending) mem' host
        (simp append_assoc) n
        (hp-Clean m ms p ps h hs port tail version mw pw hw ow tw space refl in_space) in
    let longer : (length (h ∷ (hs ++ port_text port)) == length rem) ≡ false =
      ==_of_ne _ _ (λ e. omega (arith, e, length-append (hs ++ port_text port) (47 ∷ tail))) in
    (
      mem,
      rw (split_line-text m ms p ps h hs port tail version mw pw hw ow tw, parse_line)
          (rw (third_token m ms p ps h hs port tail version mw pw hw ow tw) (
            split_rest_lem bad_port (split m ms p ps h hs port tail version) a a
              (suc (a + suc (length ps))) host (after_host m ms p ps h hs port tail version)
              (mem3 m ms p ps h hs port tail version) mem' t (p ∷ ps) rem
              (h ∷ (hs ++ port_text port)) (47 ∷ tail) word rest
              (fourth_token m ms p ps h hs port tail version mw pw hw ow tw) host_port longer s k
            ∙ ap
                (λ x.
                  finish_line bad_port (split m ms p ps h hs port tail version) a x host
                    (47 ∷ tail))
                q
            ∙ f)),
    )
