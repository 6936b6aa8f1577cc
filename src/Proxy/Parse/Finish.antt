-- ===== src/Proxy/Parse/Finish.antt =====
-- The end of the parsing of a request line: the host, the port, and all strings.
use mathlib.Core.List.{append_assoc, append-nil}
use computer_networks.Prelude.{
  ℕ, suc, ◌+◌, ◌≡◌, refl, ap, ◌∙◌, [], ◌∷◌, ◌++◌, Option, none, some, Bool, false, arith, drop,
  length, length-append, returns, Bytes,
}
use computer_networks.Proxy.{String, ParsedRequest}
use computer_networks.Proxy.Parse.{
  string_from, strtok, slash, colon, http_slash, Line, is_bad, finish_line,
}
use computer_networks.Proxy.Parse.Tokens.{Clean}
use computer_networks.Proxy.Parse.Words.{
  separators, IsWord, Clean-weaken, Clean-append, in_colon, in_slash, port_text, IsPort,
}
use computer_networks.Proxy.Parse.LineParts.{addr, mem4, at_addr, at_host, split}
use computer_networks.Proxy.Parse.Segments.{
  strtok_delim, strtok_last, strtok-nothing, string_from-segment,
}

-- The request that a line makes.
abbrev pub parts :
    String → String → String → Option String → String → String → Bytes → ParsedRequest
parts method protocol host port path version mem = record {
  method = some method;
  protocol = some protocol;
  host = some host;
  port = port;
  path = some path;
  version = some version;
  buf = some mem;
  buflen = length mem;
  headers = [];
  headerslen = 0;
}

module _ (bad_port : String → Bool) (l : Line) (at_protocol at_host save : ℕ) (mem out : Bytes)
    (path method protocol host version : String)
    (found : strtok mem at_host colon
      ≡ returns (record { place = some at_host; mem = out; saveptr = save }))
    (m : string_from (drop l.method out) ≡ returns method)
    (p : string_from (drop at_protocol out) ≡ returns protocol)
    (h : string_from (drop at_host out) ≡ returns host)
    (v : string_from (drop l.version out) ≡ returns version) where
  finish_line-none :
      (rest : ℕ)
      → strtok out save slash ≡ returns (record { place = none; mem = out; saveptr = rest })
      → finish_line bad_port l at_protocol mem at_host path
        ≡ returns (some (parts method protocol host none path version out))
  unfolding finish_line
  finish_line-none rest e = rw (found, finish_line) (rw e (rw m (rw p (rw h (rw v refl)))))

  finish_line-some :
      (rest at_port : ℕ) (port : String)
      → strtok out save slash ≡ returns (record { place = some at_port; mem = out; saveptr = rest })
      → string_from (drop at_port out) ≡ returns port
      → bad_port port ≡ false
      → finish_line bad_port l at_protocol mem at_host path
        ≡ returns (some (parts method protocol host (some port) path version out))
  unfolding finish_line
  finish_line-some rest at_port port e o b =
      rw (found, finish_line) (rw e (rw m (rw p (rw h (rw o (rw v (rw b refl)))))))

module _ (m : ℕ) (ms : Bytes) (p : ℕ) (ps : Bytes) (h : ℕ) (hs rest : Bytes) where
  -- The memory when all tokens have ended.
  abbrev ended : Bytes
  ended = m ∷ ms ++ 0 ∷ (p ∷ ps ++ 0 ∷ 47 ∷ 47 ∷ (h ∷ hs ++ 0 ∷ rest))

  abbrev pub to_host : Bytes
  to_host = m ∷ ms ++ 0 ∷ (p ∷ ps ++ 0 ∷ 47 ∷ 47 ∷ [])

  pub length-to_host : suc (suc (length ms)) + suc (length ps) + 3 ≡ length to_host
  length-to_host = omega (
    arith,
    length-append ms (0 ∷ (p ∷ ps ++ 0 ∷ 47 ∷ 47 ∷ [])),
    length-append ps (0 ∷ 47 ∷ 47 ∷ []),
  )

  module _ (method-IsWord : IsWord (m ∷ ms)) (protocol-IsWord : IsWord (p ∷ ps))
      (host-IsWord : IsWord (h ∷ hs)) where
    method_found : string_from (drop 0 ended) ≡ returns (m ∷ ms)
    method_found =
        string_from-segment separators [] (m ∷ ms) (p ∷ ps ++ 0 ∷ 47 ∷ 47 ∷ (h ∷ hs ++ 0 ∷ rest))
          ended 0 refl refl method-IsWord

    protocol_found : string_from (drop (suc (suc (length ms))) ended) ≡ returns (p ∷ ps)
    protocol_found =
        string_from-segment separators (m ∷ ms ++ 0 ∷ []) (p ∷ ps) (47 ∷ 47 ∷ (h ∷ hs ++ 0 ∷ rest))
          ended (suc (suc (length ms))) (simp append_assoc)
          (omega (arith, length-append ms (0 ∷ []))) protocol-IsWord

    host_found :
        string_from (drop (suc (suc (length ms)) + suc (length ps) + 3) ended) ≡ returns (h ∷ hs)
    host_found =
        string_from-segment separators to_host (h ∷ hs) rest ended _ (simp append_assoc)
          length-to_host host-IsWord

http_slash-Clean : Clean [] http_slash
http_slash-Clean = (
  ((λ e. omega (arith, e)), refl),
  (
    ((λ e. omega (arith, e)), refl),
    (
      ((λ e. omega (arith, e)), refl),
      (((λ e. omega (arith, e)), refl), (((λ e. omega (arith, e)), refl), tt)),
    ),
  ),
)

-- What stands between the host and the path when the port is cut off.
abbrev port_cut : Option Bytes → Bytes
port_cut none = []
port_cut (some port) = 0 ∷ port

length-port_cut : (port : Option Bytes) → length (port_cut port) ≡ length (port_text port)
length-port_cut none = refl
length-port_cut (some port) = refl

version_found :
    (m : ℕ) (ms : Bytes) (p : ℕ) (ps : Bytes) (h : ℕ) (hs : Bytes) (port : Option Bytes)
    (tail version : Bytes)
    → Clean [] version
    → string_from (
        drop
          (at_addr m ms p ps h hs port tail version
            + length (addr m ms p ps h hs port tail version)
            + 1)
          (m ∷ ms
            ++ 0
              ∷ (p ∷ ps
                  ++ 0
                    ∷ 47
                    ∷ 47
                    ∷ (h ∷ hs
                        ++ (port_cut port
                            ++ 0 ∷ (tail ++ 0 ∷ (http_slash ++ (version ++ 0 ∷ []))))))))
      ≡ returns (http_slash ++ version)
version_found m ms p ps h hs port tail version v =
    let path = 0 ∷ (tail ++ 0 ∷ []) in
    let host = h ∷ hs ++ (port_cut port ++ path) in
    let front = m ∷ ms ++ 0 ∷ (p ∷ ps ++ 0 ∷ 47 ∷ 47 ∷ host) in
    let old = h ∷ (hs ++ port_text port) ++ 47 ∷ tail in
    let n : at_addr m ms p ps h hs port tail version
          + length (addr m ms p ps h hs port tail version)
          + 1
        ≡ length front =
      omega (
        arith,
        length-append ms (0 ∷ (p ∷ ps ++ 0 ∷ 47 ∷ 47 ∷ host)),
        length-append ps (0 ∷ 47 ∷ 47 ∷ host),
        length-append hs (port_cut port ++ path),
        length-append (port_cut port) path,
        length-append tail (0 ∷ []),
        length-port_cut port,
        length-append ps (58 ∷ 47 ∷ 47 ∷ old),
        length-append (hs ++ port_text port) (47 ∷ tail),
        length-append hs (port_text port),
      ) in
    string_from-segment [] front (http_slash ++ version) []
      (m ∷ ms
        ++ 0
          ∷ (p ∷ ps
              ++ 0
                ∷ 47
                ∷ 47
                ∷ (h ∷ hs
                    ++ (port_cut port ++ 0 ∷ (tail ++ 0 ∷ (http_slash ++ (version ++ 0 ∷ [])))))))
      _ (simp append_assoc) n (Clean-append [] http_slash version http_slash-Clean v)

pub finished :
    (bad_port : String → Bool) (m : ℕ) (ms : Bytes) (p : ℕ) (ps : Bytes) (h : ℕ) (hs : Bytes)
    (port : Option Bytes) (tail version : Bytes)
    → IsWord (m ∷ ms)
    → IsWord (p ∷ ps)
    → IsWord (h ∷ hs)
    → IsPort port
    → Clean [] version
    → is_bad bad_port port ≡ false
    → (out : Bytes) × (finish_line bad_port
          (split m ms p ps h hs port tail version)
          (at_addr m ms p ps h hs port tail version)
          (mem4 m ms p ps h hs port tail version)
          (at_host m ms p ps h hs port tail version)
          (47 ∷ tail)
        ≡ returns
            (some (parts (m ∷ ms) (p ∷ ps) (h ∷ hs) port (47 ∷ tail) (http_slash ++ version) out)))
finished bad_port m ms p ps h hs none tail version mw pw hw ow vw b =
    let rest = tail ++ 0 ∷ (http_slash ++ (version ++ 0 ∷ [])) in
    let out = ended m ms p ps h hs rest in
    let front = to_host m ms p ps h hs rest in
    let l = split m ms p ps h hs none tail version in
    let a = suc (suc (length ms)) in
    let host = a + suc (length ps) + 3 in
    let save = host + suc (length hs) in
    let n = length-to_host m ms p ps h hs rest in
    let found =
      strtok_last colon out front [] h hs rest host host save n tt
        (Clean-weaken colon (h ∷ hs) in_colon hw) (omega (arith, n)) (simp append_assoc) refl in
    let none_left =
      strtok-nothing slash (front ++ h ∷ hs) [] rest out save (simp append_assoc)
        (omega (arith, n, length-append front (h ∷ hs))) tt in
    let same : mem4 m ms p ps h hs none tail version ≡ out = simp append-nil in
    (
      out,
      ap (λ x. finish_line bad_port l a x host (47 ∷ tail)) same
          ∙ finish_line-none bad_port l a host save out out (47 ∷ tail) (m ∷ ms) (p ∷ ps) (h ∷ hs)
              (http_slash ++ version) found (method_found m ms p ps h hs rest mw pw hw)
              (protocol_found m ms p ps h hs rest mw pw hw)
              (host_found m ms p ps h hs rest mw pw hw)
              (version_found m ms p ps h hs none tail version vw) (length (front ++ h ∷ hs) + 0)
              none_left,
    )
finished bad_port m ms p ps h hs (some []) tail version mw pw hw ow vw b = elim ow [ ]
finished bad_port m ms p ps h hs (some (o ∷ os)) tail version mw pw hw ow vw b =
    let back = tail ++ 0 ∷ (http_slash ++ (version ++ 0 ∷ [])) in
    let rest = o ∷ os ++ 0 ∷ back in
    let out = ended m ms p ps h hs rest in
    let front = to_host m ms p ps h hs rest in
    let l = split m ms p ps h hs (some (o ∷ os)) tail version in
    let a = suc (suc (length ms)) in
    let host = a + suc (length ps) + 3 in
    let save = suc (host + suc (length hs)) in
    let n = length-to_host m ms p ps h hs rest in
    let mem = mem4 m ms p ps h hs (some (o ∷ os)) tail version in
    let found =
      strtok_delim colon mem front [] h hs rest host host save n tt
        (Clean-weaken colon (h ∷ hs) in_colon hw) (omega (arith, n)) 58 out (simp append_assoc)
        (λ e. omega (arith, e)) refl refl (simp append_assoc) in
    let to_port = front ++ (h ∷ hs ++ 0 ∷ []) in
    let k : save ≡ length to_port =
      omega (arith, n, length-append front (h ∷ hs ++ 0 ∷ []), length-append hs (0 ∷ [])) in
    let port =
      strtok_last slash out to_port [] o os back save save (save + suc (length os)) k tt
        (Clean-weaken slash (o ∷ os) in_slash ow) (omega (arith, k)) (simp append_assoc) refl in
    (
      out,
      finish_line-some bad_port l a host save mem out (47 ∷ tail) (m ∷ ms) (p ∷ ps) (h ∷ hs)
          (http_slash ++ version) found (method_found m ms p ps h hs rest mw pw hw)
          (protocol_found m ms p ps h hs rest mw pw hw) (host_found m ms p ps h hs rest mw pw hw)
          (version_found m ms p ps h hs (some (o ∷ os)) tail version vw) (save + suc (length os))
          save (o ∷ os) port
          (string_from-segment separators to_port (o ∷ os) back out save (simp append_assoc) k ow)
          b,
    )
