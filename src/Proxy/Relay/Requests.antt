-- ===== src/Proxy/Relay/Requests.antt =====
-- proxy.c: how a request of the client comes in, and what is sent to the server.
use mathlib.Core.List.{append_assoc, append-nil}
use computer_networks.Prelude.{
  ℕ, ◌+◌, ◌-◌, ◌<◌, ◌≤◌, ◌≡◌, ◌≢◌, refl, sym, ap, subst, ◌∙◌, zero, suc, replicate, List, [], ◌∷◌,
  ◌++◌, some, Bool, true, false, if◌then◌else◌, ◌==◌, leb, ==_of_ne, take, drop, length,
  length-append, take-eq_self, concat, map, arith, All, Outcome, returns, ◌>>=◌, Bytes, codes,
}
use computer_networks.Prelude.Sockets.{Chunk, got, closes, Candidate, connect_first, recv_all}
use computer_networks.Stcp.Framing.RoundTrip.{take-short}
use computer_networks.Proxy.{String, ParsedRequest}
use computer_networks.Proxy.Headers.{before_crlf, crlf, read_string, ParsedHeader_set}
use computer_networks.Proxy.Parse.{max_req_len, ParsedRequest_parse}
use computer_networks.Proxy.Relay.{
  up_to_nul, has_crlf, received, receiving, waits, receive, buffer, with_crlf, has_get, Network,
  forwarded, refused, server_error, relay, Handled, default_port, forward_request, after_parse,
  handle, client_helper,
}

-- Pieces without a CR LF so far, and fewer than the buffer holds.
abbrev pub Arrives : Bytes → List Bytes → Type 0
Arrives filled [] = Unit
Arrives filled (p ∷ ps) =
    (length (filled ++ p) < max_req_len)
    × (has_crlf (up_to_nul (filled ++ p)) ≡ false)
    × Arrives (filled ++ p) ps

receive-got :
    (bytes filled : Bytes) (calls : List Chunk) (b : Bool)
    → length (filled ++ bytes) < max_req_len
    → has_crlf (up_to_nul (filled ++ bytes)) ≡ b
    → receive (got bytes ∷ calls) filled ≡ (
        if b
        then returns (received (filled ++ bytes) (length bytes))
        else receive calls (filled ++ bytes))
unfolding receive
receive-got bytes filled calls b h e =
    let whole : take (max_req_len - length filled) bytes ≡ bytes =
      take-eq_self _ bytes (omega (arith, h, length-append filled bytes)) in
    let room : (length (filled ++ bytes) == max_req_len) ≡ false = ground arith in
    rw (whole, receive) (rw (room, e) refl)

receive-Arrives :
    (ps : List Bytes) (filled : Bytes) (calls : List Chunk)
    → Arrives filled ps
    → receive (map got ps ++ calls) filled ≡ receive calls (filled ++ concat ps)
receive-Arrives [] filled calls a = ap (receive calls) (sym (append-nil filled))
receive-Arrives (p ∷ ps) filled calls (h, e, a) =
    receive-got p filled (map got ps ++ calls) false h e
    ∙ receive-Arrives ps (filled ++ p) calls a
    ∙ ap (receive calls) (append_assoc filled p (concat ps))

Arrives-room :
    (filled : Bytes) (ps : List Bytes)
    → length filled < max_req_len
    → has_crlf (up_to_nul filled) ≡ false
    → Arrives filled ps
    → (length (filled ++ concat ps) < max_req_len)
      × (has_crlf (up_to_nul (filled ++ concat ps)) ≡ false)
Arrives-room filled [] h e a =
    subst (λ x. (length x < max_req_len) × (has_crlf (up_to_nul x) ≡ false))
      (sym (append-nil filled)) (h, e)
Arrives-room filled (p ∷ ps) h e (h', e', a) =
    subst (λ x. (length x < max_req_len) × (has_crlf (up_to_nul x) ≡ false))
      (append_assoc filled p (concat ps)) (Arrives-room (filled ++ p) ps h' e' a)

receive-closes :
    (n : ℕ) (filled : Bytes)
    → length filled < max_req_len
    → has_crlf (up_to_nul filled) ≡ false
    → receive (replicate n closes) filled ≡ returns receiving
unfolding receive
receive-closes zero filled h e = refl
receive-closes (suc n) filled h e =
    let room : (length filled == max_req_len) ≡ false = ground arith in
    rw (room, receive) (rw e (receive-closes n filled h e))

no_crlf : has_crlf [] ≡ false
unfolding before_crlf
no_crlf = refl

-- If the client closes the connection before a CR LF has come, the proxy never leaves its loop: however many
-- more calls return 0, it goes on to the next. Fewer than 65535 bytes have come.
pub client_helper-closes :
    (bad_port : String → Bool) (net : Network) (pr : ParsedRequest) (ps : List Bytes) (n : ℕ)
    → Arrives [] ps
    → client_helper bad_port net pr (map got ps ++ replicate n closes) ≡ returns waits
unfolding client_helper handle
client_helper-closes bad_port net pr ps n a =
    let (h, e) = Arrives-room [] ps (omega arith) no_crlf a in
    ap (λ o. o >>= handle bad_port net pr)
      (receive-Arrives ps [] (replicate n closes) a ∙ receive-closes n (concat ps) h e)

abbrev pub NoNul : Bytes → Type 0
NoNul = All (λ c. c ≢ 0)

up_to_nul-NoNul : (s post : Bytes) → NoNul s → up_to_nul (s ++ 0 ∷ post) ≡ s
up_to_nul-NoNul [] post h = refl
up_to_nul-NoNul (c ∷ s) post h = rw (==_of_ne c 0 h.0) (ap (◌∷◌ c) (up_to_nul-NoNul s post h.1))

up_to_nul-whole : (s : Bytes) → NoNul s → up_to_nul s ≡ s
up_to_nul-whole [] h = refl
up_to_nul-whole (c ∷ s) h = rw (==_of_ne c 0 h.0) (ap (◌∷◌ c) (up_to_nul-whole s h.1))

NoNul-append : (a b : Bytes) → NoNul a → NoNul b → NoNul (a ++ b)
NoNul-append [] b p q = q
NoNul-append (c ∷ a) b p q = (p.0, NoNul-append a b p.1 q)

forward_request_lem :
    (net : Network) (buff : Bytes) (recd : ℕ) (parsed closing whole : ParsedRequest) (host : String)
    → ParsedHeader_set parsed (codes "Connection") (codes "close") ≡ returns closing
    → closing.host ≡ some host
    → ParsedHeader_set closing (codes "Host") host ≡ returns whole
    → forward_request net buff recd parsed
      ≡ returns (relay net host (default_port whole.port) (take recd buff))
unfolding forward_request
forward_request_lem net buff recd parsed closing whole host c h s =
    let send : Outcome ParsedRequest → String → Outcome Handled =
      λ o host. o >>= λ pr. returns (relay net host (default_port pr.port) (take recd buff)) in
    ap
      (λ o. o >>= λ pr.
        read_string pr.host >>= λ host. send (ParsedHeader_set pr (codes "Host") host) host)
      c
    ∙ ap (λ x. read_string x >>= λ host. send (ParsedHeader_set closing (codes "Host") host) host) h
    ∙ ap (λ o. send o host) s

relay_lem :
    (net : Network) (host port : String) (request : Bytes) (addresses : List Candidate)
    (answer : Bytes)
    → net.getaddrinfo host port ≡ some addresses
    → connect_first addresses ≡ true
    → net.send_fails ≡ false
    → recv_all net.response ≡ some answer
    → relay net host port request ≡ forwarded host port request answer
unfolding relay
relay_lem net host port request addresses answer g a f e = rw (g, relay) (rw (a, f) (rw e refl))

module _ (ps : List Bytes) (last : Bytes) where
  -- The request as the client sent it.
  abbrev pub request : Bytes
  request = concat ps ++ last

  pub record IsRequest : Type 0 where
    pub pieces : Arrives [] ps
    pub ends : has_crlf request ≡ true
    pub text : NoNul request
    pub short : length request + 3 ≤ max_req_len

  received-request :
      (calls : List Chunk)
      → IsRequest
      → receive (map got ps ++ got last ∷ calls) [] ≡ returns (received request (length last))
  received-request calls r =
      receive-Arrives ps [] (got last ∷ calls) r.pieces
      ∙ receive-got last (concat ps) calls true (omega (arith, r.short))
          (ap has_crlf (up_to_nul-whole request r.text) ∙ r.ends)

  -- The buffer that is parsed and sent.
  abbrev buff : Bytes
  buff = request ++ (crlf ++ 0 ∷ drop (length request + 3) (buffer request))

  buff-append : buff ≡ (request ++ crlf) ++ 0 ∷ drop (length request + 3) (buffer request)
  buff-append = sym (append_assoc request crlf (0 ∷ drop (length request + 3) (buffer request)))

  with_crlf-request : IsRequest → with_crlf request ≡ returns buff
  unfolding with_crlf
  with_crlf-request r =
      let fits : leb (length request + 3) max_req_len ≡ true = ground (arith, r.short) in
      rw (up_to_nul-whole request r.text, with_crlf) (rw fits refl)

  up_to_nul-buff : IsRequest → up_to_nul buff ≡ request ++ crlf
  up_to_nul-buff r =
      ap up_to_nul buff-append
      ∙ up_to_nul-NoNul (request ++ crlf) (drop (length request + 3) (buffer request))
          (NoNul-append request crlf r.text (omega arith))

  take-parsed : take (length last + 2) buff ≡ take (length last + 2) (request ++ crlf)
  take-parsed =
      ap (take (length last + 2)) buff-append
      ∙ take-short (length last + 2) (request ++ crlf) _
          (omega (arith, length-append request crlf, length-append (concat ps) last))

  take-sent : take (length last) buff ≡ take (length last) request
  take-sent = take-short (length last) request _ (omega (arith, length-append (concat ps) last))

  module _ (bad_port : String → Bool) (net : Network) (pr : ParsedRequest)
      (calls : List Chunk) where
    handled :
        IsRequest
        → client_helper bad_port net pr (map got ps ++ got last ∷ calls) ≡ (
            if has_get (request ++ crlf)
            then (ParsedRequest_parse bad_port pr (take (length last + 2) (request ++ crlf))
                >>= after_parse net buff (length last))
            else returns (refused server_error))
    unfolding client_helper handle
    handled r =
        ap (λ o. o >>= handle bad_port net pr) (received-request calls r)
        ∙ rw (with_crlf-request r, handle) (rw (up_to_nul-buff r, take-parsed) refl)

    -- Without "GET" in it the request is answered with 501.
    no_get :
        IsRequest
        → has_get (request ++ crlf) ≡ false
        → client_helper bad_port net pr (map got ps ++ got last ∷ calls)
          ≡ returns (refused server_error)
    no_get r e = handled r ∙ rw e refl

    -- A request comes in pieces, the last of which brings the first CR LF. If it has "GET" in it and what
    -- is parsed of it is a request, it is passed on to its host, to port 80 if it names none, and the
    -- client gets what the host answers. But what is parsed and passed on is only as many bytes as the last
    -- piece had, with two more for the parser, and no header that was set is among them. The request has
    -- no 0 and leaves 3 bytes of the buffer free, and every call succeeds.
    pub client_helper-forwards :
        (parsed closing whole : ParsedRequest) (host : String) (addresses : List Candidate)
        (answer : Bytes)
        → IsRequest
        → has_get (request ++ crlf) ≡ true
        → ParsedRequest_parse bad_port pr (take (length last + 2) (request ++ crlf))
          ≡ returns (some (true, parsed))
        → ParsedHeader_set parsed (codes "Connection") (codes "close") ≡ returns closing
        → closing.host ≡ some host
        → ParsedHeader_set closing (codes "Host") host ≡ returns whole
        → net.getaddrinfo host (default_port whole.port) ≡ some addresses
        → connect_first addresses ≡ true
        → net.send_fails ≡ false
        → recv_all net.response ≡ some answer
        → client_helper bad_port net pr (map got ps ++ got last ∷ calls)
          ≡ returns (forwarded host (default_port whole.port) (take (length last) request) answer)
    client_helper-forwards parsed closing whole host addresses answer r get parse c h s g a f e =
        handled r
        ∙ ap
            (λ b.
              if b
              then (ParsedRequest_parse bad_port pr (take (length last + 2) (request ++ crlf))
                  >>= after_parse net buff (length last))
              else returns (refused server_error))
            get
        ∙ ap (λ o. o >>= after_parse net buff (length last)) parse
        ∙ forward_request_lem net buff (length last) parsed closing whole host c h s
        ∙ ap returns (
            relay_lem net host (default_port whole.port) (take (length last) buff) addresses answer
              g a f e
            ∙ ap (λ x. forwarded host (default_port whole.port) x answer) take-sent)
