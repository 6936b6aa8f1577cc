-- ===== src/Proxy/Parse/Words.antt =====
-- The parts of a request line, as the searches of the parser need them.
use computer_networks.Prelude.{
  ℕ, ◌≡◌, ◌≢◌, refl, [], ◌∷◌, ◌++◌, Option, none, some, false, arith, Bytes,
}
use computer_networks.Proxy.Parse.{is_in, space, slash, colon, colon_slash_slash}
use computer_networks.Proxy.Parse.Tokens.{Clean}
use computer_networks.Proxy.Parse.Segments.{Delims}

-- None of these characters is in a method, a protocol, a host or a port.
abbrev pub separators : Bytes
separators = 32 ∷ 58 ∷ 47 ∷ []

abbrev pub IsWord : Bytes → Type 0
IsWord [] = ⊥
IsWord (c ∷ s) = Clean separators (c ∷ s)

pub Clean-weaken :
    (delims s : Bytes)
    → ((c : ℕ) → is_in c separators ≡ false → is_in c delims ≡ false)
    → Clean separators s
    → Clean delims s
Clean-weaken delims [] f h = tt
Clean-weaken delims (c ∷ s) f ((z, i), h) = ((z, f c i), Clean-weaken delims s f h)

pub in_space : (c : ℕ) → is_in c separators ≡ false → is_in c space ≡ false
in_space c h = ground arith

pub in_slash : (c : ℕ) → is_in c separators ≡ false → is_in c slash ≡ false
in_slash c h = ground arith

pub in_colon : (c : ℕ) → is_in c separators ≡ false → is_in c colon ≡ false
in_colon c h = ground arith

pub in_protocol : (c : ℕ) → is_in c separators ≡ false → is_in c colon_slash_slash ≡ false
in_protocol c h = ground arith

pub Clean-append : (delims a b : Bytes) → Clean delims a → Clean delims b → Clean delims (a ++ b)
Clean-append delims [] b p q = q
Clean-append delims (c ∷ a) b (p, ps) q = (p, Clean-append delims a b ps q)

pub colon_slash_slash-Clean : Clean space colon_slash_slash
colon_slash_slash-Clean = (
  ((λ e. omega (arith, e)), refl),
  (((λ e. omega (arith, e)), refl), (((λ e. omega (arith, e)), refl), tt)),
)

pub slashes : Delims slash (47 ∷ 47 ∷ [])
slashes = (((λ e. omega (arith, e)), refl), (((λ e. omega (arith, e)), refl), tt))

abbrev pub port_text : Option Bytes → Bytes
port_text none = []
port_text (some port) = 58 ∷ port

abbrev pub IsPort : Option Bytes → Type 0
IsPort none = Unit
IsPort (some port) = IsWord port

-- What stands behind the first slash of the path: no space, no 0, and no second slash in front.
abbrev pub IsTail : Bytes → Type 0
IsTail [] = Unit
IsTail (c ∷ s) = (c ≢ 47) × Clean space (c ∷ s)
