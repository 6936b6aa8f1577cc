-- ===== src/Prelude/Words.antt =====
-- Machine words as native numbers, in the byte order of a little-endian host.
use Prim.Native.Nat.{ℕ, ◌+◌, ◌-◌, ◌*◌, ◌/◌, ◌%◌, ◌^◌, ◌<◌}
use mathlib.Core.Path.{◌≡◌}
use mathlib.Core.List.{List, [], ◌∷◌}
use native.Mathlib.Omega.{arith}

-- `htons` and `ntohs`: the two bytes change places.
abbrev pub swap16 : ℕ → ℕ
swap16 x = x % 256 * 256 + x / 256 % 256

-- `(uint16_t) ~x` of a 32-bit word.
abbrev pub complement16 : ℕ → ℕ
complement16 x = (2 ^ 32 - 1 - x) % 2 ^ 16

pub swap16-swap16 : (x : ℕ) → x < 2 ^ 16 → swap16 (swap16 x) ≡ x
swap16-swap16 x h = omega arith

pub swap16_bound : (x : ℕ) → swap16 x < 2 ^ 16
swap16_bound x = omega arith

-- The two bytes that a `uint16_t` occupies in memory.
abbrev pub store16 : ℕ → List ℕ
store16 x = x % 256 ∷ x / 256 ∷ []
