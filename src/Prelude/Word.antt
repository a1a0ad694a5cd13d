-- ===== src/Prelude/Word.antt =====
-- Machine words: additions that wrap, checked additions, and little-endian bytes.
use systems_study.Prelude.{
  ℕ, zero, suc, ◌+◌, ◌-◌, ◌*◌, ◌/◌, ◌%◌, ◌<◌, ◌≡◌, refl, ap, arith, ltb, if◌then◌else◌, Option,
  none, some, List, [], ◌∷◌, length,
}

abbrev pub u8_mod : ℕ
u8_mod = 256

abbrev pub u16_mod : ℕ
u16_mod = 65536

abbrev pub u32_mod : ℕ
u32_mod = 4294967296

abbrev pub u64_mod : ℕ
u64_mod = 18446744073709551616

-- `Wrapping<u16>` and `wrapping_sub`. `-` stops at 0, so the modulus is added first.
abbrev pub add16 : ℕ → ℕ → ℕ
add16 a b = (a + b) % u16_mod

abbrev pub sub16 : ℕ → ℕ → ℕ
sub16 a b = (a + u16_mod - b) % u16_mod

abbrev pub add32 : ℕ → ℕ → ℕ
add32 a b = (a + b) % u32_mod

abbrev pub add64 : ℕ → ℕ → ℕ
add64 a b = (a + b) % u64_mod

abbrev pub mul64 : ℕ → ℕ → ℕ
mul64 a b = (a * b) % u64_mod

abbrev pub checked_add32 : ℕ → ℕ → Option ℕ
checked_add32 a b = if ltb (a + b) u32_mod then some (a + b) else none

abbrev pub checked_add64 : ℕ → ℕ → Option ℕ
checked_add64 a b = if ltb (a + b) u64_mod then some (a + b) else none

-- `to_le_bytes` of a value of `n` bytes, and `from_le_bytes`.
unfoldable pub to_le_bytes : ℕ → ℕ → List ℕ
to_le_bytes zero v = []
to_le_bytes (suc n) v = (v % 256) ∷ to_le_bytes n (v / 256)

unfoldable pub from_le_bytes : List ℕ → ℕ
from_le_bytes [] = 0
from_le_bytes (b ∷ bs) = b + 256 * from_le_bytes bs

pub length-to_le_bytes : (n v : ℕ) → length (to_le_bytes n v) ≡ n
unfolding to_le_bytes
length-to_le_bytes zero v = refl
length-to_le_bytes (suc n) v = ap suc (length-to_le_bytes n (v / 256))

module _ (v : ℕ) where
  pub from_le_bytes-u16 : v < u16_mod → from_le_bytes (to_le_bytes 2 v) ≡ v
  unfolding from_le_bytes to_le_bytes
  from_le_bytes-u16 h = omega arith

  pub from_le_bytes-u32 : v < u32_mod → from_le_bytes (to_le_bytes 4 v) ≡ v
  unfolding from_le_bytes to_le_bytes
  from_le_bytes-u32 h = omega arith

  -- Four bytes hold a value modulo 2^32.
  pub from_le_bytes-wrap : from_le_bytes (to_le_bytes 4 v) ≡ v % u32_mod
  unfolding from_le_bytes to_le_bytes
  from_le_bytes-wrap = omega arith

  pub from_le_bytes-u64 : v < u64_mod → from_le_bytes (to_le_bytes 8 v) ≡ v
  unfolding from_le_bytes to_le_bytes
  from_le_bytes-u64 h = omega arith
