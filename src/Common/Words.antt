-- ===== src/Common/Words.antt =====
-- Machine words as native numbers: a cast keeps the low bits, a difference wraps; signed numbers.
use Prim.Native.Nat.{ℕ, zero, suc, min, ◌+◌, ◌-◌, ◌*◌, ◌/◌, ◌%◌, ◌^◌, ◌<◌}
use mathlib.Core.Bool.{Bool, true, false}
use rivr.Common.Tests.{ltb, leb, if◌then◌else◌}

abbrev pub IsU8 : ℕ → Type 0
IsU8 n = n < 256

abbrev pub IsU16 : ℕ → Type 0
IsU16 n = n < 65536

abbrev pub IsU32 : ℕ → Type 0
IsU32 n = n < 2 ^ 32

-- (uint8_t), (uint16_t), (uint32_t)
abbrev pub u8 : ℕ → ℕ
u8 n = n % 256

abbrev pub u16 : ℕ → ℕ
u16 n = n % 65536

abbrev pub u32 : ℕ → ℕ
u32 n = n % 2 ^ 32

-- `n++` on a uint32_t counter.
abbrev pub inc32 : ℕ → ℕ
inc32 n = (n + 1) % 2 ^ 32

-- `a - b` on uint32_t.
abbrev pub sub32 : ℕ → ℕ → ℕ
sub32 a b = (a + 2 ^ 32 - b) % 2 ^ 32

-- Signed numbers: `pos n` is n, `negsuc n` is -(n + 1).
pub data ℤ : Type 0 where
  pos negsuc : ℕ → ℤ

-- `z + offset`, clamped to the range from 0 to `top`.
abbrev pub clamp_add : ℤ → ℕ → ℕ → ℕ
clamp_add (pos n) offset top = min (n + offset) top
clamp_add (negsuc n) offset top = min (offset - suc n) top

infixl 60 ◌+ℤ◌
abbrev pub ◌+ℤ◌ : ℤ → ℤ → ℤ
pos a +ℤ pos b = pos (a + b)
pos a +ℤ negsuc b = if ltb b a then pos (a - suc b) else negsuc (b - a)
negsuc a +ℤ pos b = if ltb a b then pos (b - suc a) else negsuc (a - b)
negsuc a +ℤ negsuc b = negsuc (a + b + 1)

-- The number -n.
abbrev pub neg : ℕ → ℤ
neg zero = pos 0
neg (suc n) = negsuc n

-- A product with, and a quotient by, a number that is not negative; division rounds to zero.
abbrev pub scale : ℤ → ℕ → ℤ
scale (pos a) k = pos (a * k)
scale (negsuc a) k = neg (suc a * k)

abbrev pub tdiv : ℤ → ℕ → ℤ
tdiv (pos a) k = pos (a / k)
tdiv (negsuc a) k = neg (suc a / k)

-- A cast to a signed type whose least value is `- half`.
abbrev pub wrap : ℕ → ℤ → ℤ
wrap half (pos a) =
    let m = a % (2 * half) in if ltb m half then pos m else negsuc (2 * half - 1 - m)
wrap half (negsuc a) =
    let m = a % (2 * half) in if ltb m half then negsuc m else pos (2 * half - 1 - m)

-- (int8_t), (int16_t)
abbrev pub i8 : ℤ → ℤ
i8 z = wrap 128 z

abbrev pub i16 : ℤ → ℤ
i16 z = wrap 32768 z

-- The numbers from `- half` up to `half - 1`.
abbrev pub IsSigned : ℕ → ℤ → Type 0
IsSigned half (pos a) = a < half
IsSigned half (negsuc a) = a < half

-- Whether one number is at most another.
abbrev pub leb_ℤ : ℤ → ℤ → Bool
leb_ℤ (pos a) (pos b) = leb a b
leb_ℤ (pos a) (negsuc b) = false
leb_ℤ (negsuc a) (pos b) = true
leb_ℤ (negsuc a) (negsuc b) = leb b a
