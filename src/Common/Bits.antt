-- ===== src/Common/Bits.antt =====
-- Facts about `bit_and` and `bit_xor` at variables, from the digit recursion behind them.
use Prim.Native.Nat.{
  ℕ, zero, suc, ◌+◌, ◌-◌, ◌*◌, ◌/◌, ◌%◌, ◌^◌, ◌≤◌, ◌<◌, min, bit_and, bit_xor, digits, differ,
  bit_and-bitwise, bit_xor-bitwise,
}
use mathlib.Core.Path.{◌≡◌, refl, sym, ap, ◌∙◌}
use native.Mathlib.Omega.{arith}
use native.Mathlib.Nat.{add-zero, pow-suc, div-add-mod, add-mul-mod_self_left, mod-eq_of_lt, mod-lt}

-- The number of digits to go does not matter once it covers the first number.
digits_enough :
    (z : ℕ → ℕ) (f : ℕ → ℕ → ℕ) (n m a b : ℕ) → a ≤ n → a ≤ m → digits z f n a b ≡ digits z f m a b
digits_enough z f zero zero a b p q = refl
digits_enough z f zero (suc m) zero b p q = refl
digits_enough z f zero (suc m) (suc a) b p q = absurd (omega arith)
digits_enough z f (suc n) zero zero b p q = refl
digits_enough z f (suc n) zero (suc a) b p q = absurd (omega arith)
digits_enough z f (suc n) (suc m) zero b p q = refl
digits_enough z f (suc n) (suc m) (suc a) b p q =
    ap (λ r. r * 2 + f (suc a % 2) (b % 2))
      (digits_enough z f n m (suc a / 2) (b / 2) (omega arith) (omega arith))

differ_mod : (a b : ℕ) → a < 2 → b < 2 → differ a b ≡ (a + b) % 2
differ_mod zero zero p q = refl
differ_mod zero (suc zero) p q = refl
differ_mod zero (suc (suc b)) p q = absurd (omega arith)
differ_mod (suc zero) zero p q = refl
differ_mod (suc zero) (suc zero) p q = refl
differ_mod (suc zero) (suc (suc b)) p q = absurd (omega arith)
differ_mod (suc (suc a)) b p q = absurd (omega arith)

zero-bit_and : (b : ℕ) → bit_and 0 b ≡ 0
zero-bit_and b = bit_and-bitwise 0 b

zero-bit_xor : (b : ℕ) → bit_xor 0 b ≡ b
zero-bit_xor b = bit_xor-bitwise 0 b

-- The lowest digit of each operation, and the rest.
pub bit_and_low : (a b : ℕ) → bit_and a b ≡ bit_and (a / 2) (b / 2) * 2 + min (a % 2) (b % 2)
bit_and_low zero b = omega (arith, zero-bit_and b, zero-bit_and (b / 2))
bit_and_low (suc a) b = omega (
  arith,
  bit_and-bitwise (suc a) b,
  bit_and-bitwise (suc a / 2) (b / 2),
  digits_enough (λ b. zero) min a (suc a / 2) (suc a / 2) (b / 2) (omega arith) (omega arith),
)

pub bit_xor_low : (a b : ℕ) → bit_xor a b ≡ bit_xor (a / 2) (b / 2) * 2 + (a + b) % 2
bit_xor_low zero b = omega (arith, zero-bit_xor b, zero-bit_xor (b / 2))
bit_xor_low (suc a) b = omega (
  arith,
  bit_xor-bitwise (suc a) b,
  bit_xor-bitwise (suc a / 2) (b / 2),
  differ_mod (suc a % 2) (b % 2) (omega arith) (omega arith),
  digits_enough (λ b. b) differ a (suc a / 2) (suc a / 2) (b / 2) (omega arith) (omega arith),
)

bit_and-zero_below : (n a : ℕ) → a ≤ n → bit_and a 0 ≡ 0
bit_and-zero_below n zero h = refl
bit_and-zero_below zero (suc a) h = absurd (omega arith)
bit_and-zero_below (suc n) (suc a) h =
    omega (arith, bit_and_low (suc a) 0, bit_and-zero_below n (suc a / 2) (omega arith))

pub bit_and-zero : (a : ℕ) → bit_and a 0 ≡ 0
bit_and-zero a = bit_and-zero_below a a (omega arith)

half_mask : (p : ℕ) → 0 < p → (p * 2 - 1) / 2 ≡ p - 1
half_mask p h = omega arith

mod_halves : (p a : ℕ) → 0 < p → a / 2 % p * 2 + a % 2 ≡ a % (p * 2)
mod_halves p a h =
    let split : a ≡ a / 2 % p * 2 + a % 2 + p * 2 * (a / 2 / p) =
      omega (arith, div-add-mod (a / 2) p) in
    sym (
      ap (λ t. t % (p * 2)) split
      ∙ add-mul-mod_self_left (a / 2 % p * 2 + a % 2) (p * 2) (a / 2 / p)
      ∙ mod-eq_of_lt (omega (arith, mod-lt (a / 2) h)))

-- A mask of `k` ones keeps `k` digits.
pub bit_and_mask : (k a : ℕ) → (0 < 2 ^ k) × (bit_and a (2 ^ k - 1) ≡ a % 2 ^ k)
bit_and_mask zero a = (omega arith, omega (arith, bit_and-zero a))
bit_and_mask (suc k) a =
    let (pos, half) = bit_and_mask k (a / 2) in
    rw pow-suc (
      omega arith,
      bit_and_low a (2 ^ k * 2 - 1)
          ∙ rw (half_mask (2 ^ k) pos, half) (omega (arith, mod_halves (2 ^ k) a pos)),
    )

-- Exclusive or with the same number twice gives the number back.
bit_xor_cancel_below : (n a b : ℕ) → a ≤ n → b ≤ n → bit_xor (bit_xor a b) b ≡ a
bit_xor_cancel_below zero zero zero p q = refl
bit_xor_cancel_below zero zero (suc b) p q = absurd (omega arith)
bit_xor_cancel_below zero (suc a) b p q = absurd (omega arith)
bit_xor_cancel_below (suc n) a b p q =
    let half : bit_xor a b / 2 ≡ bit_xor (a / 2) (b / 2) = omega (arith, bit_xor_low a b) in
    bit_xor_low (bit_xor a b) b
    ∙ rw half (
        omega (
          arith,
          bit_xor_low a b,
          bit_xor_cancel_below n (a / 2) (b / 2) (omega arith) (omega arith),
        ))

pub bit_xor_cancel : (a b : ℕ) → bit_xor (bit_xor a b) b ≡ a
bit_xor_cancel a b = bit_xor_cancel_below (a + b) a b (omega arith) (omega arith)

-- A result has no more digits than the operands.
pub bit_xor-lt : (k a b : ℕ) → a < 2 ^ k → b < 2 ^ k → bit_xor a b < 2 ^ k
bit_xor-lt zero a b p q =
    let a0 : a ≡ 0 = omega arith in
    let b0 : b ≡ 0 = omega arith in rw (a0, b0) (omega (arith, zero-bit_xor 0))
bit_xor-lt (suc k) a b p q = rw pow-suc (
    omega (
      arith,
      bit_xor_low a b,
      bit_xor-lt k (a / 2) (b / 2) (omega (arith, pow-suc 2 k)) (omega (arith, pow-suc 2 k)),
    ))

pub pow_add : (a b : ℕ) → 2 ^ (a + b) ≡ 2 ^ a * 2 ^ b
pow_add a zero = ap (λ t. 2 ^ t) (add-zero a) ∙ omega arith
pow_add a (suc b) =
    let shift : a + suc b ≡ suc (a + b) = omega arith in
    rw (shift, pow-suc 2 (a + b), pow-suc 2 b, pow_add a b) (omega arith)

bit_xor_comm_below : (n a b : ℕ) → a ≤ n → b ≤ n → bit_xor a b ≡ bit_xor b a
bit_xor_comm_below zero zero zero p q = refl
bit_xor_comm_below zero zero (suc b) p q = absurd (omega arith)
bit_xor_comm_below zero (suc a) b p q = absurd (omega arith)
bit_xor_comm_below (suc n) a b p q = omega (
  arith,
  bit_xor_low a b,
  bit_xor_low b a,
  bit_xor_comm_below n (a / 2) (b / 2) (omega arith) (omega arith),
)

pub bit_xor_comm : (a b : ℕ) → bit_xor a b ≡ bit_xor b a
bit_xor_comm a b = bit_xor_comm_below (a + b) a b (omega arith) (omega arith)

-- The low `k` digits of a result depend on the low `k` digits of the first operand.
pub bit_xor_low_digits :
    (k a c b : ℕ) → a % 2 ^ k ≡ c % 2 ^ k → bit_xor a b % 2 ^ k ≡ bit_xor c b % 2 ^ k
bit_xor_low_digits zero a c b h = omega arith
bit_xor_low_digits (suc k) a c b h =
    let pos = (bit_and_mask k 0).0 in
    let split_a = mod_halves (2 ^ k) a pos in
    let split_c = mod_halves (2 ^ k) c pos in
    let same : a % (2 ^ k * 2) ≡ c % (2 ^ k * 2) = rw pow-suc at h in
    let half : a / 2 % 2 ^ k ≡ c / 2 % 2 ^ k = omega arith in
    let ab : bit_xor a b / 2 ≡ bit_xor (a / 2) (b / 2) = omega (arith, bit_xor_low a b) in
    let cb : bit_xor c b / 2 ≡ bit_xor (c / 2) (b / 2) = omega (arith, bit_xor_low c b) in
    let ih = bit_xor_low_digits k (a / 2) (c / 2) (b / 2) half in
    rw pow-suc (
      sym (mod_halves (2 ^ k) (bit_xor a b) pos)
      ∙ rw (ab, ih) (omega (arith, bit_xor_low a b, bit_xor_low c b, ap (λ t. t % 2 ^ k) cb))
      ∙ mod_halves (2 ^ k) (bit_xor c b) pos)

-- One digit of an exclusive or with an even number.
bit_xor_even : (c d t u : ℕ) → d ≡ c * 2 → u ≡ t / 2 → bit_xor d t ≡ bit_xor c u * 2 + t % 2
bit_xor_even c d t u e f =
    let half : d / 2 ≡ c = omega arith in bit_xor_low d t ∙ rw (half, ← f) (omega arith)

-- A register moved up by a byte takes the low byte of the other operand unchanged.
pub bit_xor_byte : (c t : ℕ) → bit_xor (c * 256) t ≡ bit_xor c (t / 256) * 256 + t % 256
bit_xor_byte c t = omega (
  arith,
  bit_xor_even (c * 128) (c * 256) t (t / 2) (omega arith) (omega arith),
  bit_xor_even (c * 64) (c * 128) (t / 2) (t / 4) (omega arith) (omega arith),
  bit_xor_even (c * 32) (c * 64) (t / 4) (t / 8) (omega arith) (omega arith),
  bit_xor_even (c * 16) (c * 32) (t / 8) (t / 16) (omega arith) (omega arith),
  bit_xor_even (c * 8) (c * 16) (t / 16) (t / 32) (omega arith) (omega arith),
  bit_xor_even (c * 4) (c * 8) (t / 32) (t / 64) (omega arith) (omega arith),
  bit_xor_even (c * 2) (c * 4) (t / 64) (t / 128) (omega arith) (omega arith),
  bit_xor_even c (c * 2) (t / 128) (t / 256) (omega arith) (omega arith),
)
