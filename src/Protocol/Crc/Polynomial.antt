-- ===== src/Protocol/Crc/Polynomial.antt =====
-- The table against the definition of the CRC: division by the polynomial 0x1021, bit by bit.
use native.Mathlib.Nat.{mod-eq_of_lt}
use rivr.Common.{ℕ, zero, suc, bit_xor, refl, sym, ap, Bool, true, List, [], arith, ltb}
use rivr.Common.{==→eq, below, below_sound, bit_xor-lt, bit_xor_comm, bit_xor_low_digits}
use rivr.Common.{bit_xor_byte, take, All, IsU8, u8, u16, ◌+◌, ◌-◌, ◌*◌, ◌/◌, ◌%◌, ◌<◌}
use rivr.Common.{◌≡◌, ◌∙◌, ◌∷◌, ◌==◌, if◌then◌else◌}
use rivr.Protocol.Crc.{crc16_table, crc16_step, crc16_from, crc16}
use rivr.Protocol.Crc.Detect.{entry, entry_facts, slot-lt, crc16_step-lt}

-- One bit of the division: the top bit goes out, and takes the polynomial with it.
pub divide_bit : ℕ → ℕ
divide_bit r = if ltb r 32768 then r * 2 else bit_xor (r * 2 - 65536) 0x1021

pub divide_bits : ℕ → ℕ → ℕ
divide_bits zero r = r
divide_bits (suc n) r = divide_bits n (divide_bit r)

-- The specification: each byte is added at the top, and divided through.
pub crc16_reference : ℕ → List ℕ → ℕ
crc16_reference crc [] = crc
crc16_reference crc (b ∷ bs) = crc16_reference (divide_bits 8 (bit_xor crc (b * 256))) bs

row : ℕ → Bool
row hi = let t = entry hi in below 256 (λ lo. divide_bits 8 (hi * 256 + lo) == bit_xor (lo * 256) t)

all_rows : below 256 row ≡ true
unfolding below row divide_bits divide_bit crc16_table
all_rows = refl

-- Eight bits of the division are one table lookup.
divide_byte :
    (hi lo : ℕ)
    → hi < 256
    → lo < 256
    → divide_bits 8 (hi * 256 + lo) ≡ bit_xor (lo * 256) (entry hi)
unfolding row
divide_byte hi lo hh hl = ==→eq _ _ (
    below_sound 256 (λ l. divide_bits 8 (hi * 256 + l) == bit_xor (l * 256) (entry hi)) lo
      (below_sound 256 row hi all_rows hh) hl)

-- A round of the table loop is one byte of the reference.
step-eq-divide :
    (crc b : ℕ) → crc < 65536 → IsU8 b → crc16_step crc b ≡ divide_bits 8 (bit_xor crc (b * 256))
unfolding crc16_step
step-eq-divide crc b hc hb =
    let i = bit_xor (crc / 256) b in
    let small = slot-lt crc b hc hb in
    let plain : u8 i ≡ i = omega (arith, small) in
    let parts : bit_xor crc (b * 256) ≡ i * 256 + crc % 256 =
      bit_xor_comm crc (b * 256)
      ∙ bit_xor_byte b crc
      ∙ ap (λ t. t * 256 + crc % 256) (bit_xor_comm b (crc / 256)) in
    let upper : crc * 256 % 65536 ≡ crc % 256 * 256 % 65536 = omega arith in
    let cut : u16 (bit_xor (crc * 256) (entry i)) ≡ u16 (bit_xor (crc % 256 * 256) (entry i)) =
      bit_xor_low_digits 16 (crc * 256) (crc % 256 * 256) (entry i) upper in
    let fits : bit_xor (crc % 256 * 256) (entry i) < 65536 =
      bit_xor-lt 16 (crc % 256 * 256) (entry i) (omega arith) (entry_facts i small).1 in
    rw (plain, parts)
      (cut ∙ mod-eq_of_lt fits ∙ sym (divide_byte i (crc % 256) small (omega arith)))

from-eq-reference :
    (crc : ℕ) (bs : List ℕ) → crc < 65536 → All IsU8 bs → crc16_from crc bs ≡ crc16_reference crc bs
unfolding crc16_from crc16_reference
from-eq-reference crc [] hc h = refl
from-eq-reference crc (b ∷ bs) hc h =
    from-eq-reference (crc16_step crc b) bs (crc16_step-lt crc b) h.1
    ∙ ap (λ r. crc16_reference r bs) (step-eq-divide crc b hc h.0)

All-take : (n : ℕ) (bs : List ℕ) → All IsU8 bs → All IsU8 (take n bs)
All-take zero bs h = tt
All-take (suc n) [] h = tt
All-take (suc n) (b ∷ bs) h = (h.0, All-take n bs h.1)

-- On bytes, `protocol_crc16` is the bitwise CRC-16 with polynomial 0x1021 and initial register
-- 0xFFFF of the first `len` bytes.
pub crc16-eq-reference :
    (buf : List ℕ) (len : ℕ) → All IsU8 buf → crc16 buf len ≡ crc16_reference 0xffff (take len buf)
unfolding crc16
crc16-eq-reference buf len h =
    from-eq-reference 0xffff (take len buf) (omega arith) (All-take len buf h)
