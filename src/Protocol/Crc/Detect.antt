-- ===== src/Protocol/Crc/Detect.antt =====
-- What the CRC detects: every corruption of a single byte.
use rivr.Common.{ℕ, zero, suc, bit_xor, refl, sym, ap, true, List, [], arith, ltb, below}
use rivr.Common.{below_sound, bit_xor_cancel, bit_xor-lt, bit_xor_comm}
use rivr.Common.{bit_xor_low_digits, bit_xor_byte, get_or, All, IsU8, u8, ◌/◌, ◌%◌, ◌<◌}
use rivr.Common.{◌≡◌, ◌∙◌, ◌&&◌, ◌∷◌, ◌++◌, ◌==◌, if◌then◌else◌}
use rivr.Protocol.Crc.{crc16_table, crc16_step, crc16_from}

abbrev pub entry : ℕ → ℕ
entry i = get_or crc16_table i 0

-- The first index below `n` whose entry has the low byte `b`, counted from above.
pub index_of : ℕ → ℕ → ℕ
index_of zero b = 0
index_of (suc n) b = let rest = index_of n b in if entry n % 256 == b then n else rest

index_table : below 256 (λ i. index_of 256 (entry i % 256) == i && ltb (entry i) 65536) ≡ true
unfolding below index_of crc16_table
index_table = refl

pub entry_facts : (i : ℕ) → i < 256 → (index_of 256 (entry i % 256) ≡ i) × (entry i < 65536)
entry_facts i h =
    let t =
      below_sound 256 (λ i. index_of 256 (entry i % 256) == i && ltb (entry i) 65536) i index_table
        h in
    ground (arith, t)

-- The table index of a round is a byte.
pub slot-lt : (crc b : ℕ) → crc < 65536 → IsU8 b → bit_xor (crc / 256) b < 256
slot-lt crc b hc hb = bit_xor-lt 8 (crc / 256) b (omega arith) hb

-- The two bytes of the register after a round.
step_bytes :
    (crc b : ℕ)
    → crc < 65536
    → IsU8 b
    → let t = entry (bit_xor (crc / 256) b) in
      (crc16_step crc b / 256 ≡ bit_xor crc (t / 256) % 256) × (crc16_step crc b % 256 ≡ t % 256)
unfolding crc16_step
step_bytes crc b hc hb =
    let i = bit_xor (crc / 256) b in
    let plain : u8 i ≡ i = omega (arith, slot-lt crc b hc hb) in
    rw plain (omega (arith, bit_xor_byte crc (entry i)))

pub crc16_step-lt : (crc b : ℕ) → crc16_step crc b < 65536
unfolding crc16_step
crc16_step-lt crc b = omega arith

-- Equal registers after a round had equal table indices before it.
same_slot :
    (c d a b : ℕ)
    → c < 65536
    → d < 65536
    → IsU8 a
    → IsU8 b
    → crc16_step c a ≡ crc16_step d b
    → bit_xor (c / 256) a ≡ bit_xor (d / 256) b
same_slot c d a b hc hd ha hb e =
    let low = (step_bytes c a hc ha).1 in
    let low' = (step_bytes d b hd hb).1 in
    let tables : entry (bit_xor (c / 256) a) % 256 ≡ entry (bit_xor (d / 256) b) % 256 =
      omega (arith, low, low', ap (λ t. t % 256) e) in
    sym (entry_facts _ (slot-lt c a hc ha)).0
    ∙ ap (index_of 256) tables
    ∙ (entry_facts _ (slot-lt d b hd hb)).0

-- From one register, two bytes lead to different registers.
step_byte_injective :
    (c a b : ℕ) → c < 65536 → IsU8 a → IsU8 b → crc16_step c a ≡ crc16_step c b → a ≡ b
step_byte_injective c a b hc ha hb e =
    let slots = same_slot c c a b hc hc ha hb e in
    let flipped : bit_xor a (c / 256) ≡ bit_xor b (c / 256) =
      bit_xor_comm a (c / 256) ∙ slots ∙ bit_xor_comm (c / 256) b in
    sym (bit_xor_cancel a (c / 256))
    ∙ ap (λ t. bit_xor t (c / 256)) flipped
    ∙ bit_xor_cancel b (c / 256)

-- On one byte, two registers lead to different registers.
step_register_injective :
    (c d b : ℕ) → c < 65536 → d < 65536 → IsU8 b → crc16_step c b ≡ crc16_step d b → c ≡ d
step_register_injective c d b hc hd hb e =
    let slots = same_slot c d b b hc hd hb hb e in
    let high : c / 256 ≡ d / 256 =
      sym (bit_xor_cancel (c / 256) b) ∙ ap (λ t. bit_xor t b) slots ∙ bit_xor_cancel (d / 256) b in
    let k = entry (bit_xor (d / 256) b) / 256 in
    let same : bit_xor c k % 256 ≡ bit_xor d k % 256 =
      sym (rw slots at (step_bytes c b hc hb).0) ∙ ap (λ t. t / 256) e ∙ (step_bytes d b hd hb).0 in
    let low : c % 256 ≡ d % 256 =
      ap (λ t. t % 256) (sym (bit_xor_cancel c k))
      ∙ bit_xor_low_digits 8 (bit_xor c k) (bit_xor d k) k same
      ∙ ap (λ t. t % 256) (bit_xor_cancel d k) in
    omega arith

from_register_injective :
    (c d : ℕ) (ys : List ℕ)
    → c < 65536
    → d < 65536
    → All IsU8 ys
    → crc16_from c ys ≡ crc16_from d ys
    → c ≡ d
unfolding crc16_from
from_register_injective c d [] hc hd h e = e
from_register_injective c d (b ∷ ys) hc hd h e = step_register_injective c d b hc hd h.0 (
    from_register_injective (crc16_step c b) (crc16_step d b) ys (crc16_step-lt c b)
      (crc16_step-lt d b) h.1 e)

-- Two byte strings that differ in one place have different CRCs, from any register.
pub crc16_from_detects :
    (c : ℕ) (xs ys : List ℕ) (a b : ℕ)
    → c < 65536
    → All IsU8 xs
    → All IsU8 ys
    → IsU8 a
    → IsU8 b
    → crc16_from c (xs ++ (a ∷ ys)) ≡ crc16_from c (xs ++ (b ∷ ys))
    → a ≡ b
unfolding crc16_from
crc16_from_detects c [] ys a b hc hx hy ha hb e = step_byte_injective c a b hc ha hb (
    from_register_injective (crc16_step c a) (crc16_step c b) ys (crc16_step-lt c a)
      (crc16_step-lt c b) hy e)
crc16_from_detects c (x ∷ xs) ys a b hc hx hy ha hb e =
    crc16_from_detects (crc16_step c x) xs ys a b (crc16_step-lt c x) hx.1 hy ha hb e
