-- ===== src/Rml/Memory.antt =====
-- firmware_core/rml/rml_seen.c: how long an id is remembered.
use rivr.Common.{ℕ, zero, suc, refl, inl, inr, true, false, List, [], arith, eq→==}
use rivr.Common.{Bool-cases, length, get_or, u16, ◌+◌, ◌%◌, ◌≤◌, ◌<◌, ◌≡◌, ◌≢◌}
use rivr.Common.{◌||◌, ◌∷◌, ◌==◌}
use rivr.Common.Ring.{Keeps, fresh-Keeps, write-Keeps}
use rivr.Rml.Seen.{Ids}
unfoldable use rivr.Rml.Seen.{seen_scan, seen, mark_seen}

pub record IsValid (c : Ids) : Type 0 where
  pub slots : length c.slots ≡ 64
  pub next_in : c.next_slot < 64

word_index : (h : ℕ) → u16 ((h + 1) % 64) ≡ (h + 1) % 64
word_index h = omega arith

pub mark_seen-Keeps :
    (i k id x : ℕ) (c : Ids)
    → Keeps 0 64 i k id c.slots c.next_slot
    → k + 1 < 64
    → (j : ℕ) × (j ≤ suc k) × Keeps 0 64 i j id (mark_seen c x).slots (mark_seen c x).next_slot
unfolding mark_seen
mark_seen-Keeps i k id x c h lt = elim (Bool-cases (x == 0 || seen c x)) [
  | inl e ↦ rw e (k, omega arith, h)
  | inr e ↦
      rw (e, word_index c.next_slot)
        (suc k, omega arith, write-Keeps 0 64 i k id c.slots c.next_slot x h lt)
]

seen_scan_at :
    (xs : List ℕ) (i id : ℕ) → i < length xs → get_or xs i 0 ≡ id → seen_scan xs id ≡ true
unfolding seen_scan
seen_scan_at [] i id lt h = absurd (omega arith)
seen_scan_at (x ∷ xs) zero id lt h = rw (eq→== x id h) refl
seen_scan_at (x ∷ xs) (suc i) id lt h =
    rw (seen_scan_at xs i id (omega arith) h)
      (elim (Bool-cases (x == id)) [ inl e ↦ rw e refl | inr e ↦ rw e refl ])

pub Keeps-seen :
    (i k id : ℕ) (c : Ids) → Keeps 0 64 i k id c.slots c.next_slot → id ≢ 0 → seen c id ≡ true
unfolding seen
Keeps-seen i k id c h ne =
    let some_id : (id == 0) ≡ false = ground (arith, ne) in
    rw some_id (seen_scan_at c.slots i id (omega (arith, h.slots, h.slot)) h.place)

pub fresh_id-Keeps :
    (c : Ids) (id : ℕ)
    → IsValid c
    → id ≢ 0
    → seen c id ≡ false
    → Keeps 0 64 c.next_slot 0 id (mark_seen c id).slots (mark_seen c id).next_slot
unfolding mark_seen
fresh_id-Keeps c id v ne new =
    let some_id : (id == 0) ≡ false = ground (arith, ne) in
    let fresh : (id == 0 || seen c id) ≡ false = rw (some_id, new) refl in
    rw (fresh, word_index c.next_slot) (fresh-Keeps 0 64 c.slots c.next_slot id v.slots v.next_in)
