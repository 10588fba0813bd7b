-- ===== src/Ringbuf/Refine.antt =====
-- The ring against a FIFO of at most `cap - 1` items.
use native.Mathlib.Nat.{mod-eq_of_lt, mod-eq-sub-mod, mod-lt, add-mul-mod_self_left}
use rivr.Common.{ℕ, zero, suc, refl, sym, ap, inl, inr, Bool, true, false, Option, none}
use rivr.Common.{some, List, [], arith, ltb, ltb→lt, Bool-cases, bit_and_mask, pow_add}
use rivr.Common.{length, u32, sub32, ◌+◌, ◌-◌, ◌*◌, ◌%◌, ◌^◌, ◌≤◌, ◌<◌, ◌≡◌, ◌∙◌, ◌≢◌}
use rivr.Common.{◌∷◌, ◌++◌, if◌then◌else◌}
use mathlib.Core.Path.{ap₂}
use rivr.Ringbuf.{Rb, store, next_index, try_push, pop, available}

-- `rb_init`'s assertion, and both indices inside the storage.
pub record IsValid {A : Type 0} (r : Rb A) : Type 0 where
  pub bits : ℕ
  pub power : r.cap ≡ 2 ^ bits
  pub width : bits < 32
  pub small : r.cap < 2 ^ 32
  pub head_in : r.head < r.cap
  pub tail_in : r.tail < r.cap

-- The specification: a FIFO that refuses an item beyond its limit.
module _ {A : Type 0} where
  pub enqueue : ℕ → List A → A → Bool × List A
  enqueue limit q x = if ltb (length q) limit then (true, q ++ (x ∷ [])) else (false, q)

  pub dequeue : List A → Option A × List A
  dequeue [] = (none, [])
  dequeue (x ∷ q) = (some x, q)

-- The `n` items from slot `i` on.
module _ {A : Type 0} (cap : ℕ) where
  pub run_from : (ℕ → A) → ℕ → ℕ → List A
  run_from buf i zero = []
  run_from buf i (suc n) = buf i ∷ run_from buf ((i + 1) % cap) n

  length-run_from : (buf : ℕ → A) (i n : ℕ) → length (run_from buf i n) ≡ n
  unfolding run_from
  length-run_from buf i zero = refl
  length-run_from buf i (suc n) = ap suc (length-run_from buf ((i + 1) % cap) n)

abbrev pub count : {A : Type 0} → Rb A → ℕ
count r = (r.head + r.cap - r.tail) % r.cap

-- What the consumer has not yet read, oldest first.
pub contents : {A : Type 0} → Rb A → List A
contents r = run_from r.cap r.buf r.tail (count r)

-- A sum of two indices, taken once round.
once_round : (x c : ℕ) → x < c + c → x % c ≡ (if ltb x c then x else x - c)
once_round x c h = elim (Bool-cases (ltb x c)) [
  | inl e ↦ rw e (mod-eq_of_lt (ltb→lt x c e))
  | inr e ↦ rw e (mod-eq-sub-mod (ground arith) ∙ mod-eq_of_lt (ground arith))
]

-- A difference below zero, taken modulo any multiple of `c`, is the same modulo `c`.
wrap_multiple : (c m d : ℕ) → 0 < m → d ≤ c → (c * m - d) % c ≡ (c - d) % c
wrap_multiple c zero d h k = absurd (omega arith)
wrap_multiple c (suc m) d h k =
    let regroup : c * suc m - d ≡ c - d + c * m = omega arith in
    ap (λ t. t % c) regroup ∙ add-mul-mod_self_left (c - d) c m

word_multiple : (b : ℕ) → b < 32 → (m : ℕ) × (0 < m) × (2 ^ b * m ≡ 2 ^ 32)
word_multiple b h =
    let whole : b + (32 - b) ≡ 32 = omega arith in
    (2 ^ (32 - b), (bit_and_mask (32 - b) 0).0, sym (pow_add b (32 - b)) ∙ ap (λ t. 2 ^ t) whole)

sub32_mod :
    (b h t : ℕ)
    → b < 32
    → h < 2 ^ b
    → t < 2 ^ b
    → 2 ^ b < 2 ^ 32
    → sub32 h t % 2 ^ b ≡ (h + 2 ^ b - t) % 2 ^ b
sub32_mod b h t w hh ht small = elim (Bool-cases (ltb h t)) [
  | inl e ↦
      let (m, pos, eq) = word_multiple b w in
      let below : h < t = ltb→lt h t e in
      let left : sub32 h t ≡ 2 ^ b * m - (t - h) = omega arith in
      let right : h + 2 ^ b - t ≡ 2 ^ b - (t - h) = omega arith in
      rw (left, right) (wrap_multiple (2 ^ b) m (t - h) pos (omega arith))
  | inr e ↦
      let above : t ≤ h = ground arith in
      let left : sub32 h t ≡ h - t = omega arith in
      let right : h + 2 ^ b - t ≡ h - t + 2 ^ b * 1 = omega arith in
      rw (left, right) (sym (add-mul-mod_self_left (h - t) (2 ^ b) 1))
]

module _ {A : Type 0} where
  -- Under the invariant the mask is the remainder.
  next_index-eq-mod : (r : Rb A) (i : ℕ) → IsValid r → i < r.cap → next_index r i ≡ (i + 1) % r.cap
  next_index-eq-mod r i v h =
      let plain : u32 (i + 1) ≡ i + 1 = omega arith in
      let mask : sub32 r.cap 1 ≡ 2 ^ v.bits - 1 = omega arith in
      rw (plain, mask) ((bit_and_mask v.bits (i + 1)).1 ∙ ap (λ c. (i + 1) % c) (sym v.power))

  store_other : (buf : ℕ → A) (i j : ℕ) (x : A) → j ≢ i → store buf i x j ≡ buf j
  store_other buf i j x h = ground arith

  store_same : (buf : ℕ → A) (i : ℕ) (x : A) → store buf i x i ≡ x
  store_same buf i x = ground arith

  -- A write just past a run makes it one longer.
  run_from-store :
      (c : ℕ) (buf : ℕ → A) (i n s : ℕ) (x : A)
      → i < c
      → n < c
      → s ≡ (i + n) % c
      → run_from c (store buf s x) i (suc n) ≡ run_from c buf i n ++ (x ∷ [])
  unfolding run_from
  run_from-store c buf i zero s x hi hn e =
      let here : s ≡ i = ground (arith, once_round (i + 0) c) in
      rw here (ap (λ y. y ∷ []) (store_same buf i x))
  run_from-store c buf i (suc n) s x hi hn e =
      let turn : s ≡ ((i + 1) % c + n) % c =
        ground
          (arith, once_round (i + suc n) c, once_round (i + 1) c, once_round ((i + 1) % c + n) c) in
      let away : i ≢ s = ground (arith, once_round (i + suc n) c) in
      let inside : (i + 1) % c < c = mod-lt (i + 1) (omega arith) in
      ap₂ ◌∷◌ (store_other buf s i x away)
        (run_from-store c buf ((i + 1) % c) n s x inside (omega arith) turn)

  -- Where the next item goes, and when there is room for one.
  head-eq : (r : Rb A) → IsValid r → r.head ≡ (r.tail + count r) % r.cap
  head-eq r v =
      ground
        (arith, once_round (r.head + r.cap - r.tail) r.cap, once_round (r.tail + count r) r.cap)

  count-lt : (r : Rb A) → IsValid r → count r < r.cap
  count-lt r v = mod-lt _ (omega arith)

  -- The count after the head moves on, unless it meets the tail; and after the tail moves on.
  count_head :
      (r : Rb A)
      → IsValid r
      → (((r.head + 1) % r.cap ≡ r.tail) → count r ≡ r.cap - 1)
        × (((r.head + 1) % r.cap ≢ r.tail)
            → (count r < r.cap - 1)
              × (((r.head + 1) % r.cap + r.cap - r.tail) % r.cap ≡ suc (count r)))
  count_head r v =
      let a = once_round (r.head + r.cap - r.tail) r.cap in
      let b = once_round (r.head + 1) r.cap in
      let d = once_round ((r.head + 1) % r.cap + r.cap - r.tail) r.cap in
      (λ e. ground (arith, a, b), λ ne. (ground (arith, a, b), ground (arith, a, b, d)))

  count_tail :
      (r : Rb A)
      → IsValid r
      → ((r.tail ≡ r.head) → count r ≡ 0)
        × ((r.tail ≢ r.head) → count r ≡ suc ((r.head + r.cap - (r.tail + 1) % r.cap) % r.cap))
  count_tail r v =
      let a = once_round (r.head + r.cap - r.tail) r.cap in
      let b = once_round (r.tail + 1) r.cap in
      let d = once_round (r.head + r.cap - (r.tail + 1) % r.cap) r.cap in
      (λ e. ground (arith, a, b), λ ne. ground (arith, a, b, d))

  pub length-contents : (r : Rb A) → length (contents r) ≡ count r
  unfolding contents
  length-contents r = length-run_from r.cap r.buf r.tail (count r)

  -- On a valid ring `rb_try_push` answers and changes the contents as the FIFO's `enqueue` with a
  -- limit of `cap - 1` items does.
  pub try_push_refines :
      (r : Rb A) (x : A)
      → IsValid r
      → ((try_push r x).0, contents (try_push r x).1) ≡ enqueue (r.cap - 1) (contents r) x
  unfolding try_push enqueue contents
  try_push_refines r x v = ground (
    arith,
    next_index-eq-mod r r.head v v.head_in,
    count_head r v,
    head-eq r v,
    count-lt r v,
    length-run_from r.cap r.buf r.tail (count r),
    run_from-store r.cap r.buf r.tail (count r) r.head x,
  )

  -- `rb_try_push` keeps the ring valid.
  pub try_push-IsValid : (r : Rb A) (x : A) → IsValid r → IsValid (try_push r x).1
  unfolding try_push
  try_push-IsValid r x v =
      ground (arith, next_index-eq-mod r r.head v v.head_in, mod-lt (r.head + 1) {m = r.cap})

  -- On a valid ring `rb_pop` returns the oldest item and leaves the rest, as `dequeue` does.
  pub pop_refines : (r : Rb A) → IsValid r → ((pop r).0, contents (pop r).1) ≡ dequeue (contents r)
  unfolding pop dequeue contents run_from
  pop_refines r v = ground (arith, next_index-eq-mod r r.tail v v.tail_in, count_tail r v)

  -- `rb_pop` keeps the ring valid.
  pub pop-IsValid : (r : Rb A) → IsValid r → IsValid (pop r).1
  unfolding pop
  pop-IsValid r v =
      ground (arith, next_index-eq-mod r r.tail v v.tail_in, mod-lt (r.tail + 1) {m = r.cap})

  -- On a valid ring `rb_available` is the number of items not yet read.
  pub available-length : (r : Rb A) → IsValid r → available r ≡ length (contents r)
  unfolding available contents
  available-length r v =
      let mask : sub32 r.cap 1 ≡ 2 ^ v.bits - 1 = omega arith in
      rw (mask, length-run_from r.cap r.buf r.tail (count r), (bit_and_mask v.bits _).1, ← v.power)
        (rw v.power (
          sub32_mod v.bits r.head r.tail v.width (rw v.power at v.head_in) (rw v.power at v.tail_in)
            (rw v.power at v.small)))
