-- ===== src/Ringbuf.antt =====
-- firmware_core/ringbuf.h: the single-producer, single-consumer ring that carries transmit
-- requests. One slot stays free, so a ring of `cap` slots holds `cap - 1` items.
-- The storage is a function from a slot to its item; each atomic index is a number.
pub mod Refine
use rivr.Common.{ℕ, bit_and, Bool, true, false, Option, none, some, u32, inc32, sub32}
use rivr.Common.{◌+◌, ◌==◌, if◌then◌else◌}

-- `rb_t`; `item_size` is the size of `A`.
pub record Rb (A : Type 0) : Type 0 where
  pub buf : ℕ → A
  pub cap : ℕ
  pub head : ℕ
  pub tail : ℕ
  pub drops : ℕ

-- One slot overwritten.
abbrev pub store : {A : Type 0} → (ℕ → A) → ℕ → A → ℕ → A
store buf i v j = if j == i then v else buf j

module _ {A : Type 0} where
  -- `rb_init`; the assertion on `cap` is the caller's duty.
  unfoldable pub init : (ℕ → A) → ℕ → Rb A
  init storage cap = record { buf = storage; cap = cap; head = 0; tail = 0; drops = 0 }

  -- The index after `i`, wrapped by the mask.
  abbrev pub next_index : Rb A → ℕ → ℕ
  next_index r i = bit_and (u32 (i + 1)) (sub32 r.cap 1)

  -- `rb_try_push`
  unfoldable pub try_push : Rb A → A → Bool × Rb A
  try_push r item =
      if next_index r r.head == r.tail
      then (false, record r { drops = inc32 r.drops })
      else (true, record r { buf = store r.buf r.head item; head = next_index r r.head })

  -- `rb_pop`; the option is what goes through `out`.
  unfoldable pub pop : Rb A → Option A × Rb A
  pop r =
      if r.tail == r.head
      then (none, r)
      else (some (r.buf r.tail), record r { tail = next_index r r.tail })

  -- `rb_drops`
  unfoldable pub drops : Rb A → ℕ
  drops r = r.drops

  -- `rb_available`
  unfoldable pub available : Rb A → ℕ
  available r = bit_and (sub32 r.head r.tail) (sub32 r.cap 1)
