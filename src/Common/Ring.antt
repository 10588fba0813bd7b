-- ===== src/Common/Ring.antt =====
-- Arrays written in a circle: how long an element stays before the writes come round to it.
use Prim.Native.Nat.{ℕ, suc, ◌+◌, ◌<◌, ◌%◌}
use mathlib.Core.Path.{◌≡◌, ap, ◌∙◌}
use mathlib.Core.Logic.{◌⊎◌, ◌≢◌, inl, inr}
use mathlib.Core.List.{List}
use native.Mathlib.Omega.{arith}
use native.Mathlib.Nat.{mod-eq_of_lt, mod_self}
use rivr.Common.Tests.{ltb, ltb→lt, Bool-cases}
use rivr.Common.Lists.{length, get_or, set, length-set, get_or-set_self, get_or-set_ne}

-- The index behind `h` in a ring of `n` slots.
next-cases :
    (n h : ℕ) → h < n → ((h + 1 < n) × ((h + 1) % n ≡ h + 1)) ⊎ ((h + 1 ≡ n) × ((h + 1) % n ≡ 0))
next-cases n h lt = elim (Bool-cases (ltb (h + 1) n)) [
  | inl e ↦ inl (ltb→lt (h + 1) n e, mod-eq_of_lt (ltb→lt (h + 1) n e))
  | inr e ↦ let last : h + 1 ≡ n = ground arith in inr (last, ap (λ m. m % n) last ∙ mod_self n)
]

module _ {A : Type 0} (d : A) where
  -- The element `e` stands in slot `i`, and the write index `h` is `k` slots past the one behind it.
  pub record Keeps (n i k : ℕ) (e : A) (xs : List A) (h : ℕ) : Type 0 where
    pub slots : length xs ≡ n
    pub head_in : h < n
    pub place : get_or xs i d ≡ e
    pub slot : i < n
    pub ahead : (h ≡ i + 1 + k) ⊎ (h + n ≡ i + 1 + k)

  pub fresh-Keeps :
      (n : ℕ) (xs : List A) (h : ℕ) (e : A)
      → length xs ≡ n
      → h < n
      → Keeps n h 0 e (set xs h e) ((h + 1) % n)
  fresh-Keeps n xs h e len lt = record {
    slots = length-set xs h e ∙ len;
    head_in = elim (next-cases n h lt) [ inl (a, q) ↦ omega arith | inr (a, q) ↦ omega arith ];
    place = get_or-set_self xs h e d (omega arith);
    slot = lt;
    ahead = elim (next-cases n h lt) [
      | inl (a, q) ↦ inl (omega arith)
      | inr (a, q) ↦ inr (omega arith)
    ];
  }

  -- A write of another element moves the index by one, and hits the slot only after `n - 1` of them.
  pub write-Keeps :
      (n i k : ℕ) (e : A) (xs : List A) (h : ℕ) (x : A)
      → Keeps n i k e xs h
      → k + 1 < n
      → Keeps n i (suc k) e (set xs h x) ((h + 1) % n)
  write-Keeps n i k e xs h x v lt =
      let away : h ≢ i = λ q. elim v.ahead [
        | inl a ↦ absurd (omega arith)
        | inr a ↦ let slot = v.slot in absurd (omega arith)
      ] in
      let slot = v.slot in
      let head_in = v.head_in in
      record {
        slots = length-set xs h x ∙ v.slots;
        head_in = elim (next-cases n h head_in) [
          | inl (b, q) ↦ omega arith
          | inr (b, q) ↦ omega arith
        ];
        place = get_or-set_ne xs h i x d away ∙ v.place;
        slot = slot;
        ahead = elim (next-cases n h head_in) [
          | inl (b, q) ↦ elim v.ahead [ inl a ↦ inl (omega arith) | inr a ↦ inr (omega arith) ]
          | inr (b, q) ↦ elim v.ahead [ inl a ↦ inr (omega arith) | inr a ↦ absurd (omega arith) ]
        ];
      }
