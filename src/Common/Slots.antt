-- ===== src/Common/Slots.antt =====
-- Tables of slots: the loop that stores an entry in the first free slot.
use Prim.Native.Nat.{◌+◌, ◌<◌}
use mathlib.Core.Path.{◌≡◌}
use mathlib.Core.Logic.{inl, inr}
use mathlib.Core.Bool.{Bool, true}
use mathlib.Core.Option.{Option, none, some}
use mathlib.Core.List.{List, [], ◌∷◌}
use native.Mathlib.Omega.{arith}
use rivr.Common.Tests.{if◌then◌else◌, Option-cases}
use rivr.Common.Lists.{length, count_if, count_if-le}

module _ {A : Type 0} where
  -- The entry in front of what the rest of a scan made.
  abbrev pub keep_first : A → Option (List A) → Option (List A)
  keep_first e none = none
  keep_first e (some es) = some (e ∷ es)

  -- The first slot that is not taken is filled; none if all are taken.
  unfoldable pub place : (A → Bool) → List A → (A → A) → Option (List A)
  place taken [] fill = none
  place taken (e ∷ es) fill =
      let rest = keep_first e (place taken es fill) in if taken e then rest else some (fill e ∷ es)

  pub place_none :
      (taken : A → Bool) (es : List A) (fill : A → A)
      → place taken es fill ≡ none
      → count_if taken es ≡ length es
  unfolding place
  place_none taken [] fill h = omega arith
  place_none taken (e ∷ es) fill h = elim (Option-cases (place taken es fill)) [
    | inl gone ↦ ground (arith, place_none taken es fill gone)
    | inr (r, there) ↦ ground (arith, there)
  ]

  pub place_some :
      (taken : A → Bool) (es es' : List A) (fill : A → A)
      → ((e : A) → taken (fill e) ≡ true)
      → place taken es fill ≡ some es'
      → (count_if taken es' ≡ count_if taken es + 1)
        × (length es' ≡ length es)
        × (count_if taken es < length es)
  unfolding place
  place_some taken [] es' fill v h = ground arith
  place_some taken (e ∷ es) es' fill v h = elim (Option-cases (place taken es fill)) [
    | inl gone ↦ ground (arith, gone, v e, count_if-le taken es)
    | inr (r, there) ↦
        ground (arith, there, v e, place_some taken es r fill v there, count_if-le taken es)
  ]
