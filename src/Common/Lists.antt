-- ===== src/Common/Lists.antt =====
-- C arrays as lists, measured and indexed by native numbers under the library's names.
use Prim.Native.Nat.{ℕ, zero, suc, ◌+◌, ◌-◌, ◌<◌, ◌≤◌, min}
use mathlib.Core.Path.{◌≡◌, refl, sym, ap, ◌∙◌}
use mathlib.Core.Logic.{◌≢◌}
use mathlib.Core.Bool.{Bool, true, false}
use mathlib.Core.List.{List, [], ◌∷◌, ◌++◌}
use native.Mathlib.Omega.{arith}

module _ {ℓ} {A : Type ℓ} where
  abbrev pub length : List A → ℕ
  length [] = 0
  length (x ∷ xs) = suc (length xs)

  -- An element read at an index; `d` out of range.
  abbrev pub get_or : List A → ℕ → A → A
  get_or [] i d = d
  get_or (x ∷ xs) zero d = x
  get_or (x ∷ xs) (suc i) d = get_or xs i d

  -- A write out of range changes nothing.
  abbrev pub set : List A → ℕ → A → List A
  set [] i v = []
  set (x ∷ xs) zero v = v ∷ xs
  set (x ∷ xs) (suc i) v = x ∷ set xs i v

  abbrev pub take : ℕ → List A → List A
  take zero xs = []
  take (suc n) [] = []
  take (suc n) (x ∷ xs) = x ∷ take n xs

  abbrev pub drop : ℕ → List A → List A
  drop zero xs = xs
  drop (suc n) [] = []
  drop (suc n) (x ∷ xs) = drop n xs

  abbrev pub replicate : ℕ → A → List A
  replicate zero a = []
  replicate (suc n) a = a ∷ replicate n a

  abbrev pub All {κ} : (A → Type κ) → List A → Type κ
  All P [] = Unit {κ}
  All P (x ∷ xs) = P x × All P xs

  -- How many elements pass a test.
  abbrev pub count_if : (A → Bool) → List A → ℕ
  count_if p [] = 0
  count_if p (x ∷ xs) = elim (p x) [ true ↦ suc (count_if p xs) | false ↦ count_if p xs ]

module _ {ℓ} {A : Type ℓ} where
  pub length-append : (xs ys : List A) → length (xs ++ ys) ≡ length xs + length ys
  length-append [] ys = omega arith
  length-append (x ∷ xs) ys = omega (arith, length-append xs ys)

  pub length-set : (xs : List A) (i : ℕ) (v : A) → length (set xs i v) ≡ length xs
  length-set [] i v = refl
  length-set (x ∷ xs) zero v = refl
  length-set (x ∷ xs) (suc i) v = ap suc (length-set xs i v)

  pub length-drop : (n : ℕ) (xs : List A) → length (drop n xs) ≡ length xs - n
  length-drop zero xs = omega arith
  length-drop (suc n) [] = omega arith
  length-drop (suc n) (x ∷ xs) = omega (arith, length-drop n xs)

  pub length-take : (n : ℕ) (xs : List A) → length (take n xs) ≡ min n (length xs)
  length-take zero xs = omega arith
  length-take (suc n) [] = omega arith
  length-take (suc n) (x ∷ xs) = omega (arith, length-take n xs)

  pub length-replicate : (n : ℕ) (a : A) → length (replicate n a) ≡ n
  length-replicate zero a = refl
  length-replicate (suc n) a = ap suc (length-replicate n a)

  pub take-append : (xs ys : List A) → take (length xs) (xs ++ ys) ≡ xs
  take-append [] ys = refl
  take-append (x ∷ xs) ys = ap (λ l. x ∷ l) (take-append xs ys)

  pub drop-append : (xs ys : List A) → drop (length xs) (xs ++ ys) ≡ ys
  drop-append [] ys = refl
  drop-append (x ∷ xs) ys = drop-append xs ys

  pub take-append-drop : (n : ℕ) (xs : List A) → take n xs ++ drop n xs ≡ xs
  take-append-drop zero xs = refl
  take-append-drop (suc n) [] = refl
  take-append-drop (suc n) (x ∷ xs) = ap (λ l. x ∷ l) (take-append-drop n xs)

  pub All-append {κ} : (P : A → Type κ) (xs ys : List A) → All P xs → All P ys → All P (xs ++ ys)
  All-append P [] ys hx hy = hy
  All-append P (x ∷ xs) ys hx hy = (hx.0, All-append P xs ys hx.1 hy)

  pub All-set {κ} :
      (P : A → Type κ) (xs : List A) (i : ℕ) (v : A) → All P xs → P v → All P (set xs i v)
  All-set P [] i v h hv = h
  All-set P (x ∷ xs) zero v h hv = (hv, h.1)
  All-set P (x ∷ xs) (suc i) v h hv = (h.0, All-set P xs i v h.1 hv)

  pub All-get_or {κ} :
      (P : A → Type κ) (xs : List A) (i : ℕ) (d : A) → All P xs → P d → P (get_or xs i d)
  All-get_or P [] i d h hd = hd
  All-get_or P (x ∷ xs) zero d h hd = h.0
  All-get_or P (x ∷ xs) (suc i) d h hd = All-get_or P xs i d h.1 hd

  pub get_or-set_self :
      (xs : List A) (i : ℕ) (v d : A) → i < length xs → get_or (set xs i v) i d ≡ v
  get_or-set_self [] i v d h = absurd (omega arith)
  get_or-set_self (x ∷ xs) zero v d h = refl
  get_or-set_self (x ∷ xs) (suc i) v d h = get_or-set_self xs i v d (omega arith)

  pub count_if-le : (p : A → Bool) (xs : List A) → count_if p xs ≤ length xs
  count_if-le p [] = omega arith
  count_if-le p (x ∷ xs) = ground (arith, count_if-le p xs)

  pub get_or-append :
      (xs ys : List A) (i : ℕ) (d : A) → get_or (xs ++ ys) (length xs + i) d ≡ get_or ys i d
  get_or-append [] ys i d = let e : 0 + i ≡ i = omega arith in ap (λ k. get_or ys k d) e
  get_or-append (x ∷ xs) ys i d =
      let e : suc (length xs) + i ≡ suc (length xs + i) = omega arith in
      ap (λ k. get_or (x ∷ (xs ++ ys)) k d) e ∙ get_or-append xs ys i d

  pub take_all : (xs : List A) → take (length xs) xs ≡ xs
  take_all [] = refl
  take_all (x ∷ xs) = ap (λ l. x ∷ l) (take_all xs)

  pub take_add : (a b : ℕ) (xs : List A) → take (a + b) xs ≡ take a xs ++ take b (drop a xs)
  take_add zero b xs = let e : 0 + b ≡ b = omega arith in ap (λ k. take k xs) e
  take_add (suc a) b [] =
      let e : suc a + b ≡ suc (a + b) = omega arith in
      ap (λ k. take {A = A} k []) e ∙ sym (take-nil b)
    where
      take-nil : (n : ℕ) → take {A = A} n [] ≡ []
      take-nil zero = refl
      take-nil (suc n) = refl
  take_add (suc a) b (x ∷ xs) =
      let e : suc a + b ≡ suc (a + b) = omega arith in
      ap (λ k. take k (x ∷ xs)) e ∙ ap (λ l. x ∷ l) (take_add a b xs)

  pub take-drop_two :
      (k : ℕ) (xs : List A) (d : A)
      → k + 2 ≤ length xs
      → take 2 (drop k xs) ≡ get_or xs k d ∷ get_or xs (suc k) d ∷ []
  take-drop_two k [] d h = absurd (omega arith)
  take-drop_two zero (x ∷ []) d h = absurd (omega arith)
  take-drop_two zero (x ∷ y ∷ xs) d h = refl
  take-drop_two (suc k) (x ∷ xs) d h = take-drop_two k xs d (omega arith)

  pub get_or-set_ne :
      (xs : List A) (i j : ℕ) (v d : A) → i ≢ j → get_or (set xs i v) j d ≡ get_or xs j d
  get_or-set_ne [] i j v d h = refl
  get_or-set_ne (x ∷ xs) zero zero v d h = absurd (h refl)
  get_or-set_ne (x ∷ xs) zero (suc j) v d h = refl
  get_or-set_ne (x ∷ xs) (suc i) zero v d h = refl
  get_or-set_ne (x ∷ xs) (suc i) (suc j) v d h = get_or-set_ne xs i j v d (λ e. h (ap suc e))

  pub set-append :
      (xs ys : List A) (i : ℕ) (v : A) → set (xs ++ ys) (length xs + i) v ≡ xs ++ set ys i v
  set-append [] ys i v = let e : 0 + i ≡ i = omega arith in ap (λ k. set ys k v) e
  set-append (x ∷ xs) ys i v =
      let e : suc (length xs) + i ≡ suc (length xs + i) = omega arith in
      ap (λ k. set (x ∷ (xs ++ ys)) k v) e ∙ ap (λ l. x ∷ l) (set-append xs ys i v)
