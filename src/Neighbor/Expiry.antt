-- ===== src/Neighbor/Expiry.antt =====
-- firmware_core/neighbor_table.c: what neighbor_table_expire leaves in the table.
use rivr.Common.{ℕ, zero, suc, refl, ap, inl, inr, Bool, false, not, List, [], arith, ltb}
use rivr.Common.{ltb→lt, Bool-cases, length, get_or, set, take, count_if, length-set, u8}
use rivr.Common.{◌+◌, ◌-◌, ◌≤◌, ◌<◌, ◌≡◌, ◌∙◌, ◌&&◌, ◌∷◌, ◌==◌, if◌then◌else◌}
use rivr.Neighbor.{Neighbor, Table, empty, entry_at, is_expired}
unfoldable use rivr.Neighbor.{expire_rounds, expire}

abbrev pub bit : Bool → ℕ
bit b = if b then 1 else 0

module _ {A : Type 0} where
  take-set_beyond : (xs : List A) (i j : ℕ) (v : A) → i ≤ j → take i (set xs j v) ≡ take i xs
  take-set_beyond xs zero j v h = refl
  take-set_beyond [] (suc i) j v h = refl
  take-set_beyond (x ∷ xs) (suc i) zero v h = absurd (omega arith)
  take-set_beyond (x ∷ xs) (suc i) (suc j) v h =
      ap (λ l. x ∷ l) (take-set_beyond xs i j v (omega arith))

  -- How many of the first elements pass a test, with one more element, and after a write.
  count_if-take-suc :
      (p : A → Bool) (xs : List A) (i : ℕ) (d : A)
      → i < length xs
      → count_if p (take (suc i) xs) ≡ count_if p (take i xs) + bit (p (get_or xs i d))
  count_if-take-suc p [] i d h = absurd (omega arith)
  count_if-take-suc p (x ∷ xs) zero d h = ground arith
  count_if-take-suc p (x ∷ xs) (suc i) d h =
      ground (arith, count_if-take-suc p xs i d (omega arith))

  count_if-take-set :
      (p : A → Bool) (xs : List A) (n i : ℕ) (v d : A)
      → i < n
      → n ≤ length xs
      → count_if p (take n (set xs i v)) + bit (p (get_or xs i d))
        ≡ count_if p (take n xs) + bit (p v)
  count_if-take-set p [] n i v d h1 h2 = absurd (omega arith)
  count_if-take-set p (x ∷ xs) zero i v d h1 h2 = absurd (omega arith)
  count_if-take-set p (x ∷ xs) (suc n) zero v d h1 h2 = ground arith
  count_if-take-set p (x ∷ xs) (suc n) (suc i) v d h1 h2 =
      ground (arith, count_if-take-set p xs n i v d (omega arith) (omega arith))

-- The entries that pass a test and have not expired.
abbrev pub and_alive : (Neighbor → Bool) → ℕ → Neighbor → Bool
and_alive p now_ms n = p n && not (is_expired now_ms n)

-- The table after the entry at `i` is overwritten by the last one and that slot cleared.
abbrev pub removed_at : Table → ℕ → Table
removed_at tbl i = record {
  entries =
      set
        (if i == tbl.count - 1
          then tbl.entries
          else set tbl.entries i (entry_at tbl (tbl.count - 1)))
        (tbl.count - 1) empty;
  count = tbl.count - 1;
}

-- Taking an entry away that fails a test changes no count of the entries that pass it.
removed_at-count :
    (q : Neighbor → Bool) (tbl : Table) (i : ℕ)
    → i < tbl.count
    → tbl.count ≤ length tbl.entries
    → q (entry_at tbl i) ≡ false
    → count_if q (take (tbl.count - 1) (removed_at tbl i).entries)
      ≡ count_if q (take tbl.count tbl.entries)
removed_at-count q tbl i lt le fails =
    let last = tbl.count - 1 in
    let es = tbl.entries in
    let more : tbl.count ≡ suc last = omega arith in
    let whole : count_if q (take tbl.count es)
        ≡ count_if q (take last es) + bit (q (get_or es last empty)) =
      ap (λ n. count_if q (take n es)) more ∙ count_if-take-suc q es last empty (omega arith) in
    elim (Bool-cases (i == last)) [
      | inl e ↦
          let here : i ≡ last = ground arith in
          let fails' : q (get_or es last empty) ≡ false = rw here at fails in
          rw (e, take-set_beyond es last last empty (omega arith)) (ground (arith, whole, fails'))
      | inr n ↦
          let x = get_or es last empty in
          let wrote : count_if q (take last (set es i x)) + bit (q (get_or es i empty))
              ≡ count_if q (take last es) + bit (q x) =
            count_if-take-set q es last i x empty (ground arith) (omega arith) in
          rw (n, take-set_beyond (set es i x) last last empty (omega arith))
            (ground (arith, whole, wrote, fails))
    ]

removed_at-length : (tbl : Table) (i : ℕ) → length (removed_at tbl i).entries ≡ length tbl.entries
removed_at-length tbl i = elim (Bool-cases (i == tbl.count - 1)) [
  | inl e ↦ rw e (length-set tbl.entries (tbl.count - 1) empty)
  | inr n ↦ rw n (
      length-set (set tbl.entries i (entry_at tbl (tbl.count - 1))) (tbl.count - 1) empty
      ∙ length-set tbl.entries i (entry_at tbl (tbl.count - 1)))
]

removed_at-prefix :
    (tbl : Table) (i : ℕ) → i < tbl.count → take i (removed_at tbl i).entries ≡ take i tbl.entries
removed_at-prefix tbl i lt = elim (Bool-cases (i == tbl.count - 1)) [
  | inl e ↦ rw e (take-set_beyond tbl.entries i (tbl.count - 1) empty (omega arith))
  | inr n ↦ rw n (
      take-set_beyond (set tbl.entries i (entry_at tbl (tbl.count - 1))) i (tbl.count - 1) empty
        (omega arith)
      ∙ take-set_beyond tbl.entries i i (entry_at tbl (tbl.count - 1)) (omega arith))
]

-- Among entries of which none has expired, the test for it drops none.
count_if-none_expired :
    (p : Neighbor → Bool) (es : List Neighbor) (now_ms : ℕ)
    → count_if (is_expired now_ms) es ≡ 0
    → count_if p es ≡ count_if (and_alive p now_ms) es
count_if-none_expired p [] now_ms h = refl
count_if-none_expired p (e ∷ es) now_ms h = ground (arith, h, count_if-none_expired p es now_ms)

-- The loop from index `i` on, with no expired entry in front of it.
expire_rounds-kept :
    (p : Neighbor → Bool) (fuel : ℕ) (tbl : Table) (i removed now_ms : ℕ)
    → i ≤ tbl.count
    → tbl.count ≤ i + fuel
    → tbl.count ≤ length tbl.entries
    → removed + tbl.count ≤ 255
    → count_if (is_expired now_ms) (take i tbl.entries) ≡ 0
    → let (tbl', gone) = expire_rounds fuel tbl i removed now_ms in
      (count_if p (take tbl'.count tbl'.entries)
        ≡ count_if (and_alive p now_ms) (take tbl.count tbl.entries))
      × (gone + tbl'.count ≡ removed + tbl.count)
unfolding expire_rounds
expire_rounds-kept p zero tbl i removed now_ms le enough fits small swept =
    let done : i ≡ tbl.count = omega arith in
    let swept' : count_if (is_expired now_ms) (take tbl.count tbl.entries) ≡ 0 = rw done at swept in
    (count_if-none_expired p (take tbl.count tbl.entries) now_ms swept', refl)
expire_rounds-kept p (suc fuel) tbl i removed now_ms le enough fits small swept =
    elim (Bool-cases (ltb i tbl.count)) [
      | inr done ↦
          let last : i ≡ tbl.count = ground arith in
          let swept' : count_if (is_expired now_ms) (take tbl.count tbl.entries) ≡ 0 =
            rw last at swept in
          rw done (count_if-none_expired p (take tbl.count tbl.entries) now_ms swept', refl)
      | inl more ↦
          let lt : i < tbl.count = ltb→lt i tbl.count more in
          elim (Bool-cases (is_expired now_ms (entry_at tbl i))) [
            | inl gone ↦
                let fails : and_alive p now_ms (entry_at tbl i) ≡ false = rw gone (ground arith) in
                let inc : u8 (removed + 1) ≡ suc removed = omega arith in
                let rest =
                  expire_rounds-kept p fuel (removed_at tbl i) i (suc removed) now_ms (omega arith)
                    (omega arith) (omega (arith, removed_at-length tbl i)) (omega arith)
                    (ap (count_if (is_expired now_ms)) (removed_at-prefix tbl i lt) ∙ swept) in
                let counted = removed_at-count (and_alive p now_ms) tbl i lt fits fails in
                rw (more, gone, inc) (rest.0 ∙ counted, rest.1 ∙ omega arith)
            | inr fresh ↦
                let step : u8 (i + 1) ≡ suc i = omega arith in
                let grown : count_if (is_expired now_ms) (take (suc i) tbl.entries) ≡ 0 =
                  count_if-take-suc (is_expired now_ms) tbl.entries i empty (omega arith)
                  ∙ ground (arith, swept, fresh) in
                let rest =
                  expire_rounds-kept p fuel tbl (suc i) removed now_ms (omega arith) (omega arith)
                    fits small grown in
                rw (more, fresh, step) rest
          ]
    ]

-- For a table whose count is at most its size and at most 255, and any test of entries:
-- neighbor_table_expire leaves as many counted entries that pass the test as had passed it and had
-- not expired before, and returns the number of entries that it took away.
pub expire-kept :
    (p : Neighbor → Bool) (tbl : Table) (now_ms : ℕ)
    → tbl.count ≤ length tbl.entries
    → tbl.count ≤ 255
    → let (tbl', gone) = expire tbl now_ms in
      (count_if p (take tbl'.count tbl'.entries)
        ≡ count_if (and_alive p now_ms) (take tbl.count tbl.entries))
      × (gone + tbl'.count ≡ tbl.count)
unfolding expire
expire-kept p tbl now_ms fits small =
    let spec =
      expire_rounds-kept p tbl.count tbl 0 0 now_ms (omega arith) (omega arith) fits (omega arith)
        refl in
    (spec.0, spec.1 ∙ omega arith)
