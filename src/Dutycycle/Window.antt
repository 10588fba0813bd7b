-- ===== src/Dutycycle/Window.antt =====
-- `dutycycle_record`, and the budget over a check and the record of the transmission it allowed.
use rivr.Common.{ℕ, zero, suc, bit_and, refl, ap, subst, inl, inr, true, false, List, []}
use rivr.Common.{arith, ltb, leb, ==→eq, Bool-cases, bit_and_mask, length, get_or, All}
use rivr.Common.{length-set, All-set, All-get_or, IsU32, u32, sub32, ◌+◌, ◌-◌, ◌%◌, ◌^◌}
use rivr.Common.{◌≤◌, ◌<◌, ◌≡◌, ◌∙◌, ◌≢◌, ◌⊎◌, ◌∷◌, ◌==◌, if◌then◌else◌}
use rivr.Metrics.{Metrics}
use rivr.Dutycycle.{
  Dc, TxRecord, unused, history_cap, is_old, expire_old, check, search_slots, write_slot, record_tx,
}
use rivr.Dutycycle.Balance.{
  total, IsRecord, IsBalanced, total-set, in_window, expire_old_lem, check_iff, history_small,
}

abbrev end_at : List TxRecord → ℕ → ℕ
end_at h i = (get_or h i unused).tx_end_ms

-- The slot of a round of the search.
abbrev round_slot : ℕ → ℕ → ℕ
round_slot slot i = bit_and (u32 (slot + i)) (history_cap - 1)

round_slot-eq : (slot i : ℕ) → round_slot slot i ≡ (slot + i) % 512
round_slot-eq slot i = omega (arith, (bit_and_mask 9 (u32 (slot + i))).1)

-- The search ends at a free slot or has seen that none is free; its oldest slot is in the table.
abbrev SearchResult : List TxRecord → ℕ → ℕ → ℕ → ℕ × ℕ → Type 0
SearchResult h slot n i (free, lru) =
    ((free < 512) × (end_at h free ≡ 0)
      ⊎ (free ≡ 512) × ((k : ℕ) → k < n → end_at h ((slot + (i + k)) % 512) ≢ 0))
    × (lru < 512)

search_more :
    (h : List TxRecord) (slot n i : ℕ) (r : ℕ × ℕ)
    → end_at h ((slot + i) % 512) ≢ 0
    → SearchResult h slot n (i + 1) r
    → SearchResult h slot (suc n) i r
search_more h slot n i (free, lru) used (inl hit, hl) = (inl hit, hl)
search_more h slot n i (free, lru) used (inr (none_free, seen), hl) = (inr (none_free, all), hl)
  where
    all : (k : ℕ) → k < suc n → end_at h ((slot + (i + k)) % 512) ≢ 0
    all zero lt = let e : i + 0 ≡ i = omega arith in rw e used
    all (suc k) lt = let e : i + suc k ≡ i + 1 + k = omega arith in rw e (seen k (omega arith))

search_lem :
    (h : List TxRecord) (now slot n i lru age : ℕ)
    → lru < 512
    → SearchResult h slot n i (search_slots h now slot n i lru age)
unfolding search_slots
search_lem h now slot zero i lru age hl = (inr (refl, λ k lt. elim lt [ ]), hl)
search_lem h now slot (suc n) i lru age hl =
    let idx = round_slot slot i in
    let eq = round_slot-eq slot i in
    let inside : idx < 512 = omega (arith, eq) in
    let age' = sub32 now (end_at h idx) in
    let lru' = if ltb age age' then idx else lru in
    let bound : lru' < 512 = ground arith in
    let rest = search_lem h now slot n (i + 1) lru' (if ltb age age' then age' else age) bound in
    elim (Bool-cases (end_at h idx == 0)) [
      | inl e ↦ rw e (inl (inside, ==→eq _ _ e), hl)
      | inr e ↦
          let used : end_at h idx ≢ 0 = ground arith in
          rw e (search_more h slot n i _ (rw eq at used) rest)
    ]

-- A full round comes by every slot.
full_round :
    (h : List TxRecord) (slot : ℕ)
    → ((k : ℕ) → k < 512 → end_at h ((slot + (0 + k)) % 512) ≢ 0)
    → (j : ℕ) → j < 512
    → end_at h j ≢ 0
full_round h slot seen j lt =
    let k = (j + 512 - slot % 512) % 512 in
    let e : (slot + (0 + k)) % 512 ≡ j = omega arith in rw e at (seen k (omega arith))

write_slot-IsBalanced :
    (dc : Dc) (idx now toa : ℕ)
    → length dc.history ≡ history_cap
    → All IsRecord dc.history
    → idx < 512
    → IsU32 now
    → IsU32 toa
    → dc.used_us + (get_or dc.history idx unused).toa_us ≡ total dc.history
    → dc.used_us ≤ 2 ^ 41
    → IsBalanced (write_slot dc idx now toa)
      × ((write_slot dc idx now toa).used_us ≡ dc.used_us + toa)
unfolding write_slot
write_slot-IsBalanced dc idx now toa hs hr hi hn ht hb small =
    let r : TxRecord = record { tx_end_ms = if now == 0 then 1 else now; toa_us = toa } in
    let sum = total-set dc.history idx r (omega arith) in
    (
      record {
        slots = length-set dc.history idx r ∙ hs;
        records =
            All-set IsRecord dc.history idx r hr (ht, ground arith, λ z. absurd (ground arith));
        balance = omega (arith, sum);
      },
      omega arith,
    )

in_window-le : (now : ℕ) (rs : List TxRecord) → in_window now rs ≤ total rs
in_window-le now [] = omega arith
in_window-le now (r ∷ rs) = elim (Bool-cases (is_old now r)) [
  | inl e ↦ rw e (omega (arith, in_window-le now rs))
  | inr e ↦ rw e (omega (arith, in_window-le now rs))
]

-- `dutycycle_record` keeps the account in balance. With a free slot after expiry it adds the new
-- airtime to that of the last hour; without one it also gives up the airtime of one old record.
pub record_tx_lem :
    (dc : Dc) (now toa : ℕ)
    → IsBalanced dc
    → IsU32 now
    → IsU32 toa
    → let dc' = record_tx dc now toa in
      let h = (expire_old dc now).history in
      IsBalanced dc'
      × (dc'.used_us ≤ in_window now dc.history + toa)
      × ((j : ℕ)
          → j < history_cap
          → (get_or h j unused).tx_end_ms ≡ 0
          → dc'.used_us ≡ in_window now dc.history + toa)
unfolding record_tx
record_tx_lem dc now toa v hn ht = go (search_slots h now full.head history_cap 0 0 0) refl result
  where
    full : Dc
    full = expire_old dc now

    h : List TxRecord
    h = full.history

    fv : IsBalanced full
    fv = (expire_old_lem dc now v).0

    used : full.used_us ≡ in_window now dc.history
    used = (expire_old_lem dc now v).1

    result : SearchResult h full.head history_cap 0 (search_slots h now full.head history_cap 0 0 0)
    result = search_lem h now full.head history_cap 0 0 0 (omega arith)

    small : full.used_us ≤ 2 ^ 41
    small = history_small full fv

    go :
        (r : ℕ × ℕ)
        → search_slots h now full.head history_cap 0 0 0 ≡ r
        → SearchResult h full.head history_cap 0 (search_slots h now full.head history_cap 0 0 0)
        → let dc' = record_tx dc now toa in
          IsBalanced dc'
          × (dc'.used_us ≤ in_window now dc.history + toa)
          × ((j : ℕ) → j < 512 → end_at h j ≡ 0 → dc'.used_us ≡ in_window now dc.history + toa)
    go (free, lru) e res = split (subst (SearchResult h full.head history_cap 0) e res)
      where
        split :
            SearchResult h full.head history_cap 0 (free, lru)
            → let dc' = record_tx dc now toa in
              IsBalanced dc'
              × (dc'.used_us ≤ in_window now dc.history + toa)
              × ((j : ℕ) → j < 512 → end_at h j ≡ 0 → dc'.used_us ≡ in_window now dc.history + toa)
        split (inl (lt, empty), hl) =
            let test : (free == 512) ≡ false = ground arith in
            let none_lost : (get_or h free unused).toa_us ≡ 0 =
              (All-get_or IsRecord h free unused fv.records (omega arith, omega arith, λ _. refl)).2
                empty in
            let bal = fv.balance in
            let w =
              write_slot-IsBalanced full free now toa fv.slots fv.records lt hn ht
                (omega (arith, none_lost, bal)) small in
            rw (e, record_tx, test)
              (w.0, omega (arith, w.1, used), λ j lt z. w.1 ∙ ap (λ u. u + toa) used)
        split (inr (none_free, seen), hl) =
            let test : (free == 512) ≡ true = ground arith in
            let lost = (get_or h lru unused).toa_us in
            let bal = fv.balance in
            let slots = fv.slots in
            let held : lost ≤ full.used_us =
              omega (arith, total-set h lru unused (omega (arith, slots)), bal) in
            let test' : leb lost full.used_us ≡ true = ground arith in
            let freed : Dc = record full { used_us = full.used_us - lost } in
            let back : full.used_us - lost + lost ≡ total h = omega (arith, bal) in
            let w =
              write_slot-IsBalanced freed lru now toa fv.slots fv.records hl hn ht back
                (omega (arith, small)) in
            rw (e, record_tx, test, test')
              (w.0, omega (arith, w.1, used), λ j lt z. absurd (full_round h full.head seen j lt z))

-- `dutycycle_record` with a free slot after expiry makes the account exactly the airtime of the last
-- hour and the new one, and keeps it in balance.
pub record_tx_exact :
    (dc : Dc) (now toa free : ℕ)
    → IsBalanced dc
    → IsU32 now
    → IsU32 toa
    → free < history_cap
    → (get_or (expire_old dc now).history free unused).tx_end_ms ≡ 0
    → IsBalanced (record_tx dc now toa)
      × ((record_tx dc now toa).used_us ≡ in_window now dc.history + toa)
record_tx_exact dc now toa free v hn ht hf he =
    let (kept, _, exact) = record_tx_lem dc now toa v hn ht in (kept, exact free hf he)

-- A transmission that `dutycycle_check` allows, with the account in balance, keeps the account
-- within the budget of 360 s when it is recorded, at whatever later reading of the clock and even
-- if the history is full. Time and airtime fit their types.
pub allowed_within_budget :
    (dc : Dc) (m : Metrics) (now later toa : ℕ)
    → IsBalanced dc
    → IsU32 later
    → IsU32 toa
    → (check dc m now toa).2 ≡ true
    → (record_tx (check dc m now toa).0 later toa).used_us ≤ 360000000
allowed_within_budget dc m now later toa v hl ht passed =
    let c = check_iff dc m now toa v ht in
    let fits = c.2.0 passed in
    let bal = c.0.balance in
    let r = record_tx_lem (check dc m now toa).0 later toa c.0 hl ht in
    omega (arith, r.1, c.1, fits, bal, in_window-le later (check dc m now toa).0.history)
