-- ===== src/Neighbor/Link.antt =====
-- firmware_core/neighbor_table.c: what updates can make of the averages and of the estimated loss.
use rivr.Common.{ℕ, zero, suc, refl, sym, ap, subst, inl, inr, true, arith, pos, negsuc}
use rivr.Common.{ltb, leb, Bool-cases, Option-cases, set, All, All-set, All-get_or, u8}
use rivr.Common.{u16, sub32, ℤ, neg, scale, tdiv, wrap, i8, i16, IsSigned, ◌+◌, ◌-◌, ◌*◌}
use rivr.Common.{◌/◌, ◌%◌, ◌^◌, ◌≤◌, ◌<◌, ◌≡◌, ◌==◌, if◌then◌else◌, ◌+ℤ◌}
use native.Mathlib.Nat.{mul-div-le, mul-le-mul_left, mul-le-mul_right, mod-eq_of_lt}
use rivr.Neighbor.{Neighbor, Table, Observation, ewma, empty, entry_at, fresh_entry}
unfoldable use rivr.Neighbor.{
  miss, update_loss_rate_ewma, recompute_etx, update_known, observe, update, oldest_slot, find_slot,
}

-- A link as the table keeps it: the estimated loss is at most 81 %, the expected transmissions
-- are at most 42 / 8, and signal and noise lie from `- rssi` and `- snr` up.
pub record IsBounded (rssi snr : ℕ) (n : Neighbor) : Type 0 where
  pub loss : n.loss_rate ≤ 81
  pub etx : n.etx_x8 ≤ 42
  pub signal : IsSigned rssi n.rssi_avg
  pub noise : IsSigned snr n.snr_avg

miss-bound : (n loss : ℕ) → loss ≤ 93 → miss n loss ≤ 93
unfolding miss
miss-bound zero loss h = h
miss-bound (suc n) loss h = miss-bound n (u8 ((loss * 7 + 100) / 8)) (omega arith)

update_loss_rate_ewma-bound :
    (n : Neighbor) (seq : ℕ) → n.loss_rate ≤ 81 → (update_loss_rate_ewma n seq).loss_rate ≤ 81
unfolding update_loss_rate_ewma
update_loss_rate_ewma-bound n seq h =
    let gap = u16 (seq + 2 ^ 32 - n.last_seq - 1) in
    omega (arith, miss-bound (if ltb 15 gap then 15 else gap) n.loss_rate (omega arith))

recompute_etx-bound : (n : Neighbor) → n.loss_rate ≤ 81 → (recompute_etx n).etx_x8 ≤ 42
unfolding recompute_etx
recompute_etx-bound n h = ground (arith, etx_small (sub32 100 n.loss_rate) (omega arith))
  where
    etx_small : (d : ℕ) → 19 ≤ d → 800 / d ≤ 42
    etx_small d le =
        let wide : 19 * 43 ≤ d * 43 = mul-le-mul_right 43 le in
        let back : d * (800 / d) ≤ 800 = mul-div-le 800 d in
        elim (Bool-cases (leb (800 / d) 42)) [
          | inl e ↦ ground arith
          | inr e ↦
              let more : d * 43 ≤ d * (800 / d) = mul-le-mul_left d (ground arith) in
              absurd (omega arith)
        ]

neg-IsSigned : (half n : ℕ) → n ≤ half → 0 < half → IsSigned half (neg n)
neg-IsSigned half zero h some_half = some_half
neg-IsSigned half (suc n) h some_half = omega arith

neg_suc : (n : ℕ) → 0 < n → neg n ≡ negsuc (n - 1)
neg_suc zero h = absurd (omega arith)
neg_suc (suc n) h = ap negsuc (omega arith)

tdiv-IsSigned : (half : ℕ) (z : ℤ) → 0 < half → IsSigned (8 * half) z → IsSigned half (tdiv z 8)
tdiv-IsSigned half (pos a) some_half h = omega arith
tdiv-IsSigned half (negsuc a) some_half h = neg-IsSigned half (suc a / 8) (omega arith) some_half

-- A weighted sum of two numbers of a range.
sum-IsSigned :
    (half : ℕ) (a b : ℤ) → IsSigned half a → IsSigned half b → IsSigned (8 * half) (scale a 7 +ℤ b)
sum-IsSigned half (pos a) (pos b) ha hb = omega arith
sum-IsSigned half (pos a) (negsuc b) ha hb = elim (Bool-cases (ltb b (a * 7))) [
  | inl e ↦ rw e (omega arith)
  | inr e ↦ rw e (omega arith)
]
sum-IsSigned half (negsuc a) (pos b) ha hb =
    rw (neg_suc (suc a * 7) (omega arith)) (elim (Bool-cases (ltb (suc a * 7 - 1) b)) [
      | inl e ↦ rw e (omega arith)
      | inr e ↦ rw e (omega arith)
    ])
sum-IsSigned half (negsuc a) (negsuc b) ha hb = rw (neg_suc (suc a * 7) (omega arith)) (omega arith)

-- A mean of two numbers of a range is in the range.
ewma-IsSigned :
    (half : ℕ) (a b : ℤ) → 0 < half → IsSigned half a → IsSigned half b → IsSigned half (ewma a b)
ewma-IsSigned half a b some_half ha hb =
    tdiv-IsSigned half (scale a 7 +ℤ b) some_half (sum-IsSigned half a b ha hb)

-- A cast leaves a number of a narrower range alone.
wrap-IsSigned : (top half : ℕ) (z : ℤ) → half ≤ top → IsSigned half z → wrap top z ≡ z
wrap-IsSigned top half (pos a) h hz =
    let small : a % (2 * top) ≡ a = mod-eq_of_lt (omega arith) in
    let low : ltb a top ≡ true = ground arith in rw (small, low) refl
wrap-IsSigned top half (negsuc a) h hz =
    let small : a % (2 * top) ≡ a = mod-eq_of_lt (omega arith) in
    let low : ltb a top ≡ true = ground arith in rw (small, low) refl

observe-IsBounded :
    (rssi snr : ℕ) (n : Neighbor) (o : Observation)
    → IsBounded rssi snr n
    → IsBounded rssi snr (observe n o)
unfolding observe
observe-IsBounded rssi snr n o h = record {
  loss = h.loss;
  etx = h.etx;
  signal = h.signal;
  noise = h.noise;
}

-- The expected transmissions are computed anew from the loss.
recompute_etx-IsBounded :
    (rssi snr : ℕ) (n : Neighbor)
    → n.loss_rate ≤ 81
    → IsSigned rssi n.rssi_avg
    → IsSigned snr n.snr_avg
    → IsBounded rssi snr (recompute_etx n)
unfolding recompute_etx
recompute_etx-IsBounded rssi snr n loss signal noise = record {
  loss = loss;
  etx = recompute_etx-bound n loss;
  signal = signal;
  noise = noise;
}

update_known-IsBounded :
    (rssi snr : ℕ) (n : Neighbor) (o : Observation)
    → rssi ≤ 32768
    → snr ≤ 128
    → 0 < rssi
    → 0 < snr
    → IsBounded rssi snr n
    → IsSigned rssi o.rssi_dbm
    → IsSigned snr o.snr_db
    → IsBounded rssi snr (update_known n o)
unfolding update_known update_loss_rate_ewma
update_known-IsBounded rssi snr n o top top' some_rssi some_snr h hr hs =
    let signal = ewma-IsSigned rssi n.rssi_avg o.rssi_dbm some_rssi h.signal hr in
    let noise = ewma-IsSigned snr n.snr_avg o.snr_db some_snr h.noise hs in
    let signal' =
      subst (IsSigned rssi) (sym (wrap-IsSigned 32768 rssi (ewma n.rssi_avg o.rssi_dbm) top signal))
        signal in
    let noise' =
      subst (IsSigned snr) (sym (wrap-IsSigned 128 snr (ewma n.snr_avg o.snr_db) top' noise))
        noise in
    let heard : Neighbor = record n {
      rssi_avg = i16 (ewma n.rssi_avg o.rssi_dbm);
      snr_avg = i8 (ewma n.snr_avg o.snr_db);
    } in
    let lossy = update_loss_rate_ewma heard o.seq in
    elim (Bool-cases (ltb 0 n.rx_ok)) [
      | inl e ↦ rw e (
          recompute_etx-IsBounded rssi snr
            (record lossy {
              hop_count = if ltb o.hop_count n.hop_count then o.hop_count else n.hop_count;
            })
            (update_loss_rate_ewma-bound heard o.seq h.loss) signal' noise')
      | inr e ↦ rw e (
          recompute_etx-IsBounded rssi snr
            (record heard {
              hop_count = if ltb o.hop_count n.hop_count then o.hop_count else n.hop_count;
            })
            h.loss signal' noise')
    ]

-- For bounds that the C types hold: if every entry of the table has an estimated loss of at most
-- 81 % and at most 42 / 8 expected transmissions, and every signal and noise average and the new
-- sample lie in the range from `- rssi` to `rssi - 1` and from `- snr` to `snr - 1`, then this
-- holds after neighbor_update.
pub update-IsBounded :
    (rssi snr : ℕ) (tbl : Table) (o : Observation)
    → rssi ≤ 32768
    → snr ≤ 128
    → 0 < rssi
    → 0 < snr
    → All (IsBounded rssi snr) tbl.entries
    → IsSigned rssi o.rssi_dbm
    → IsSigned snr o.snr_db
    → All (IsBounded rssi snr) (update tbl o).0.entries
unfolding update
update-IsBounded rssi snr tbl o top top' some_rssi some_snr all hr hs =
    let zero_IsBounded : IsBounded rssi snr empty = record {
      loss = omega arith;
      etx = omega arith;
      signal = some_rssi;
      noise = some_snr;
    } in
    let new : IsBounded rssi snr (fresh_entry o) = record {
      loss = omega arith;
      etx = omega arith;
      signal = hr;
      noise = hs;
    } in
    let put : (i : ℕ) → All (IsBounded rssi snr) (set tbl.entries i (observe (fresh_entry o) o)) =
      λ i.
        All-set (IsBounded rssi snr) tbl.entries i (observe (fresh_entry o) o) all
          (observe-IsBounded rssi snr (fresh_entry o) o new) in
    elim (Bool-cases (o.node_id == 0)) [
      | inl e ↦ rw e all
      | inr e ↦ elim (Option-cases (find_slot tbl o.node_id)) [
        | inr (i, there) ↦
            let n = entry_at tbl i in
            let known = All-get_or (IsBounded rssi snr) tbl.entries i empty all zero_IsBounded in
            let kept =
              update_known-IsBounded rssi snr n o top top' some_rssi some_snr known hr hs in
            rw (e, there)
              (All-set (IsBounded rssi snr) tbl.entries i (observe (update_known n o) o) all
                (observe-IsBounded rssi snr (update_known n o) o kept))
        | inl gone ↦ elim (Bool-cases (ltb tbl.count 16)) [
          | inl room ↦ rw (e, gone, room) (put tbl.count)
          | inr full ↦ rw (e, gone, full) (put (oldest_slot tbl))
        ]
      ]
    ]
