-- ===== src/Neighbor/Score.antt =====
-- firmware_core/neighbor_table.c and neighbor_table.h: link scores, the best neighbour, the summary.
-- The argument `airtime_routing` is the build flag RIVR_FEATURE_AIRTIME_ROUTING.
use rivr.Common.{ℕ, zero, suc, Bool, not, Option, none, some, List, [], pos, negsuc, ltb}
use rivr.Common.{leb, u8, u32, sub32, ℤ, clamp_add, ◌+◌, ◌-◌, ◌*◌, ◌/◌, ◌&&◌, ◌||◌, ◌∷◌}
use rivr.Common.{◌==◌, if◌then◌else◌}
use rivr.Neighbor.{Neighbor, Table, expiry_ms, stale_ms, is_expired}

-- Base quality: signal and noise, from 0 to 100.
abbrev pub base_quality : Neighbor → ℕ
base_quality n = clamp_add n.rssi_avg 140 80 + clamp_add n.snr_avg 10 20

-- The decay by age, and the cap at 100.
abbrev pub decay : ℕ → ℕ → ℕ
decay quality age =
    let score = u32 (quality * (expiry_ms - age)) / expiry_ms in
    u8 (if ltb 100 score then 100 else score)

abbrev pub after_loss : Neighbor → ℕ
after_loss n = u32 (base_quality n * sub32 100 n.loss_rate) / 100

-- `neighbor_link_score`
unfoldable pub link_score : Neighbor → ℕ → ℕ
link_score n now_ms =
    if n.neighbor_id == 0
    then 0
    else if is_expired now_ms n
    then 0
    else decay (after_loss n) (sub32 now_ms n.last_seen_ms)

-- `neighbor_link_score_full`
unfoldable pub link_score_full : Bool → Neighbor → ℕ → ℕ
link_score_full airtime_routing n now_ms =
    let etx = if leb 8 n.etx_x8 then n.etx_x8 else 8 in
    let quality = if airtime_routing then base_quality n * 8 / etx else after_loss n in
    if n.neighbor_id == 0
    then 0
    else if is_expired now_ms n
    then 0
    else decay quality (sub32 now_ms n.last_seen_ms)

-- The loop of `neighbor_best` over `n` entries: the best entry so far, and its score.
unfoldable pub best_from : Bool → ℕ → List Neighbor → ℕ → Option Neighbor → ℕ → Option Neighbor
best_from airtime_routing now_ms [] n best best_score = best
best_from airtime_routing now_ms (e ∷ es) zero best best_score = best
best_from airtime_routing now_ms (e ∷ es) (suc n) best best_score =
    let sc = link_score_full airtime_routing e now_ms in
    let skip = e.neighbor_id == 0 || is_expired now_ms e in
    let better = not skip && ltb best_score sc in
    best_from airtime_routing now_ms es n (if better then some e else best)
      (if better then sc else best_score)

-- `neighbor_best`
unfoldable pub best : Bool → Table → ℕ → Option Neighbor
best airtime_routing tbl now_ms = best_from airtime_routing now_ms tbl.entries tbl.count none 0

-- `neighbor_link_summary_t`, with the sum of the loop next to it.
pub record Summary : Type 0 where
  pub count : ℕ
  pub best_score : ℕ
  pub best_rssi : ℤ
  pub avg_loss : ℕ

-- The clamp of the signal to int8_t.
abbrev pub clamp_i8 : ℤ → ℤ
clamp_i8 (pos a) = if ltb 127 a then pos 127 else pos a
clamp_i8 (negsuc a) = if ltb 127 a then negsuc 127 else negsuc a

-- The loop of `neighbor_table_link_summary`; the second component is `loss_sum`.
unfoldable pub summary_from : Bool → ℕ → List Neighbor → Summary → ℕ → Summary × ℕ
summary_from airtime_routing now_ms [] s loss_sum = (s, loss_sum)
summary_from airtime_routing now_ms (e ∷ es) s loss_sum =
    let sc = link_score_full airtime_routing e now_ms in
    let skip = e.neighbor_id == 0 || leb stale_ms (sub32 now_ms e.last_seen_ms) in
    let better = leb s.best_score sc in
    let s' : Summary = record s {
      count = u8 (s.count + 1);
      best_score = if better then sc else s.best_score;
      best_rssi = if better then clamp_i8 e.rssi_avg else s.best_rssi;
    } in
    summary_from airtime_routing now_ms es (if skip then s else s')
      (if skip then loss_sum else u32 (loss_sum + e.loss_rate))

-- `neighbor_table_link_summary`
unfoldable pub link_summary : Bool → Table → ℕ → Summary
link_summary airtime_routing tbl now_ms =
    let start : Summary = record {
      count = 0;
      best_score = 0;
      best_rssi = negsuc 119;
      avg_loss = 0;
    } in
    let (s, loss_sum) = summary_from airtime_routing now_ms tbl.entries start 0 in
    if ltb 0 s.count then record s { avg_loss = u8 (loss_sum / s.count) } else s
