-- ===== src/Dutycycle.antt =====
-- firmware_core/dutycycle.h and dutycycle.c: the sliding one-hour window of transmissions. The
-- millisecond clock is a uint32_t argument, airtime sums are uint64_t.
pub mod Balance
pub mod Window
use rivr.Common.{ℕ, zero, suc, bit_and, Bool, true, false, not, List, [], ltb, leb}
use rivr.Common.{get_or, set, replicate, u32, inc32, sub32, ◌+◌, ◌-◌, ◌*◌, ◌/◌, ◌%◌, ◌^◌}
use rivr.Common.{◌&&◌, ◌∷◌, ◌==◌, if◌then◌else◌}
use rivr.Metrics.{Metrics}

-- DC_WINDOW_MS, DC_DUTY_PCT_X10, DC_BUDGET_US, DC_HISTORY_CAP
abbrev pub window_ms : ℕ
window_ms = 3600000

abbrev pub duty_pct_x10 : ℕ
duty_pct_x10 = 100

abbrev pub budget_us : ℕ
budget_us = window_ms * duty_pct_x10 * 1000 / 1000

abbrev pub history_cap : ℕ
history_cap = 512

-- `dc_tx_record_t`
pub record TxRecord : Type 0 where
  pub tx_end_ms : ℕ
  pub toa_us : ℕ

-- `dc_ctx_t`
pub record Dc : Type 0 where
  pub history : List TxRecord
  pub head : ℕ
  pub used_us : ℕ
  pub total_blocked_us : ℕ
  pub blocked_count : ℕ

abbrev pub unused : TxRecord
unused = record { tx_end_ms = 0; toa_us = 0 }

-- Differences and sums of uint64_t.
abbrev pub sub64 : ℕ → ℕ → ℕ
sub64 a b = (a + 2 ^ 64 - b) % 2 ^ 64

abbrev pub add64 : ℕ → ℕ → ℕ
add64 a b = (a + b) % 2 ^ 64

-- `dutycycle_init`
unfoldable pub init : Dc
init = record {
  history = replicate history_cap unused;
  head = 0;
  used_us = 0;
  total_blocked_us = 0;
  blocked_count = 0;
}

-- Whether a slot of the history is in use and out of the window.
abbrev pub is_old : ℕ → TxRecord → Bool
is_old now_ms r = not (r.tx_end_ms == 0) && ltb window_ms (sub32 now_ms r.tx_end_ms)

-- The loop of `expire_old`, over the slots that are left: the history and `used_us`.
unfoldable pub expire_from : ℕ → ℕ → List TxRecord → List TxRecord × ℕ
expire_from now_ms used [] = ([], used)
expire_from now_ms used (r ∷ rs) =
    let old = is_old now_ms r in
    let (rs', used') = expire_from now_ms (if old then sub64 used r.toa_us else used) rs in
    ((if old then unused else r) ∷ rs', used')

-- `expire_old`
unfoldable pub expire_old : Dc → ℕ → Dc
expire_old dc now_ms =
    let (history, used) = expire_from now_ms dc.used_us dc.history in
    record dc { history = history; used_us = used }

-- `dutycycle_check`
unfoldable pub check : Dc → Metrics → ℕ → ℕ → Dc × Metrics × Bool
check dc m now_ms toa_us =
    let dc' = expire_old dc now_ms in
    if leb (add64 dc'.used_us toa_us) budget_us then (dc', m, true) else (
      record dc' {
        blocked_count = inc32 dc'.blocked_count;
        total_blocked_us = add64 dc'.total_blocked_us toa_us;
      },
      record m { duty_blocked = inc32 m.duty_blocked },
      false,
    )

-- The search of `dutycycle_record` with `n` rounds left, in round `i`: the first free slot, or
-- `history_cap`, and the oldest slot.
unfoldable pub search_slots : List TxRecord → ℕ → ℕ → ℕ → ℕ → ℕ → ℕ → ℕ × ℕ
search_slots history now_ms slot zero i lru_idx lru_age = (history_cap, lru_idx)
search_slots history now_ms slot (suc n) i lru_idx lru_age =
    let idx = bit_and (u32 (slot + i)) (history_cap - 1) in
    let r = get_or history idx unused in
    let age = sub32 now_ms r.tx_end_ms in
    let older = ltb lru_age age in
    let rest =
      search_slots history now_ms slot n (i + 1) (if older then idx else lru_idx)
        (if older then age else lru_age) in
    if r.tx_end_ms == 0 then (idx, lru_idx) else rest

-- The write at the end of `dutycycle_record`.
unfoldable pub write_slot : Dc → ℕ → ℕ → ℕ → Dc
write_slot dc idx now_ms toa_us = record dc {
  history =
      set dc.history idx
        (record { tx_end_ms = if now_ms == 0 then 1 else now_ms; toa_us = toa_us });
  head = bit_and (u32 (idx + 1)) (history_cap - 1);
  used_us = add64 dc.used_us toa_us;
}

-- `dutycycle_record`
unfoldable pub record_tx : Dc → ℕ → ℕ → Dc
record_tx dc now_ms toa_us =
    let dc' = expire_old dc now_ms in
    let (free_idx, lru_idx) = search_slots dc'.history now_ms dc'.head history_cap 0 0 0 in
    let lru_toa = (get_or dc'.history lru_idx unused).toa_us in
    if free_idx == history_cap
    then write_slot
        (record dc' { used_us = if leb lru_toa dc'.used_us then dc'.used_us - lru_toa else 0 })
        lru_idx now_ms toa_us
    else write_slot dc' free_idx now_ms toa_us

-- `dutycycle_remaining_us`
unfoldable pub remaining_us : Dc → ℕ
remaining_us dc = if leb budget_us dc.used_us then 0 else budget_us - dc.used_us
