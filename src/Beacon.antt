-- ===== src/Beacon.antt =====
-- firmware_core/beacon_sched.h and beacon_sched.c: when the beacon timer may transmit. Clock, interval,
-- jitter, number of live neighbours and entropy are arguments; the null checks are left out.
pub mod Spacing
use rivr.Common.{ℕ, Bool, true, false, not, ltb, leb, u8, u32, sub32, ◌+◌, ◌%◌, ◌&&◌}
use rivr.Common.{◌||◌, ◌==◌, if◌then◌else◌}

-- BEACON_STARTUP_COUNT, BEACON_STARTUP_WINDOW_MS, BEACON_SUPPRESS_MIN_NEIGHBORS
abbrev pub startup_limit : ℕ
startup_limit = 2

abbrev pub startup_window_ms : ℕ
startup_window_ms = 300000

abbrev pub suppress_min_neighbors : ℕ
suppress_min_neighbors = 2

-- `beacon_sched_result_t`
pub data Outcome : Type 0 where
  tx_startup tx_scheduled suppress_neighbors suppress_interval : Outcome

-- `beacon_sched_t`
pub record Sched : Type 0 where
  pub last_tx_ms : ℕ
  pub next_min_tx_ms : ℕ
  pub startup_count : ℕ
  pub startup_done : Bool

-- The arguments of one firing of the timer.
pub record Firing : Type 0 where
  pub now_ms : ℕ
  pub interval_ms : ℕ
  pub jitter_max_ms : ℕ
  pub live_neighbor_count : ℕ
  pub entropy : ℕ

-- The state in zeroed memory.
abbrev pub zero_sched : Sched
zero_sched = record { last_tx_ms = 0; next_min_tx_ms = 0; startup_count = 0; startup_done = false }

-- `beacon_sched_set_initial_tx`
unfoldable pub set_initial_tx : Sched → ℕ → Sched
set_initial_tx s now_ms = record s { last_tx_ms = now_ms }

-- The interval up to the next beacon, with its jitter.
abbrev pub gap : Firing → ℕ
gap x = u32 (x.interval_ms + (if ltb 0 x.jitter_max_ms then x.entropy % x.jitter_max_ms else 0))

-- A transmission is noted.
abbrev pub note_tx : Sched → Firing → Sched
note_tx s x = record s { last_tx_ms = x.now_ms; next_min_tx_ms = gap x }

-- Step 1 of `beacon_sched_tick`.
abbrev pub close_window : Sched → Firing → Sched
close_window s x = record s {
  startup_done =
      if not s.startup_done && (leb startup_window_ms x.now_ms || leb startup_limit s.startup_count)
      then true
      else s.startup_done;
}

-- Step 2.
abbrev pub burst : Sched → Firing → Sched
burst s x =
    let n = u8 (s.startup_count + 1) in
    note_tx
      (record s {
        startup_count = n;
        startup_done = if leb startup_limit n then true else s.startup_done;
      })
      x

-- `beacon_sched_tick`
unfoldable pub tick : Sched → Firing → Sched × Outcome
tick s x =
    let s1 = close_window s x in
    if not s1.startup_done
    then (burst s1 x, tx_startup)
    else if leb suppress_min_neighbors x.live_neighbor_count
    then (s1, suppress_neighbors)
    else if not (s1.last_tx_ms == 0) && ltb (sub32 x.now_ms s1.last_tx_ms) s1.next_min_tx_ms
    then (s1, suppress_interval)
    else (note_tx s1 x, tx_scheduled)
