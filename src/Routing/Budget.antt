-- ===== src/Routing/Budget.antt =====
-- firmware_core/routing.c: the forward budget, per packet type and minute and for the hour. The
-- build's role fixes the caps and is an argument of `init`.
pub mod Caps
use rivr.Common.{ℕ, Bool, true, false, List, ltb, leb, get_or, set, replicate, u16, u32}
use rivr.Common.{sub32, ◌+◌, ◌-◌, ◌/◌, ◌^◌, if◌then◌else◌}

-- FWDBUDGET_PKT_TYPES, FWDBUDGET_WINDOW_MS, FWDBUDGET_MAX_FWD, FWDBUDGET_MAX_AIR_US,
-- FWDBUDGET_HOUR_WINDOW_MS, FWDBUDGET_MAX_HOUR_AIR_US
abbrev pub pkt_types : ℕ
pkt_types = 8

abbrev pub window_ms : ℕ
window_ms = 60000

abbrev pub hour_window_ms : ℕ
hour_window_ms = 3600000

abbrev pub max_hour_air_us : ℕ
max_hour_air_us = 360000000

-- RIVR_ROLE_*
pub data Role : Type 0 where
  repeater gateway client generic : Role

-- FWDBUDGET_MAX_FWD_ROLE
abbrev pub max_fwd_role : Role → ℕ
max_fwd_role repeater = 60
max_fwd_role gateway = 60
max_fwd_role client = 20
max_fwd_role generic = 30

-- FWDBUDGET_MAX_AIR_US_ROLE
abbrev pub max_air_role : Role → ℕ
max_air_role generic = 2 ^ 32 - 1
max_air_role _ = 3000000

-- `forward_budget_t`
pub record Budget : Type 0 where
  pub window_start_ms : ℕ
  pub fwd_count : List ℕ
  pub fwd_air_us : List ℕ
  pub max_fwd_count : ℕ
  pub max_air_us : ℕ
  pub hour_window_start_ms : ℕ
  pub hour_total_air_us : ℕ
  pub max_hour : ℕ
  pub fwd_drop_count : List ℕ
  pub total_fwd_drops : ℕ
  pub tx_originated_count : List ℕ

abbrev pub zeros : List ℕ
zeros = replicate pkt_types 0

-- `routing_fwdbudget_init`
unfoldable pub init : Role → Budget
init role = record {
  window_start_ms = 0;
  fwd_count = zeros;
  fwd_air_us = zeros;
  max_fwd_count = max_fwd_role role;
  max_air_us = max_air_role role;
  hour_window_start_ms = 0;
  hour_total_air_us = 0;
  max_hour = max_hour_air_us;
  fwd_drop_count = zeros;
  total_fwd_drops = 0;
  tx_originated_count = zeros;
}

-- The two resets of `fwdbudget_roll_window`.
unfoldable pub roll_minute : Budget → ℕ → Budget
roll_minute fb now_ms =
    if leb window_ms (sub32 now_ms fb.window_start_ms)
    then record fb {
      fwd_count = zeros;
      fwd_air_us = zeros;
      fwd_drop_count = zeros;
      tx_originated_count = zeros;
      window_start_ms = now_ms;
    }
    else fb

unfoldable pub roll_hour : Budget → ℕ → Budget
roll_hour fb now_ms =
    if leb hour_window_ms (sub32 now_ms fb.hour_window_start_ms)
    then record fb { hour_total_air_us = 0; hour_window_start_ms = now_ms }
    else fb

-- `fwdbudget_roll_window`
unfoldable pub roll_window : Budget → ℕ → Budget
unfolding roll_minute roll_hour
roll_window fb now_ms = roll_hour (roll_minute fb now_ms) now_ms

-- `routing_fwdbudget_check`
unfoldable pub check : Budget → ℕ → ℕ → ℕ → Budget × Bool
check fb pkt_type toa_us now_ms =
    let fb' = roll_window fb now_ms in
    if leb pkt_types pkt_type
    then (fb, true)
    else if leb fb'.max_fwd_count (get_or fb'.fwd_count pkt_type 0)
    then (fb', false)
    else if ltb fb'.max_air_us (u32 (get_or fb'.fwd_air_us pkt_type 0 + toa_us))
    then (fb', false)
    else if ltb fb'.max_hour (u32 (fb'.hour_total_air_us + toa_us))
    then (fb', false)
    else (fb', true)

-- The additions of `routing_fwdbudget_record`, after the windows have rolled.
unfoldable pub charge : Budget → ℕ → ℕ → Budget
charge fb pkt_type toa_us = record fb {
  fwd_count = set fb.fwd_count pkt_type (u16 (get_or fb.fwd_count pkt_type 0 + 1));
  fwd_air_us = set fb.fwd_air_us pkt_type (u32 (get_or fb.fwd_air_us pkt_type 0 + toa_us));
  hour_total_air_us = u32 (fb.hour_total_air_us + toa_us);
}

-- `routing_fwdbudget_record`
unfoldable pub record_fwd : Budget → ℕ → ℕ → ℕ → Budget
record_fwd fb pkt_type toa_us now_ms =
    if leb pkt_types pkt_type then fb else charge (roll_window fb now_ms) pkt_type toa_us

-- `routing_fwdbudget_adapt` in a build with RIVR_FEATURE_ADAPTIVE_FLOOD; without it nothing changes.
unfoldable pub adapt : Bool → Role → Budget → ℕ → ℕ → Budget
adapt adaptive role fb fabric_score dc_pct =
    let load = if ltb dc_pct fabric_score then fabric_score else dc_pct in
    let cap' =
      if ltb load 40
      then max_fwd_role role
      else if ltb load 70
      then max_fwd_role role / 2
      else max_fwd_role role / 4 in
    if adaptive then record fb { max_fwd_count = if ltb cap' 4 then 4 else cap' } else fb
