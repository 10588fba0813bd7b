-- ===== src/Fabric.antt =====
-- firmware_core/rivr_fabric.h and rivr_fabric.c, as a repeater builds it: sixty one-second buckets of
-- radio events, the congestion score over them and the relay decision. The millisecond clock is a
-- uint32_t argument; rssi, length and airtime of an event are not read by the code.
pub mod Window
pub mod Relay
use rivr.Common.{ℕ, zero, suc, min, not, List, [], ltb, leb, get_or, set, replicate, u8}
use rivr.Common.{u16, u32, inc32, sub32, ◌+◌, ◌-◌, ◌*◌, ◌/◌, ◌%◌, ◌&&◌, ◌∷◌, ◌==◌}
use rivr.Common.{if◌then◌else◌}
use rivr.Metrics.{Metrics}
use rivr.Protocol.{Hdr}

-- FABRIC_BUCKETS
abbrev pub bucket_count : ℕ
bucket_count = 60

-- The thresholds of the score, and RIVR_FABRIC_MAX_EXTRA_DELAY_MS.
abbrev pub drop_threshold : ℕ
drop_threshold = 80

abbrev pub delay_threshold : ℕ
delay_threshold = 50

abbrev pub light_delay_threshold : ℕ
light_delay_threshold = 20

abbrev pub max_extra_delay_ms : ℕ
max_extra_delay_ms = 1000

abbrev pub blackout_guard_score : ℕ
blackout_guard_score = 95

-- PKT_CHAT, PKT_DATA
abbrev pub pkt_chat : ℕ
pkt_chat = 1

abbrev pub pkt_data : ℕ
pkt_data = 6

-- `fabric_decision_t`
pub data Decision : Type 0 where
  send_now delay drop_relay : Decision

-- `fabric_bucket_t`
pub record Bucket : Type 0 where
  pub rx_count : ℕ
  pub tx_ok_count : ℕ
  pub tx_fail_count : ℕ
  pub tx_blocked_dc : ℕ
  pub tx_enqueued : ℕ

-- `fabric_state_t` and the static counters next to it.
pub record Fabric : Type 0 where
  pub buckets : List Bucket
  pub last_bucket_sec : ℕ
  pub relay_drop_total : ℕ
  pub relay_delay_total : ℕ
  pub relay_total : ℕ
  pub blocked_dc_total : ℕ
  pub fail_total : ℕ
  pub ok_total : ℕ
  pub rx_total : ℕ
  pub last_score : ℕ

abbrev pub zero_bucket : Bucket
zero_bucket = record {
  rx_count = 0;
  tx_ok_count = 0;
  tx_fail_count = 0;
  tx_blocked_dc = 0;
  tx_enqueued = 0;
}

-- `rivr_fabric_init`; the static counters keep their values.
unfoldable pub init : Fabric → Fabric
init f = record f { buckets = replicate bucket_count zero_bucket; last_bucket_sec = 0 }

-- The loop of `fabric_advance` from `d` on, with `n` rounds left.
unfoldable pub clear_from : List Bucket → ℕ → ℕ → ℕ → List Bucket
clear_from buckets last d zero = buckets
clear_from buckets last d (suc n) =
    clear_from (set buckets (u32 (last + d) % bucket_count) zero_bucket) last (d + 1) n

-- `fabric_advance`
unfoldable pub advance : Fabric → ℕ → Fabric
advance f now_ms =
    let now_sec = now_ms / 1000 in
    let delta = sub32 now_sec f.last_bucket_sec in
    if now_sec == f.last_bucket_sec then f else record f {
      buckets = clear_from f.buckets f.last_bucket_sec 1 (min delta bucket_count);
      last_bucket_sec = now_sec;
    }

-- A write through the pointer of `fabric_current`.
unfoldable pub at_current : Fabric → ℕ → (Bucket → Bucket) → Fabric
at_current f now_ms change =
    let f' = advance f now_ms in
    let idx = f'.last_bucket_sec % bucket_count in
    record f' { buckets = set f'.buckets idx (change (get_or f'.buckets idx zero_bucket)) }

-- One field summed over the buckets, in uint32_t.
unfoldable pub total : (Bucket → ℕ) → ℕ → List Bucket → ℕ
total field sum [] = sum
total field sum (b ∷ bs) = total field (u32 (sum + field b)) bs

-- A sum as a rate per second, in hundredths.
abbrev pub rate_x100 : ℕ → ℕ
rate_x100 sum = u32 (sum * 100) / bucket_count

abbrev pub rx_rate : Fabric → ℕ
rx_rate f = rate_x100 (total (λ b. b.rx_count) 0 f.buckets)

abbrev pub fail_rate : Fabric → ℕ
fail_rate f = rate_x100 (total (λ b. b.tx_fail_count) 0 f.buckets)

abbrev pub blocked_rate : Fabric → ℕ
blocked_rate f = rate_x100 (total (λ b. b.tx_blocked_dc) 0 f.buckets)

-- `fabric_score` of a state that has advanced; the constants are the weights.
unfoldable pub score : Fabric → ℕ
score f =
    let score100 = u32 (rx_rate f * 2 + blocked_rate f * 25 + fail_rate f * 10) in
    u8 ((if ltb 10000 score100 then 10000 else score100) / 100)

-- `rivr_fabric_tick`
unfoldable pub tick : Fabric → ℕ → Fabric
tick f now_ms = advance f now_ms

-- `rivr_fabric_on_rx`
unfoldable pub on_rx : Fabric → ℕ → Fabric
on_rx f now_ms =
    let f' = at_current f now_ms (λ b. record b { rx_count = u16 (b.rx_count + 1) }) in
    record f' { rx_total = inc32 f'.rx_total }

-- `rivr_fabric_on_tx_enqueued`
unfoldable pub on_tx_enqueued : Fabric → ℕ → Fabric
on_tx_enqueued f now_ms =
    at_current f now_ms (λ b. record b { tx_enqueued = u16 (b.tx_enqueued + 1) })

-- `rivr_fabric_on_tx_ok`
unfoldable pub on_tx_ok : Fabric → ℕ → Fabric
on_tx_ok f now_ms =
    let f' = at_current f now_ms (λ b. record b { tx_ok_count = u16 (b.tx_ok_count + 1) }) in
    record f' { ok_total = inc32 f'.ok_total }

-- `rivr_fabric_on_tx_fail`
unfoldable pub on_tx_fail : Fabric → ℕ → Fabric
on_tx_fail f now_ms =
    let f' = at_current f now_ms (λ b. record b { tx_fail_count = u16 (b.tx_fail_count + 1) }) in
    record f' { fail_total = inc32 f'.fail_total }

-- `rivr_fabric_on_tx_blocked_dc`
unfoldable pub on_tx_blocked_dc : Fabric → ℕ → Fabric
on_tx_blocked_dc f now_ms =
    let f' = at_current f now_ms (λ b. record b { tx_blocked_dc = u16 (b.tx_blocked_dc + 1) }) in
    record f' { blocked_dc_total = inc32 f'.blocked_dc_total }

-- A relay that is delayed by `extra`.
abbrev pub delayed : Fabric → Metrics → ℕ → Fabric × Metrics × Decision × ℕ
delayed f m extra = (
  record f { relay_delay_total = inc32 f.relay_delay_total },
  record m { fabric_delay = inc32 m.fabric_delay },
  delay,
  extra,
)

-- `rivr_fabric_decide_relay` once the score is known; the last component is `*out_extra_delay_ms`.
unfoldable pub decide_by_score : Fabric → Metrics → ℕ → Fabric × Metrics × Decision × ℕ
decide_by_score f m score =
    let extra = u32 (250 + (score - delay_threshold) * 10) in
    let light = u32 ((score - light_delay_threshold) * 10) in
    if leb blackout_guard_score score
    then delayed f m max_extra_delay_ms
    else if leb drop_threshold score
    then (
      record f { relay_drop_total = inc32 f.relay_drop_total },
      record m { fabric_drop = inc32 m.fabric_drop },
      drop_relay,
      0,
    )
    else if leb delay_threshold score
    then delayed f m (if ltb max_extra_delay_ms extra then max_extra_delay_ms else extra)
    else if leb light_delay_threshold score
    then delayed f m (if ltb 300 light then 300 else light)
    else (f, m, send_now, 0)

-- `rivr_fabric_decide_relay`
unfoldable pub decide_relay : Fabric → Metrics → Hdr → ℕ → Fabric × Metrics × Decision × ℕ
decide_relay f m pkt now_ms =
    if not (pkt.pkt_type == pkt_chat) && not (pkt.pkt_type == pkt_data)
    then (f, m, send_now, 0)
    else let f1 = advance (record f { relay_total = inc32 f.relay_total }) now_ms in
      decide_by_score (record f1 { last_score = score f1 }) m (score f1)

-- `fabric_debug_t`
pub record Debug : Type 0 where
  pub score : ℕ
  pub rx_per_s_x100 : ℕ
  pub blocked_per_s_x100 : ℕ
  pub fail_per_s_x100 : ℕ
  pub relay_drop_total : ℕ
  pub relay_delay_total : ℕ

-- `rivr_fabric_get_debug`
unfoldable pub get_debug : Fabric → ℕ → Fabric × Debug
get_debug f now_ms =
    let f' = advance f now_ms in
    (
      f',
      record {
        score = score f';
        rx_per_s_x100 = u16 (rx_rate f');
        blocked_per_s_x100 = u16 (blocked_rate f');
        fail_per_s_x100 = u16 (fail_rate f');
        relay_drop_total = f'.relay_drop_total;
        relay_delay_total = f'.relay_delay_total;
      },
    )

-- `rivr_fabric_get_score`, `_get_relay_delayed`, `_get_relay_dropped`, `_get_relay_total`,
-- `_get_tx_blocked` and `_get_rx_total`
unfoldable pub get_score : Fabric → ℕ
get_score f = f.last_score

unfoldable pub get_relay_delayed : Fabric → ℕ
get_relay_delayed f = f.relay_delay_total

unfoldable pub get_relay_dropped : Fabric → ℕ
get_relay_dropped f = f.relay_drop_total

unfoldable pub get_relay_total : Fabric → ℕ
get_relay_total f = f.relay_total

unfoldable pub get_tx_blocked : Fabric → ℕ
get_tx_blocked f = f.blocked_dc_total

unfoldable pub get_rx_total : Fabric → ℕ
get_rx_total f = f.rx_total
