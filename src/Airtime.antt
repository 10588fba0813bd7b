-- ===== src/Airtime.antt =====
-- firmware_core/airtime_sched.h and airtime_sched.c: the token buckets that gate transmissions.
-- The global context is an argument and a result; time is `tb_millis()`, a uint32_t.
pub mod Bounds
pub mod Accounting
use rivr.Common.{ℕ, bit_and, Bool, true, false, not, List, [], ltb, length, get_or, set}
use rivr.Common.{replicate, u32, inc32, sub32, ◌+◌, ◌-◌, ◌*◌, ◌&&◌, ◌||◌, ◌∷◌, ◌==◌}
use rivr.Common.{if◌then◌else◌}
use rivr.Metrics.{Metrics}
use rivr.Protocol.{at, read32}

-- AIRTIME_CAPACITY_US, AIRTIME_REFILL_US_PER_MS, AIRTIME_LOW_WATERMARK_US, AIRTIME_NB_CAPACITY_US,
-- AIRTIME_NB_REFILL_US_PER_MS, AIRTIME_NB_MAX
abbrev pub capacity_us : ℕ
capacity_us = 10000000

abbrev pub refill_us_per_ms : ℕ
refill_us_per_ms = 100

abbrev pub low_watermark_us : ℕ
low_watermark_us = 1000000

abbrev pub nb_capacity_us : ℕ
nb_capacity_us = 2000000

abbrev pub nb_refill_us_per_ms : ℕ
nb_refill_us_per_ms = 20

abbrev pub nb_max : ℕ
nb_max = 16

-- PKT_FLAG_RELAY
abbrev pub flag_relay : ℕ
flag_relay = 2

-- `rivr_pkt_class_t`
pub data PktClass : Type 0 where
  control chat metrics bulk beacon : PktClass

-- `airtime_nb_bucket_t`
pub record Bucket : Type 0 where
  pub node_id : ℕ
  pub tokens_us : ℕ
  pub last_refill_ms : ℕ

-- `airtime_ctx_t`
pub record Airtime : Type 0 where
  pub tokens_us : ℕ
  pub last_refill_ms : ℕ
  pub nb : List Bucket

abbrev pub zero_bucket : Bucket
zero_bucket = record { node_id = 0; tokens_us = 0; last_refill_ms = 0 }

-- `airtime_sched_init`
unfoldable pub init : Airtime
init = record { tokens_us = capacity_us; last_refill_ms = 0; nb = replicate nb_max zero_bucket }

-- `rivr_pkt_classify`: ROUTE_REQ, ROUTE_RPL, ACK, PROG_PUSH; BEACON; CHAT; DATA, TELEMETRY.
unfoldable pub classify : ℕ → PktClass
classify t =
    if t == 3 || t == 4 || t == 5 || t == 7
    then control
    else if t == 2
    then beacon
    else if t == 1
    then chat
    else if t == 6 || t == 8
    then metrics
    else bulk

-- `global_refill`
unfoldable pub global_refill : Airtime → ℕ → Airtime
global_refill a now_ms =
    let elapsed_ms = sub32 now_ms a.last_refill_ms in
    let add_us = u32 (elapsed_ms * refill_us_per_ms) in
    let tokens = u32 (a.tokens_us + add_us) in
    if now_ms == a.last_refill_ms then a else record a {
      last_refill_ms = now_ms;
      tokens_us = if ltb capacity_us tokens then capacity_us else tokens;
    }

-- `nb_refill`
unfoldable pub nb_refill : Bucket → ℕ → Bucket
nb_refill b now_ms =
    let elapsed_ms = sub32 now_ms b.last_refill_ms in
    let add_us = u32 (elapsed_ms * nb_refill_us_per_ms) in
    let tokens = u32 (b.tokens_us + add_us) in
    if now_ms == b.last_refill_ms then b else record b {
      last_refill_ms = now_ms;
      tokens_us = if ltb nb_capacity_us tokens then nb_capacity_us else tokens;
    }

-- The scan of `nb_get_or_alloc`: the slot of `src_id`, or the first free and the oldest slot.
pub data Scan : Type 0 where
  found : ℕ → Scan
  candidates : ℕ → ℕ → Scan

unfoldable pub scan_buckets : ℕ → List Bucket → ℕ → ℕ → ℕ → ℕ → Scan
scan_buckets src_id [] i free_slot lru_slot lru_ts = candidates free_slot lru_slot
scan_buckets src_id (b ∷ bs) i free_slot lru_slot lru_ts =
    let older = ltb b.last_refill_ms lru_ts in
    let free_slot' = if b.node_id == 0 && free_slot == nb_max then i else free_slot in
    let rest =
      scan_buckets src_id bs (i + 1) free_slot' (if older then i else lru_slot)
        (if older then b.last_refill_ms else lru_ts) in
    if b.node_id == src_id then found i else rest

-- `nb_get_or_alloc`: the slot that the returned pointer names, and the context.
unfoldable pub nb_get_or_alloc : Airtime → ℕ → ℕ → ℕ × Airtime
nb_get_or_alloc a src_id now_ms =
    let scan = scan_buckets src_id a.nb 0 nb_max 0 (get_or a.nb 0 zero_bucket).last_refill_ms in
    let fresh : Bucket = record {
      node_id = src_id;
      tokens_us = nb_capacity_us;
      last_refill_ms = now_ms;
    } in
    elim scan [
      | found i ↦ (i, a)
      | candidates free_slot lru_slot ↦
          let slot = if ltb free_slot nb_max then free_slot else lru_slot in
          (slot, record a { nb = set a.nb slot fresh })
    ]

-- `record_class_drop`
unfoldable pub record_class_drop : PktClass → Metrics → Metrics
record_class_drop control m = record m { class_drops_ctrl = inc32 m.class_drops_ctrl }
record_class_drop beacon m = record m { beacon_class_drop = inc32 m.beacon_class_drop }
record_class_drop chat m = record m { class_drops_chat = inc32 m.class_drops_chat }
record_class_drop metrics m = record m { class_drops_metrics = inc32 m.class_drops_metrics }
record_class_drop bulk m = record m { class_drops_bulk = inc32 m.class_drops_bulk }

-- Step 7 for a relayed frame of the source `src_id`, the global tokens already taken.
unfoldable pub relay_check : Airtime → Metrics → PktClass → ℕ → ℕ → ℕ → Airtime × Metrics × Bool
relay_check a m cls src_id toa_us now_ms =
    let (slot, a') = nb_get_or_alloc a src_id now_ms in
    let b = nb_refill (get_or a'.nb slot zero_bucket) now_ms in
    let restored = u32 (a'.tokens_us + toa_us) in
    if ltb b.tokens_us toa_us
    then (
      record a' {
        nb = set a'.nb slot b;
        tokens_us = if ltb capacity_us restored then capacity_us else restored;
      },
      record_class_drop cls m,
      false,
    )
    else (
      record a' { nb = set a'.nb slot (record b { tokens_us = b.tokens_us - toa_us }) },
      m,
      true,
    )

-- The packet type of a frame; 0 if the frame has none. A null frame is the empty one.
abbrev pub frame_type : List ℕ → ℕ
frame_type frame = if ltb 3 (length frame) then at frame 3 else 0

-- Whether step 7 applies: a relayed frame with a source.
abbrev pub relayed : List ℕ → Bool
relayed frame =
    ltb 12 (length frame) && not (bit_and (at frame 4) flag_relay == 0) && not (read32 frame 9 == 0)

-- Steps 5 to 7, after the global check.
unfoldable pub consume : Airtime → Metrics → List ℕ → ℕ → ℕ → Airtime × Metrics × Bool
consume a m frame toa_us now_ms =
    let a' : Airtime = record a { tokens_us = a.tokens_us - toa_us } in
    let m' : Metrics =
      if ltb a'.tokens_us low_watermark_us
      then record m { airtime_tokens_low = inc32 m.airtime_tokens_low }
      else m in
    if relayed frame
    then relay_check a' m' (classify (frame_type frame)) (read32 frame 9) toa_us now_ms
    else (a', m', true)

-- `airtime_sched_check_consume`
unfoldable pub check_consume : Airtime → Metrics → List ℕ → ℕ → ℕ → Airtime × Metrics × Bool
check_consume a m frame toa_us now_ms =
    let cls = classify (frame_type frame) in
    let a' = global_refill a now_ms in
    let refused : Airtime × Metrics × Bool = (a', record_class_drop cls m, false) in
    let gated = if ltb a'.tokens_us toa_us then refused else consume a' m frame toa_us now_ms in
    elim cls [ control ↦ (a, m, true) | _ ↦ gated ]
