-- ===== src/Rml/Policy.antt =====
-- firmware_core/rml/rml_policy.c: what becomes of a received message. The context is always given.
pub mod Status
pub mod Decide
use rivr.Common.{ℕ, bit_xor, Bool, true, false, not, List, [], pos, negsuc, ltb, leb}
use rivr.Common.{replicate, u8, u16, u32, sub32, ℤ, ◌+◌, ◌-◌, ◌*◌, ◌/◌, ◌%◌, ◌&&◌, ◌||◌}
use rivr.Common.{◌∷◌, ◌==◌, if◌then◌else◌}
use rivr.Rml.{Message, Stats, zero_stats, magic_byte, version_byte, max_payload}
use rivr.Rml.Seen.{Ids, zero_ids, seen, mark_seen}
use rivr.Rml.Thread.{Cache, zero_cache, expire, find_msg, store, apply_delta}
use rivr.Rml.Payload.{
  Repair, type_chat, type_delta, intent_chat, intent_private, intent_system, delta_payload_decode,
}

-- The values of `rml_type_t` and `rml_intent_t` that are used here only, RML_STATUS_CACHE_SIZE,
-- RML_REPAIR_CACHE_SIZE
abbrev pub type_status : ℕ
type_status = 2

abbrev pub type_thread_sync : ℕ
type_thread_sync = 5

abbrev pub intent_group : ℕ
intent_group = 3

abbrev pub intent_emergency : ℕ
intent_emergency = 4

abbrev pub intent_telemetry : ℕ
intent_telemetry = 5

abbrev pub intent_status : ℕ
intent_status = 6

abbrev pub status_size : ℕ
status_size = 16

abbrev pub repair_size : ℕ
repair_size = 8

-- `rml_reason_t`
pub data Reason : Type 0 where
  fine was_seen expired ttl_zero duty_blocked queue_full replaced missing_prev : Reason
  delta_applied delta_failed repair_needed : Reason

-- `rml_context_t`
pub record Context : Type 0 where
  pub local_id : ℕ
  pub now_s : ℕ
  pub now_ms : ℕ
  pub has_time : Bool
  pub hard_radio_ok : Bool
  pub duty_cycle_blocked : Bool
  pub duty_budget_us : ℕ
  pub duty_remaining_us : ℕ
  pub rssi_dbm : ℤ
  pub snr_db : ℤ
  pub local_role : ℕ
  pub queue_depth : ℕ
  pub queue_capacity : ℕ
  pub queue_pressure : ℕ
  pub route_hint_valid : Bool
  pub target_hint_useful : Bool

-- `rml_policy_decision_t`
pub record Decision : Type 0 where
  pub accept : Bool
  pub relay : Bool
  pub delay_ms : ℕ
  pub next_ttl : ℕ
  pub reason : Reason
  pub repair_delay_ms : ℕ
  pub forward_reconstructed : Bool
  pub repair_wanted : Bool
  pub repair : Repair

-- `rml_intent_policy_t`
pub record IntentPolicy : Type 0 where
  pub intent : ℕ
  pub max_relay_ttl : ℕ
  pub min_priority : ℕ
  pub base_delay_ms : ℕ
  pub jitter_ms : ℕ
  pub airtime_floor_pct : ℕ
  pub relay_by_default : Bool
  pub drop_under_pressure : Bool

-- `rml_status_slot_t`
pub record StatusSlot : Type 0 where
  pub used : Bool
  pub sender_id : ℕ
  pub state_type : ℕ
  pub newest_msg_id : ℕ

-- The statics of the layer: `g_rml_stats`, `s_seen`, `s_status`, `s_thread_cache`, `s_repair_cache`
-- and its next slot.
pub record Layer : Type 0 where
  pub stats : Stats
  pub ids : Ids
  pub status : List StatusSlot
  pub threads : Cache
  pub repairs : List Repair
  pub repair_next : ℕ

abbrev pub zero_status : StatusSlot
zero_status = record { used = false; sender_id = 0; state_type = 0; newest_msg_id = 0 }

abbrev pub no_repair : Repair
no_repair = record { missing_msg_id = 0; thread_id = 0; sender_id = 0 }

-- `rml_policy_reset`
unfoldable pub policy_reset : Layer → Layer
policy_reset l = record l {
  status = replicate status_size zero_status;
  threads = zero_cache;
  repairs = replicate repair_size no_repair;
  repair_next = 0;
}

-- `rml_init`
unfoldable pub init : Layer → Layer
init l = policy_reset (record l { stats = zero_stats; ids = zero_ids })

-- A row of `s_intent_policy`.
abbrev row : ℕ → ℕ → ℕ → ℕ → ℕ → ℕ → Bool → Bool → IntentPolicy
row intent ttl priority base jitter floor relay pressure = record {
  intent = intent;
  max_relay_ttl = ttl;
  min_priority = priority;
  base_delay_ms = base;
  jitter_ms = jitter;
  airtime_floor_pct = floor;
  relay_by_default = relay;
  drop_under_pressure = pressure;
}

-- `s_intent_policy` and its first row
abbrev pub chat_policy : IntentPolicy
chat_policy = row intent_chat 8 3 90 330 15 true false

abbrev pub intent_policy : List IntentPolicy
intent_policy =
    chat_policy
    ∷ row intent_private 8 4 60 220 12 false false
    ∷ row intent_group 4 4 120 260 20 true false
    ∷ row intent_emergency 8 9 0 35 1 true false
    ∷ row intent_telemetry 3 1 450 700 35 true true
    ∷ row intent_status 2 2 500 600 30 true true
    ∷ row intent_system 3 5 80 160 10 true false
    ∷ []

-- The loop of `rml_policy_for_intent`.
unfoldable pub policy_from : List IntentPolicy → ℕ → IntentPolicy
policy_from [] intent = chat_policy
policy_from (p ∷ ps) intent =
    let rest = policy_from ps intent in if p.intent == intent then p else rest

-- `rml_policy_for_intent`
unfoldable pub policy_for_intent : ℕ → IntentPolicy
policy_for_intent intent = policy_from intent_policy intent

-- `rml_mix32`
unfoldable pub mix32 : ℕ → ℕ
mix32 v =
    let v1 = u32 (bit_xor v (v / 65536) * 0x7feb352d) in
    let v2 = u32 (bit_xor v1 (v1 / 32768) * 0x846ca68b) in bit_xor v2 (v2 / 65536)

-- `(uint8_t)v` of a signed value.
abbrev pub low_byte : ℤ → ℕ
low_byte (pos n) = u8 n
low_byte (negsuc n) = 255 - u8 n

-- The seed of the jitter.
unfoldable pub seed : Message → Context → ℕ
seed msg ctx =
    let own =
      bit_xor
        (bit_xor (bit_xor msg.msg_id (u32 (msg.thread_id * 2654435761)))
          (u32 (msg.sender_id * 65536)))
        msg.target_id in
    bit_xor (bit_xor (bit_xor own ctx.now_ms) (low_byte ctx.rssi_dbm * 256)) (low_byte ctx.snr_db)

-- `rml_delay_for`
unfoldable pub delay_for : Message → Context → IntentPolicy → ℕ → ℕ
delay_for msg ctx policy priority =
    let jitter =
      if ltb 0 policy.jitter_ms then u16 (mix32 (seed msg ctx) % (policy.jitter_ms + 1)) else 0 in
    let delay = u16 (policy.base_delay_ms + jitter) in
    if leb 8 priority then delay / 4 else if leb 6 priority then delay / 2 else delay

-- `rml_queue_pressure`
unfoldable pub queue_pressure : Context → ℕ
queue_pressure ctx =
    if not (ctx.queue_pressure == 0)
    then (if ltb 100 ctx.queue_pressure then 100 else ctx.queue_pressure)
    else if ctx.queue_capacity == 0
    then 0
    else u8 (ctx.queue_depth * 100 / ctx.queue_capacity)

-- `rml_queue_full`
unfoldable pub is_queue_full : Context → Bool
is_queue_full ctx = not (ctx.queue_capacity == 0) && leb ctx.queue_capacity ctx.queue_depth

-- `rml_effective_priority`
unfoldable pub effective_priority : Message → Context → IntentPolicy → ℕ
effective_priority msg ctx policy =
    let priority =
      if ltb policy.min_priority msg.priority then msg.priority else policy.min_priority in
    let age_min = sub32 ctx.now_ms msg.created_ms / 60000 in
    if msg.intent == intent_emergency
    then 255
    else if not (msg.created_ms == 0) && ltb msg.created_ms ctx.now_ms
    then (if leb priority age_min then 0 else priority - u8 age_min)
    else priority

-- `rml_airtime_allowed`
unfoldable pub airtime_allowed : Context → IntentPolicy → Bool
airtime_allowed ctx policy =
    if ctx.duty_budget_us == 0 || policy.airtime_floor_pct == 0
    then true
    else leb policy.airtime_floor_pct (u32 (ctx.duty_remaining_us * 100) / ctx.duty_budget_us)
