-- ===== src/Rml/Policy/Decide.antt =====
-- firmware_core/rml/rml_policy.c: the decision about a received message, and what it leaves in the
-- caches.
use rivr.Common.{ℕ, Bool, true, false, not, Option, none, some, List, ltb, leb, length}
use rivr.Common.{get_or, set, take, u8, u16, inc32, ◌+◌, ◌%◌, ◌&&◌, ◌||◌, ◌==◌}
use rivr.Common.{if◌then◌else◌}
use rivr.Rml.{Message, Stats, magic_byte, version_byte, max_payload}
use rivr.Rml.Seen.{seen, mark_seen}
use rivr.Rml.Thread.{Cache, empty, expire, find_msg, store, apply_delta}
use rivr.Rml.Payload.{Repair, type_chat, type_delta, intent_private, delta_payload_decode}
use rivr.Rml.Policy.{
  Layer, Context, Decision, Reason, IntentPolicy, fine, was_seen, expired, ttl_zero, duty_blocked,
  queue_full, replaced, missing_prev, delta_applied, delta_failed, repair_needed, no_repair,
  repair_size, type_status, type_thread_sync, intent_status, intent_emergency, policy_for_intent,
  effective_priority, queue_pressure, is_queue_full, airtime_allowed, delay_for,
}
use rivr.Rml.Policy.Status.{status_is_current}

-- `rml_decision`
abbrev pub decision : Bool → Bool → ℕ → ℕ → Reason → Decision
decision accept relay delay_ms next_ttl reason = record {
  accept = accept;
  relay = relay;
  delay_ms = delay_ms;
  next_ttl = next_ttl;
  reason = reason;
  repair_delay_ms = 0;
  forward_reconstructed = false;
  repair_wanted = false;
  repair = no_repair;
}

abbrev pub refuse : Reason → Decision
refuse reason = decision false false 0 0 reason

-- `rml_repair_decision`
unfoldable pub repair_decision : Layer → ℕ → ℕ → ℕ → Reason → Layer × Decision
repair_decision l missing_msg_id thread_id sender_id reason =
    let r : Repair = record {
      missing_msg_id = missing_msg_id;
      thread_id = thread_id;
      sender_id = sender_id;
    } in
    (
      record l {
        repairs = set l.repairs l.repair_next r;
        repair_next = u16 ((l.repair_next + 1) % repair_size);
      },
      record (refuse reason) { repair_wanted = true; repair_delay_ms = 750; repair = r },
    )

-- The payload bytes of a message.
abbrev pub payload_of : Message → List ℕ
payload_of msg = take msg.payload_len msg.payload

-- The text that a change makes of the entry at index `i`.
unfoldable pub rebuild : Cache → ℕ → Message → Option (List ℕ)
rebuild c i msg = elim (delta_payload_decode (payload_of msg)) [
  | none ↦ none
  | some delta ↦ apply_delta (get_or c.entries i empty) delta
]

-- `rml_thread_store` on the texts of the layer.
abbrev pub store_text : Layer → Message → List ℕ → ℕ → ℕ → Decision → Layer × Decision
store_text l msg bytes len now_ms done = elim (store l.threads msg bytes len now_ms) [
  | none ↦ (l, refuse delta_failed)
  | some c ↦ (record l { threads = c }, done)
]

-- The part of `rml_handle_thread_state` for a change to a text.
unfoldable pub handle_delta : Layer → Message → ℕ → Layer × Decision
handle_delta l msg now_ms =
    let found : Layer × Decision =
      elim (find_msg l.threads msg.sender_id msg.thread_id msg.prev_id) [
        | none ↦ repair_decision l msg.prev_id msg.thread_id msg.sender_id repair_needed
        | some i ↦ elim (rebuild l.threads i msg) [
          | none ↦ (l, refuse delta_failed)
          | some bytes ↦
              store_text l msg bytes (length bytes) now_ms
                (record (decision true false 0 0 delta_applied) { forward_reconstructed = true })
        ]
      ] in
    if msg.prev_id == 0 then repair_decision l 0 msg.thread_id msg.sender_id missing_prev else found

-- `rml_handle_thread_state`
unfoldable pub handle_thread_state : Layer → Message → ℕ → Layer × Decision
handle_thread_state l msg now_ms =
    let l1 = record l { threads = expire l.threads now_ms } in
    if msg.kind == type_chat || (msg.kind == type_status || msg.kind == type_thread_sync)
    then store_text l1 msg msg.payload msg.payload_len now_ms (decision true false 0 0 fine)
    else if msg.kind == type_delta
    then handle_delta l1 msg now_ms
    else (l1, decision true false 0 0 fine)

-- Whether an accepted message is relayed, up to its time to live.
unfoldable pub wants_relay : Message → Context → IntentPolicy → ℕ → Bool → Bool
wants_relay msg ctx policy priority rebuilt =
    let mine = not (ctx.local_id == 0) && (msg.target_id == ctx.local_id) in
    let first = if mine then false else policy.relay_by_default in
    let second =
      if msg.intent == intent_private
      then ctx.route_hint_valid && ctx.target_hint_useful
      else first in
    let third = if msg.intent == intent_emergency then true else second in
    let fourth = if rebuilt then true else third in if priority == 0 then false else fourth

-- The counters that `rml_policy_decide` moves.
abbrev pub count_relay : Layer → Bool → Layer
count_relay l relay =
    if relay
    then record l { stats = record l.stats { relay_total = inc32 l.stats.relay_total } }
    else l

-- The end of `rml_policy_decide`: a message that may be relayed.
unfoldable pub decide_relay :
    Layer → Message → Context → IntentPolicy → ℕ → Decision → Layer × Decision
decide_relay l msg ctx policy priority state =
    let success : Reason = elim state.reason [ delta_applied ↦ delta_applied | _ ↦ fine ] in
    let less = u8 (msg.ttl + 255) in
    let next_ttl = if ltb policy.max_relay_ttl less then policy.max_relay_ttl else less in
    let wanted = wants_relay msg ctx policy priority state.forward_reconstructed in
    let relay = if next_ttl == 0 then false else wanted in
    let delay = if relay then delay_for msg ctx policy priority else 0 in
    (
      count_relay l relay,
      record (decision true relay delay next_ttl success) {
        forward_reconstructed = relay && state.forward_reconstructed;
      },
    )

-- `rml_policy_decide`, from an accepted message on: it is marked and counted.
unfoldable pub decide_accepted :
    Layer → Message → Context → IntentPolicy → ℕ → Decision → Layer × Decision
decide_accepted l msg ctx policy priority state =
    let st = l.stats in
    let l1 : Layer = record l {
      ids = mark_seen l.ids msg.msg_id;
      stats = record st { rx_total = inc32 st.rx_total };
    } in
    let dropped : Layer = record l1 {
      stats = record l1.stats { relay_ttl_drop = inc32 st.relay_ttl_drop };
    } in
    if msg.ttl == 0
    then (dropped, decision true false 0 0 ttl_zero)
    else if not ctx.hard_radio_ok || (ctx.duty_cycle_blocked || not (airtime_allowed ctx policy))
    then (l1, decision true false 0 0 duty_blocked)
    else if is_queue_full ctx
    then (l1, decision true false 0 0 queue_full)
    else decide_relay l1 msg ctx policy priority state

-- `rml_policy_decide`, from the table of intents on.
unfoldable pub decide_current : Layer → Message → Context → Layer × Decision
decide_current l msg ctx =
    let policy = policy_for_intent msg.intent in
    let priority = effective_priority msg ctx policy in
    let (l1, state) = handle_thread_state l msg ctx.now_ms in
    let accepted = decide_accepted l1 msg ctx policy priority state in
    if policy.drop_under_pressure && (leb 85 (queue_pressure ctx) && ltb priority 6)
    then (l, refuse queue_full)
    else if not state.accept
    then (l1, state)
    else accepted

-- `rml_policy_decide`
unfoldable pub policy_decide : Layer → Message → Context → Layer × Decision
policy_decide l msg ctx =
    let st = l.stats in
    let counted : Stats → Layer = λ s. record l { stats = s } in
    let (status, current) = status_is_current l.status msg in
    let l1 : Layer = record l { status = status } in
    let rest = decide_current l msg ctx in
    let rest1 = decide_current l1 msg ctx in
    if not (msg.magic == magic_byte)
    then (counted (record st { rx_bad_magic = inc32 st.rx_bad_magic }), refuse expired)
    else if not (msg.version == version_byte)
    then (counted (record st { rx_bad_version = inc32 st.rx_bad_version }), refuse expired)
    else if ltb max_payload msg.payload_len
    then (counted (record st { rx_too_large = inc32 st.rx_too_large }), refuse expired)
    else if seen l.ids msg.msg_id
    then (counted (record st { rx_seen_drop = inc32 st.rx_seen_drop }), refuse was_seen)
    else if ctx.has_time && (not (msg.expires_s == 0) && ltb msg.expires_s ctx.now_s)
    then (counted (record st { rx_expired_drop = inc32 st.rx_expired_drop }), refuse expired)
    else if not (msg.intent == intent_status)
    then rest
    else if not current
    then (l1, refuse replaced)
    else rest1
