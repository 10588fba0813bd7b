-- ===== src/Rml/Relay.antt =====
-- firmware_core/rml/rml_policy.c: which messages are relayed.
use native.Mathlib.Nat.{mod-lt}
use rivr.Common.{ℕ, refl, sym, ap, subst, inl, inr, true, false, not, List, arith}
use rivr.Common.{Bool-cases, Option-cases, length, IsU8, inc32, ◌+◌, ◌%◌, ◌≤◌, ◌<◌, ◌≡◌}
use rivr.Common.{◌∙◌, ◌||◌, ◌==◌, if◌then◌else◌}
use rivr.Rml.{Message}
use rivr.Rml.Policy.Status.{status_is_current}
use rivr.Rml.Seen.{seen, mark_seen}
use rivr.Rml.Policy.{Layer, Context, Decision, IntentPolicy, is_queue_full, airtime_allowed}
unfoldable use rivr.Rml.Policy.{
  policy_for_intent, policy_from, delay_for, mix32, seed, effective_priority,
}
use rivr.Rml.Policy.{intent_status, type_status, type_thread_sync}
use rivr.Rml.Payload.{type_chat, type_delta}
use rivr.Rml.Policy.Decide.{store_text}
use rivr.Rml.Thread.{expire, find_msg}
unfoldable use rivr.Rml.Policy.Decide.{
  repair_decision, handle_delta, handle_thread_state, decide_relay, decide_accepted, decide_current,
  policy_decide, rebuild,
}
unfoldable use rivr.Rml.Thread.{store}

-- The bounds of the table of intents.
pub policy-bounds :
    (intent : ℕ)
    → (0 < (policy_for_intent intent).airtime_floor_pct)
      × ((policy_for_intent intent).max_relay_ttl ≤ 8)
      × ((policy_for_intent intent).base_delay_ms + (policy_for_intent intent).jitter_ms ≤ 1150)
unfolding policy_for_intent policy_from
policy-bounds intent = ground arith

-- What a decision to relay rests on.
pub record Granted (msg : Message) (ctx : Context) (d : Decision) : Type 0 where
  pub accepted : d.accept ≡ true
  pub radio : ctx.hard_radio_ok ≡ true
  pub duty : ctx.duty_cycle_blocked ≡ false
  pub airtime : airtime_allowed ctx (policy_for_intent msg.intent) ≡ true
  pub room : is_queue_full ctx ≡ false
  pub alive : 0 < d.next_ttl
  pub falls : d.next_ttl < msg.ttl
  pub short : d.next_ttl ≤ 8
  pub soon : d.delay_ms ≤ 1150

delay-le :
    (msg : Message) (ctx : Context) (policy : IntentPolicy) (priority : ℕ)
    → policy.base_delay_ms + policy.jitter_ms ≤ 1150
    → delay_for msg ctx policy priority ≤ 1150
unfolding delay_for
delay-le msg ctx policy priority h =
    let jitter : mix32 (seed msg ctx) % (policy.jitter_ms + 1) < policy.jitter_ms + 1 =
      mod-lt (mix32 (seed msg ctx)) (omega arith) in
    ground arith

store_text-relay :
    (l : Layer) (msg : Message) (bytes : List ℕ) (len now : ℕ) (d : Decision)
    → d.relay ≡ false
    → (store_text l msg bytes len now d).1.relay ≡ false
store_text-relay l msg bytes len now d h = elim (Option-cases (store l.threads msg bytes len now)) [
  | inl gone ↦ rw (gone, store_text) refl
  | inr (c, there) ↦ rw (there, store_text) h
]

handle_delta-relay :
    (l : Layer) (msg : Message) (now : ℕ) → (handle_delta l msg now).1.relay ≡ false
unfolding handle_delta repair_decision
handle_delta-relay l msg now = elim (Bool-cases (msg.prev_id == 0)) [
  | inl e ↦ rw e refl
  | inr e ↦ elim (Option-cases (find_msg l.threads msg.sender_id msg.thread_id msg.prev_id)) [
    | inl gone ↦ rw (e, gone) refl
    | inr (i, there) ↦ elim (Option-cases (rebuild l.threads i msg)) [
      | inl failed ↦ rw (e, there, failed) refl
      | inr (bytes, made) ↦
          rw (e, there, made) (store_text-relay l msg bytes (length bytes) now _ refl)
    ]
  ]
]

handle-relay :
    (l : Layer) (msg : Message) (now : ℕ) → (handle_thread_state l msg now).1.relay ≡ false
unfolding handle_thread_state
handle-relay l msg now =
    let l1 : Layer = record l { threads = expire l.threads now } in
    elim (Bool-cases
      (msg.kind == type_chat || (msg.kind == type_status || msg.kind == type_thread_sync))) [
        | inl e ↦ rw e (store_text-relay l1 msg msg.payload msg.payload_len now _ refl)
        | inr e ↦ elim (Bool-cases (msg.kind == type_delta)) [
          | inl f ↦ rw (e, f) (handle_delta-relay l1 msg now)
          | inr f ↦ rw (e, f) refl
        ]
      ]

-- The layer once a message is marked and counted.
abbrev marked : Layer → Message → Layer
marked l msg = record l {
  ids = mark_seen l.ids msg.msg_id;
  stats = record l.stats { rx_total = inc32 l.stats.rx_total };
}

-- The guards between acceptance and relay.
accepted-guards :
    (l : Layer) (msg : Message) (ctx : Context) (policy : IntentPolicy) (priority : ℕ)
    (state : Decision)
    → (decide_accepted l msg ctx policy priority state).1.relay ≡ true
    → ((msg.ttl == 0) ≡ false)
      × (ctx.hard_radio_ok ≡ true)
      × (ctx.duty_cycle_blocked ≡ false)
      × (airtime_allowed ctx policy ≡ true)
      × (is_queue_full ctx ≡ false)
      × (decide_accepted l msg ctx policy priority state
          ≡ decide_relay (marked l msg) msg ctx policy priority state)
unfolding decide_accepted
accepted-guards l msg ctx policy priority state h = ground arith

relay-Granted :
    (l : Layer) (msg : Message) (ctx : Context) (priority : ℕ) (state : Decision)
    → IsU8 msg.ttl
    → (msg.ttl == 0) ≡ false
    → ctx.hard_radio_ok ≡ true
    → ctx.duty_cycle_blocked ≡ false
    → airtime_allowed ctx (policy_for_intent msg.intent) ≡ true
    → is_queue_full ctx ≡ false
    → (decide_relay l msg ctx (policy_for_intent msg.intent) priority state).1.relay ≡ true
    → Granted msg ctx (decide_relay l msg ctx (policy_for_intent msg.intent) priority state).1
unfolding decide_relay
relay-Granted l msg ctx priority state wide live radio duty airtime room h =
    let b = policy-bounds msg.intent in
    record {
      accepted = refl;
      radio = radio;
      duty = duty;
      airtime = airtime;
      room = room;
      alive = ground (arith, b);
      falls = ground (arith, b);
      short = ground (arith, b);
      soon = ground (arith, delay-le msg ctx (policy_for_intent msg.intent) priority b.2);
    }

accepted-Granted :
    (l : Layer) (msg : Message) (ctx : Context) (priority : ℕ) (state : Decision)
    → IsU8 msg.ttl
    → (decide_accepted l msg ctx (policy_for_intent msg.intent) priority state).1.relay ≡ true
    → Granted msg ctx (decide_accepted l msg ctx (policy_for_intent msg.intent) priority state).1
accepted-Granted l msg ctx priority state wide h =
    let policy = policy_for_intent msg.intent in
    let (live, radio, duty, airtime, room, same) =
      accepted-guards l msg ctx policy priority state h in
    subst (λ (r : Layer × Decision). Granted msg ctx r.1) (sym same)
      (relay-Granted (marked l msg) msg ctx priority state wide live radio duty airtime room
        (ap (λ (r : Layer × Decision). r.1.relay) (sym same) ∙ h))

-- Only an accepted message is relayed.
current-accepted :
    (l : Layer) (msg : Message) (ctx : Context)
    → (decide_current l msg ctx).1.relay ≡ true
    → decide_current l msg ctx
      ≡ decide_accepted
          (handle_thread_state l msg ctx.now_ms).0
          msg
          ctx
          (policy_for_intent msg.intent)
          (effective_priority msg ctx (policy_for_intent msg.intent))
          (handle_thread_state l msg ctx.now_ms).1
unfolding decide_current
current-accepted l msg ctx h = ground (arith, handle-relay l msg ctx.now_ms)

pub current-airtime :
    (l : Layer) (msg : Message) (ctx : Context)
    → (decide_current l msg ctx).1.relay ≡ true
    → airtime_allowed ctx (policy_for_intent msg.intent) ≡ true
current-airtime l msg ctx h =
    let same = current-accepted l msg ctx h in
    let (l1, state) = handle_thread_state l msg ctx.now_ms in
    (accepted-guards l1 msg ctx (policy_for_intent msg.intent)
      (effective_priority msg ctx (policy_for_intent msg.intent)) state
      (ap (λ (r : Layer × Decision). r.1.relay) (sym same) ∙ h)).3

pub current-Granted :
    (l : Layer) (msg : Message) (ctx : Context)
    → IsU8 msg.ttl
    → (decide_current l msg ctx).1.relay ≡ true
    → Granted msg ctx (decide_current l msg ctx).1
current-Granted l msg ctx wide h =
    let same = current-accepted l msg ctx h in
    let (l1, state) = handle_thread_state l msg ctx.now_ms in
    subst (λ (r : Layer × Decision). Granted msg ctx r.1) (sym same)
      (accepted-Granted l1 msg ctx (effective_priority msg ctx (policy_for_intent msg.intent)) state
        wide (ap (λ (r : Layer × Decision). r.1.relay) (sym same) ∙ h))

-- The layer behind the test for the newest status.
abbrev pub noted : Layer → Message → Layer
noted l msg =
    if not (msg.intent == intent_status)
    then l
    else record l { status = (status_is_current l.status msg).0 }

pub decide-current :
    (l : Layer) (msg : Message) (ctx : Context)
    → ((policy_decide l msg ctx).1.accept || (policy_decide l msg ctx).1.relay) ≡ true
    → (seen l.ids msg.msg_id ≡ false)
      × (policy_decide l msg ctx ≡ decide_current (noted l msg) msg ctx)
unfolding policy_decide
decide-current l msg ctx h = ground arith
