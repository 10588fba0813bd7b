-- ===== src/Rml/Once.antt =====
-- firmware_core/rml/rml_policy.c: a message is accepted once.
use rivr.Common.{ℕ, refl, sym, ap, subst, inl, inr, true, false, List, [], arith, ltb}
use rivr.Common.{leb, Bool-cases, Option-cases, length, ◌+◌, ◌<◌, ◌≡◌, ◌∙◌, ◌≢◌, ◌&&◌}
use rivr.Common.{◌||◌, ◌∷◌, ◌==◌, if◌then◌else◌}
use rivr.Common.Ring.{Keeps}
use rivr.Rml.{Message}
use rivr.Rml.Seen.{Ids, seen, mark_seen}
use rivr.Rml.Memory.{IsValid, fresh_id-Keeps, mark_seen-Keeps, Keeps-seen}
use rivr.Rml.Policy.Status.{status_is_current}
use rivr.Rml.Payload.{type_chat, type_delta}
use rivr.Rml.Thread.{expire, find_msg, store}
use rivr.Rml.Policy.{
  Layer, Context, Decision, policy_for_intent, effective_priority, queue_pressure,
}
use rivr.Rml.Policy.{intent_status, type_status, type_thread_sync}
use rivr.Rml.Policy.Decide.{store_text, rebuild}
unfoldable use rivr.Rml.Policy.Decide.{
  repair_decision, handle_delta, handle_thread_state, decide_relay, decide_accepted, decide_current,
  policy_decide,
}
use rivr.Rml.Relay.{decide-current, noted}

store_text-ids :
    (l : Layer) (msg : Message) (bytes : List ℕ) (len now : ℕ) (d : Decision)
    → (store_text l msg bytes len now d).0.ids ≡ l.ids
store_text-ids l msg bytes len now d = elim (Option-cases (store l.threads msg bytes len now)) [
  | inl gone ↦ rw (gone, store_text) refl
  | inr (c, there) ↦ rw (there, store_text) refl
]

handle_delta-ids : (l : Layer) (msg : Message) (now : ℕ) → (handle_delta l msg now).0.ids ≡ l.ids
unfolding handle_delta repair_decision
handle_delta-ids l msg now = elim (Bool-cases (msg.prev_id == 0)) [
  | inl e ↦ rw e refl
  | inr e ↦ elim (Option-cases (find_msg l.threads msg.sender_id msg.thread_id msg.prev_id)) [
    | inl gone ↦ rw (e, gone) refl
    | inr (i, there) ↦ elim (Option-cases (rebuild l.threads i msg)) [
      | inl failed ↦ rw (e, there, failed) refl
      | inr (bytes, made) ↦ rw (e, there, made) (store_text-ids l msg bytes (length bytes) now _)
    ]
  ]
]

handle-ids : (l : Layer) (msg : Message) (now : ℕ) → (handle_thread_state l msg now).0.ids ≡ l.ids
unfolding handle_thread_state
handle-ids l msg now =
    let l1 : Layer = record l { threads = expire l.threads now } in
    elim (Bool-cases
      (msg.kind == type_chat || (msg.kind == type_status || msg.kind == type_thread_sync))) [
        | inl e ↦ rw e (store_text-ids l1 msg msg.payload msg.payload_len now _)
        | inr e ↦ elim (Bool-cases (msg.kind == type_delta)) [
          | inl f ↦ rw (e, f) (handle_delta-ids l1 msg now)
          | inr f ↦ rw (e, f) refl
        ]
      ]

decide_accepted-ids :
    (l : Layer) (msg : Message) (ctx : Context) (priority : ℕ) (state : Decision)
    → ((decide_accepted l msg ctx (policy_for_intent msg.intent) priority state).0.ids
        ≡ mark_seen l.ids msg.msg_id)
      × ((decide_accepted l msg ctx (policy_for_intent msg.intent) priority state).1.accept ≡ true)
unfolding decide_accepted decide_relay
decide_accepted-ids l msg ctx priority state = ground arith

-- An accepted message is marked; any other leaves the ids alone.
current-ids :
    (l : Layer) (msg : Message) (ctx : Context)
    → (decide_current l msg ctx).0.ids
      ≡ (if (decide_current l msg ctx).1.accept then mark_seen l.ids msg.msg_id else l.ids)
unfolding decide_current
current-ids l msg ctx =
    let same = handle-ids l msg ctx.now_ms in
    let (l1, state) = handle_thread_state l msg ctx.now_ms in
    let priority = effective_priority msg ctx (policy_for_intent msg.intent) in
    let (marks, taken) = decide_accepted-ids l1 msg ctx priority state in
    let marks1 = marks ∙ ap (λ c. mark_seen c msg.msg_id) same in
    elim (Bool-cases state.accept) [
      | inl a ↦
          elim (Bool-cases (
            (policy_for_intent msg.intent).drop_under_pressure
            && (leb 85 (queue_pressure ctx) && ltb priority 6))) [
              | inl b ↦ rw b refl
              | inr b ↦ rw (b, a, taken) marks1
            ]
      | inr a ↦
          elim (Bool-cases (
            (policy_for_intent msg.intent).drop_under_pressure
            && (leb 85 (queue_pressure ctx) && ltb priority 6))) [
              | inl b ↦ rw b refl
              | inr b ↦ rw (b, a, a) same
            ]
    ]

current-kept :
    (l : Layer) (msg : Message) (ctx : Context)
    → (decide_current l msg ctx).1.accept ≡ false
    → (decide_current l msg ctx).0.ids ≡ l.ids
current-kept l msg ctx h = current-ids l msg ctx ∙ rw h refl

refused-ids :
    (l : Layer) (msg : Message) (ctx : Context)
    → (policy_decide l msg ctx).1.accept ≡ false
    → (policy_decide l msg ctx).0.ids ≡ l.ids
unfolding policy_decide
refused-ids l msg ctx h =
    let l1 : Layer = record l { status = (status_is_current l.status msg).0 } in
    ground (arith, current-kept l msg ctx, current-kept l1 msg ctx)

noted-ids : (l : Layer) (msg : Message) → (noted l msg).ids ≡ l.ids
noted-ids l msg = elim (Bool-cases (msg.intent == intent_status)) [
  | inl e ↦ rw e refl
  | inr e ↦ rw e refl
]

accepted-ids :
    (l : Layer) (msg : Message) (ctx : Context)
    → (policy_decide l msg ctx).1.accept ≡ true
    → (seen l.ids msg.msg_id ≡ false)
      × ((policy_decide l msg ctx).0.ids ≡ mark_seen l.ids msg.msg_id)
accepted-ids l msg ctx h =
    let (fresh, same) = decide-current l msg ctx (rw h refl) in
    let taken : (decide_current (noted l msg) msg ctx).1.accept ≡ true =
      ap (λ (r : Layer × Decision). r.1.accept) (sym same) ∙ h in
    let marks : (decide_current (noted l msg) msg ctx).0.ids
        ≡ mark_seen (noted l msg).ids msg.msg_id =
      current-ids (noted l msg) msg ctx ∙ rw taken refl in
    (
      fresh,
      ap (λ (r : Layer × Decision). r.0.ids) same
          ∙ marks
          ∙ ap (λ c. mark_seen c msg.msg_id) (noted-ids l msg),
    )

-- A message that was received, and its context.
pub record Arrival : Type 0 where
  pub msg : Message
  pub ctx : Context

-- The decisions about messages one after the other.
unfoldable pub run : Layer → List Arrival → Layer
run l [] = l
run l (x ∷ xs) = run (policy_decide l x.msg x.ctx).0 xs

run-Keeps :
    (i k id : ℕ) (xs : List Arrival) (l : Layer)
    → Keeps 0 64 i k id l.ids.slots l.ids.next_slot
    → k + length xs < 64
    → (j : ℕ) × Keeps 0 64 i j id (run l xs).ids.slots (run l xs).ids.next_slot
unfolding run
run-Keeps i k id [] l h lt = (k, h)
run-Keeps i k id (x ∷ xs) l h lt =
    let l1 = (policy_decide l x.msg x.ctx).0 in
    elim (Bool-cases (policy_decide l x.msg x.ctx).1.accept) [
      | inl a ↦
          let (fresh, same) = accepted-ids l x.msg x.ctx a in
          let (j, le, held) = mark_seen-Keeps i k id x.msg.msg_id l.ids h (omega arith) in
          run-Keeps i j id xs l1
            (subst (λ (c : Ids). Keeps 0 64 i j id c.slots c.next_slot) (sym same) held)
            (omega arith)
      | inr a ↦
          let same = refused-ids l x.msg x.ctx a in
          run-Keeps i k id xs l1
            (subst (λ (c : Ids). Keeps 0 64 i k id c.slots c.next_slot) (sym same) h) (omega arith)
    ]

seen-refused :
    (l : Layer) (msg : Message) (ctx : Context)
    → seen l.ids msg.msg_id ≡ true
    → (policy_decide l msg ctx).1.accept ≡ false
unfolding policy_decide
seen-refused l msg ctx h = ground (arith, h)

-- For a well-formed memory of ids: once rml_policy_decide accepted a message with an id other than
-- 0, and decided about at most 63 others, it refuses every message with that id, in any context.
pub policy_decide-once :
    (l : Layer) (msg again : Message) (ctx later : Context) (others : List Arrival)
    → IsValid l.ids
    → msg.msg_id ≢ 0
    → (policy_decide l msg ctx).1.accept ≡ true
    → length others < 64
    → again.msg_id ≡ msg.msg_id
    → (policy_decide (run (policy_decide l msg ctx).0 others) again later).1.accept ≡ false
policy_decide-once l msg again ctx later others v ne h few same_id =
    let (fresh, same) = accepted-ids l msg ctx h in
    let l1 = (policy_decide l msg ctx).0 in
    let start = fresh_id-Keeps l.ids msg.msg_id v ne fresh in
    let start1 =
      subst (λ (c : Ids). Keeps 0 64 l.ids.next_slot 0 msg.msg_id c.slots c.next_slot) (sym same)
        start in
    let (j, held) = run-Keeps l.ids.next_slot 0 msg.msg_id others l1 start1 (omega arith) in
    seen-refused (run l1 others) again later (
      ap (λ n. seen (run l1 others).ids n) same_id
      ∙ Keeps-seen l.ids.next_slot j msg.msg_id (run l1 others).ids held ne)
