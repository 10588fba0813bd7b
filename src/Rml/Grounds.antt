-- ===== src/Rml/Grounds.antt =====
-- firmware_core/rml/rml_policy.c and rivr_layer/rivr_sources.c: what a relay rests on, and what that
-- means for the frames of the radio.
use rivr.Common.{ℕ, refl, sym, ap, subst, inl, inr, true, false, not, arith, Bool-cases}
use rivr.Common.{Option-cases, take, IsU8, ◌≡◌, ◌∙◌, ◌||◌, ◌==◌}
use rivr.Ringbuf.{Rb}
use rivr.Radio.{TxRequest, RxFrame}
use rivr.Protocol.{at}
use rivr.Rml.{Message, magic_byte, decode}
use rivr.Rml.Seen.{seen}
use rivr.Rml.Policy.{Layer, Context, Decision, policy_for_intent}
unfoldable use rivr.Rml.Policy.{airtime_allowed}
use rivr.Rml.Policy.Decide.{policy_decide, decide_current}
use rivr.Rml.Relay.{Granted, current-Granted, current-airtime, decide-current, noted, policy-bounds}
use rivr.Rml.Source.{Node}
unfoldable use rivr.Rml.Source.{context_of, obey, handle_message, source_handle_rml_frame}

current_of :
    (l : Layer) (msg : Message) (ctx : Context)
    → (policy_decide l msg ctx).1.relay ≡ true
    → (seen l.ids msg.msg_id ≡ false)
      × (policy_decide l msg ctx ≡ decide_current (noted l msg) msg ctx)
      × ((decide_current (noted l msg) msg ctx).1.relay ≡ true)
current_of l msg ctx h =
    let either : ((policy_decide l msg ctx).1.accept || (policy_decide l msg ctx).1.relay) ≡ true =
      elim (Bool-cases (policy_decide l msg ctx).1.accept) [
        | inl e ↦ rw e refl
        | inr e ↦ rw (e, h) refl
      ] in
    let (fresh, same) = decide-current l msg ctx either in
    (fresh, same, ap (λ (r : Layer × Decision). r.1.relay) (sym same) ∙ h)

-- If rml_policy_decide relays a message whose ttl fits a byte, then the message was not seen before
-- and is accepted, the radio is usable and not blocked by the duty cycle, the airtime left reaches
-- the floor of the message's intent, and the queue has room. The relayed copy has a ttl above 0,
-- below the one received and at most 8, and is delayed by at most 1150 ms.
pub policy_decide-Granted :
    (l : Layer) (msg : Message) (ctx : Context)
    → IsU8 msg.ttl
    → (policy_decide l msg ctx).1.relay ≡ true
    → (seen l.ids msg.msg_id ≡ false) × Granted msg ctx (policy_decide l msg ctx).1
policy_decide-Granted l msg ctx wide h =
    let (fresh, same, on) = current_of l msg ctx h in
    (
      fresh,
      subst (λ (r : Layer × Decision). Granted msg ctx r.1) (sym same)
          (current-Granted (noted l msg) msg ctx wide on),
    )

-- 100 times the largest uint32_t wraps to less than that number.
full_budget-refused :
    (ctx : Context) (intent : ℕ)
    → ctx.duty_budget_us ≡ 4294967295
    → ctx.duty_remaining_us ≡ 4294967295
    → airtime_allowed ctx (policy_for_intent intent) ≡ false
unfolding airtime_allowed
full_budget-refused ctx intent hb hr = ground (arith, policy-bounds intent)

-- No message is relayed in the context that `source_handle_rml_frame` makes.
context-relay :
    (node : Node) (l : Layer) (tx : Rb TxRequest) (frame : RxFrame) (msg : Message) (now : ℕ)
    → (policy_decide l msg (context_of node tx frame msg now)).1.relay ≡ false
unfolding context_of
context-relay node l tx frame msg now =
    let ctx = context_of node tx frame msg now in
    elim (Bool-cases (policy_decide l msg ctx).1.relay) [
      | inr e ↦ e
      | inl e ↦
          let air = current-airtime (noted l msg) msg ctx (current_of l msg ctx e).2 in
          absurd (ground (arith, air, full_budget-refused ctx msg.intent refl refl))
    ]

message-tx :
    (node : Node) (l : Layer) (tx : Rb TxRequest) (frame : RxFrame) (msg : Message) (now : ℕ)
    → (handle_message node l tx frame msg now).1 ≡ tx
unfolding handle_message obey
message-tx node l tx frame msg now = ground (arith, context-relay node l tx frame msg now)

-- source_handle_rml_frame never pushes to the transmit ring, whatever the frame, the node and the
-- state of the layer are.
pub source-tx :
    (node : Node) (l : Layer) (tx : Rb TxRequest) (frame : RxFrame) (now : ℕ)
    → (source_handle_rml_frame node l tx frame now).1 ≡ tx
unfolding source_handle_rml_frame
source-tx node l tx frame now =
    elim (Bool-cases (frame.len == 0 || not (at frame.frame 0 == magic_byte))) [
      | inl e ↦ rw e refl
      | inr e ↦ elim (Option-cases (decode l.stats (take frame.len frame.frame)).1) [
        | inl bad ↦ rw (e, bad) refl
        | inr (msg, good) ↦ rw (e, good) (handled msg)
      ]
    ]
  where
    handled :
        (msg : Message)
        → (handle_message node
            (record l { stats = (decode l.stats (take frame.len frame.frame)).0 })
            tx
            frame
            msg
            now).1
          ≡ tx
    handled msg =
        message-tx node (record l { stats = (decode l.stats (take frame.len frame.frame)).0 }) tx
          frame msg now
