-- ===== src/Rml/Policy/Status.antt =====
-- firmware_core/rml/rml_policy.c: the newest status of each sender.
use rivr.Common.{ℕ, Bool, true, false, Option, none, some, List, [], leb, get_or, set}
use rivr.Common.{◌+◌, ◌%◌, ◌&&◌, ◌∷◌, ◌==◌, if◌then◌else◌}
use rivr.Rml.{Message}
use rivr.Rml.Policy.{StatusSlot, zero_status, status_size}

abbrev pub is_status_of : StatusSlot → Message → Bool
is_status_of s msg = s.used && (s.sender_id == msg.sender_id && s.state_type == msg.state_type)

-- The loop of `rml_status_is_current_or_newer`: the slot of the state if it is known, and the first
-- unused slot met so far.
unfoldable pub status_scan : List StatusSlot → Message → ℕ → Option ℕ → Option ℕ × Option ℕ
status_scan [] msg i unused = (none, unused)
status_scan (s ∷ ss) msg i unused =
    let met : Option ℕ = elim unused [ none ↦ if s.used then none else some i | some k ↦ some k ] in
    let rest = status_scan ss msg (i + 1) met in
    if is_status_of s msg then (some i, unused) else rest

-- `rml_status_is_current_or_newer`
unfoldable pub status_is_current : List StatusSlot → Message → List StatusSlot × Bool
status_is_current ss msg =
    let (known, unused) = status_scan ss msg 0 none in
    let fresh : StatusSlot = record {
      used = true;
      sender_id = msg.sender_id;
      state_type = msg.state_type;
      newest_msg_id = msg.msg_id;
    } in
    elim known [
      | some i ↦
          let s = get_or ss i zero_status in
          if leb msg.msg_id s.newest_msg_id
          then (ss, false)
          else (set ss i (record s { newest_msg_id = msg.msg_id }), true)
      | none ↦
          let slot : ℕ = elim unused [ none ↦ msg.sender_id % status_size | some k ↦ k ] in
          (set ss slot fresh, true)
    ]
