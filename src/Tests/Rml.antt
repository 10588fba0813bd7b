-- ===== src/Tests/Rml.antt =====
-- The mesh logic layer at concrete inputs.
use rivr.Common.{ℕ, refl, true, false, some, List, [], arith, pos, negsuc, take}
use rivr.Common.{replicate, ◌≡◌, ◌≢◌, ◌∷◌, ◌++◌}
use rivr.Ringbuf.{Rb, init}
use rivr.Radio.{TxRequest, RxFrame, zero_data}
unfoldable use rivr.Rml.{header_bytes, encode}
use rivr.Rml.{Message, zero_stats, decode}
use rivr.Rml.Wire.{IsMessage, received, rml_decode-encode}
use rivr.Rml.Payload.{Delta, delta_payload_decode, blank}
unfoldable use rivr.Rml.Payload.{make_delta, delta_payload_encode}
use rivr.Rml.Change.{IsDelta, read_delta, delta-travels}
use rivr.Rml.Seen.{zero_ids}
unfoldable use rivr.Rml.Seen.{seen, seen_scan}
use rivr.Rml.Memory.{IsValid}
use rivr.Rml.Thread.{Entry, zero_cache, empty, text}
unfoldable use rivr.Rml.Thread.{apply_delta, expire, find_msg, find_from, store}
use rivr.Rml.Undo.{inverse, apply_delta-inverse}
use rivr.Rml.Policy.{Layer, Context, zero_status, no_repair, status_size, repair_size}
unfoldable use rivr.Rml.Policy.{
  policy_for_intent, policy_from, effective_priority, queue_pressure, is_queue_full,
  airtime_allowed,
}
unfoldable use rivr.Rml.Policy.Decide.{
  policy_decide, decide_current, decide_accepted, decide_relay, wants_relay, handle_thread_state,
}
unfoldable use rivr.Rml.Policy.Status.{status_is_current, status_scan}
use rivr.Rml.Relay.{Granted}
use rivr.Rml.Grounds.{policy_decide-Granted, source-tx}
use rivr.Rml.Once.{Arrival, policy_decide-once}
unfoldable use rivr.Rml.Once.{run}
use rivr.Rml.Source.{Node, source_handle_rml_frame}

abbrev hello : List ℕ
hello = 104 ∷ 105 ∷ replicate 158 0

abbrev greeting : Message
greeting = record (blank 1 7 21 0) {
  msg_id = 77;
  intent = 1;
  priority = 3;
  ttl = 8;
  payload_len = 2;
  payload = hello;
}

greeting-IsMessage : IsMessage greeting
greeting-IsMessage = record {
  kind_fits = omega arith;
  flags_fits = omega arith;
  msg_id_fits = omega arith;
  thread_id_fits = omega arith;
  prev_id_fits = omega arith;
  sender_id_fits = omega arith;
  target_id_fits = omega arith;
  intent_fits = omega arith;
  priority_fits = omega arith;
  ttl_fits = omega arith;
  reliability_fits = omega arith;
  expires_s_fits = omega arith;
  payload_full = refl;
}

abbrev greeting_frame : List ℕ
greeting_frame =
    0xA7 ∷ 1 ∷ 1 ∷ 0 ∷ 77 ∷ 0 ∷ 0 ∷ 0 ∷ 7 ∷ 0 ∷ 0 ∷ 0 ∷ 0 ∷ 0 ∷ 0 ∷ 0 ∷ 21 ∷ 0 ∷ 0 ∷ 0 ∷ 1 ∷ 3 ∷ 8
    ∷ 0 ∷ 0 ∷ 0 ∷ 2 ∷ 0 ∷ 104 ∷ 105 ∷ []

encode-greeting : encode zero_stats greeting 255 ≡ (zero_stats, some greeting_frame)
unfolding encode header_bytes
encode-greeting = refl

rml_decode-encode_example :
    decode zero_stats (greeting_frame ++ (9 ∷ [])) ≡ (zero_stats, some (received greeting))
rml_decode-encode_example =
    rml_decode-encode zero_stats zero_stats greeting (9 ∷ []) 255 greeting-IsMessage encode-greeting

abbrev correction : Delta
correction = record {
  op = 2;
  offset = 1;
  delete_len = 1;
  data_len = 2;
  bytes = 101 ∷ 121 ∷ replicate 158 0;
}

abbrev correction_message : Message
correction_message = record (blank 3 7 21 0) {
  msg_id = 78;
  prev_id = 77;
  intent = 1;
  priority = 3;
  ttl = 8;
  reliability = 3;
  payload_len = 9;
  payload = 2 ∷ 1 ∷ 0 ∷ 1 ∷ 0 ∷ 2 ∷ 0 ∷ 101 ∷ 121 ∷ replicate 151 0;
}

abbrev correction_frame : List ℕ
correction_frame =
    0xA7 ∷ 1 ∷ 3 ∷ 0 ∷ 78 ∷ 0 ∷ 0 ∷ 0 ∷ 7 ∷ 0 ∷ 0 ∷ 0 ∷ 77 ∷ 0 ∷ 0 ∷ 0 ∷ 21 ∷ 0 ∷ 0 ∷ 0 ∷ 1 ∷ 3 ∷ 8
    ∷ 3 ∷ 0 ∷ 0 ∷ 9 ∷ 0 ∷ 2 ∷ 1 ∷ 0 ∷ 1 ∷ 0 ∷ 2 ∷ 0 ∷ 101 ∷ 121 ∷ []

correction-IsDelta : IsDelta correction
correction-IsDelta = record {
  op_fits = omega arith;
  offset_fits = omega arith;
  delete_len_fits = omega arith;
  full = refl;
}

make_correction : make_delta 21 0 7 78 77 correction ≡ some correction_message
unfolding make_delta delta_payload_encode
make_correction = refl

encode-correction : encode zero_stats correction_message 255 ≡ (zero_stats, some correction_frame)
unfolding encode header_bytes
encode-correction = refl

delta-travels_example :
    (m : Message) × (decode zero_stats correction_frame ≡ (zero_stats, some m))
    × (delta_payload_decode (take m.payload_len m.payload) ≡ some (read_delta correction))
delta-travels_example =
    delta-travels zero_stats zero_stats 21 0 7 78 77 255 correction correction-IsDelta (omega arith)
      (omega arith) (omega arith) (omega arith) (omega arith) make_correction encode-correction

-- "hi" becomes "hey", and "hi" again.
abbrev hi : Entry
hi = record empty { used = true; payload_len = 2; payload = hello }

abbrev hey : Entry
hey = record empty { used = true; payload_len = 3; payload = 104 ∷ 101 ∷ 121 ∷ replicate 157 0 }

correct_hi : apply_delta hi correction ≡ some (104 ∷ 101 ∷ 121 ∷ [])
unfolding apply_delta
correct_hi = refl

apply_delta-inverse_example : apply_delta hey (inverse hi correction) ≡ some (text hi)
apply_delta-inverse_example =
    apply_delta-inverse hi hey correction refl (omega arith) (omega arith) (omega arith) correct_hi
      refl refl

abbrev fresh_layer : Layer
fresh_layer = record {
  stats = zero_stats;
  ids = zero_ids;
  status = replicate status_size zero_status;
  threads = zero_cache;
  repairs = replicate repair_size no_repair;
  repair_next = 0;
}

abbrev quiet : Context
quiet = record {
  local_id = 9;
  now_s = 5;
  now_ms = 5000;
  has_time = true;
  hard_radio_ok = true;
  duty_cycle_blocked = false;
  duty_budget_us = 1000000;
  duty_remaining_us = 900000;
  rssi_dbm = negsuc 79;
  snr_db = pos 7;
  local_role = 2;
  queue_depth = 0;
  queue_capacity = 32;
  queue_pressure = 0;
  route_hint_valid = false;
  target_hint_useful = false;
}

greeting_relayed : (policy_decide fresh_layer greeting quiet).1.relay ≡ true
unfolding policy_decide decide_current decide_accepted decide_relay wants_relay handle_thread_state
    store find_msg find_from expire seen seen_scan policy_for_intent policy_from effective_priority
    queue_pressure is_queue_full airtime_allowed status_is_current status_scan
greeting_relayed = refl

policy_decide-Granted_example :
    (seen zero_ids 77 ≡ false) × Granted greeting quiet (policy_decide fresh_layer greeting quiet).1
policy_decide-Granted_example =
    policy_decide-Granted fresh_layer greeting quiet (omega arith) greeting_relayed

greeting_accepted : (policy_decide fresh_layer greeting quiet).1.accept ≡ true
unfolding policy_decide decide_current decide_accepted decide_relay wants_relay handle_thread_state
    store find_msg find_from expire seen seen_scan policy_for_intent policy_from effective_priority
    queue_pressure is_queue_full airtime_allowed status_is_current status_scan
greeting_accepted = refl

zero_ids-IsValid : IsValid zero_ids
zero_ids-IsValid = record { slots = refl; next_in = omega arith }

abbrev id_77 : ℕ
id_77 = 77

some_id : id_77 ≢ 0
some_id e = absurd (omega arith)

abbrev between : List Arrival
between = record { msg = record greeting { msg_id = 80 }; ctx = quiet } ∷ []

policy_decide-once_example :
    (policy_decide
      (run (policy_decide fresh_layer greeting quiet).0 between)
      greeting
      quiet).1.accept
    ≡ false
policy_decide-once_example =
    policy_decide-once fresh_layer greeting greeting quiet quiet between zero_ids-IsValid some_id
      greeting_accepted (omega arith) refl

abbrev request : TxRequest
request = record { frame = zero_data; len = 0; toa_us = 0; due_ms = 0 }

abbrev ring : Rb TxRequest
ring = init (λ (i : ℕ). request) 4

abbrev repeater : Node
repeater = record { node_id = 0x10009; role = 2; t_sym_us = 4096 }

abbrev heard : RxFrame
heard = record {
  frame = greeting_frame ++ replicate 225 0;
  len = 30;
  rssi_dbm = negsuc 79;
  snr_db = pos 7;
  rx_mono_ms = 5000;
  from_id = 21;
  iface = 0;
}

source-tx_example : (source_handle_rml_frame repeater fresh_layer ring heard 5000).1 ≡ ring
source-tx_example = source-tx repeater fresh_layer ring heard 5000
