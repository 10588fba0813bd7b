-- ===== src/Rml/Source.antt =====
-- rivr_layer/rivr_sources.c: `source_handle_rml_frame`, which hands received frames to the mesh logic
-- layer and relays what it decides to. The layer is built with RIVR_ENABLE_RML.
use rivr.Common.{ℕ, Bool, true, false, not, Option, none, some, List, leb, length, take}
use rivr.Common.{u8, u16, u32, ◌+◌, ◌-◌, ◌/◌, ◌^◌, ◌&&◌, ◌||◌, ◌==◌, if◌then◌else◌}
use rivr.Protocol.{at}
use rivr.Ringbuf.{Rb, available, try_push}
use rivr.Radio.{TxRequest, RxFrame, frame_cap, zero_data, copy, toa_approx_us}
use rivr.Rml.{Message, magic_byte, max_payload, encode, decode}
use rivr.Rml.Thread.{get}
use rivr.Rml.Policy.{Layer, Context, Decision, type_thread_sync}
use rivr.Rml.Policy.Decide.{policy_decide}

-- The node and its build: node id, RML role, symbol period.
pub record Node : Type 0 where
  pub node_id : ℕ
  pub role : ℕ
  pub t_sym_us : ℕ

-- The context of a frame.
unfoldable pub context_of : Node → Rb TxRequest → RxFrame → Message → ℕ → Context
context_of node tx frame msg now_ms = record {
  local_id = u16 node.node_id;
  now_s = now_ms / 1000;
  now_ms = now_ms;
  has_time = true;
  hard_radio_ok = true;
  duty_cycle_blocked = false;
  duty_budget_us = 2 ^ 32 - 1;
  duty_remaining_us = 2 ^ 32 - 1;
  rssi_dbm = frame.rssi_dbm;
  snr_db = frame.snr_db;
  local_role = node.role;
  queue_depth = u8 (available tx);
  queue_capacity = u8 tx.cap;
  queue_pressure = 0;
  route_hint_valid = not (msg.target_id == 0);
  target_hint_useful = not (msg.target_id == 0) && not (msg.target_id == u16 node.node_id);
}

-- The message with the text of its thread in place of a change; none if the text is not there.
unfoldable pub compressed : Layer → Message → Option Message
compressed l msg = elim (get l.threads msg.sender_id msg.thread_id) [
  | none ↦ none
  | some entry ↦
      if leb entry.payload_len max_payload
      then some (record msg {
        kind = type_thread_sync;
        prev_id = entry.prev_id;
        payload_len = entry.payload_len;
        payload = copy msg.payload entry.payload entry.payload_len;
        supersedes = true;
      })
      else none
]

-- The request for an encoded message.
abbrev pub request_of : Node → List ℕ → ℕ → ℕ → TxRequest
request_of node bytes delay_ms now_ms = record {
  frame = copy zero_data bytes (length bytes);
  len = u8 (length bytes);
  toa_us = toa_approx_us node.t_sym_us (u8 (length bytes));
  due_ms = if delay_ms == 0 then 0 else u32 (now_ms + delay_ms);
}

-- The relay of a message: it is encoded and pushed.
unfoldable pub relay_out :
    Node → Layer → Rb TxRequest → Message → Decision → ℕ → Layer × Rb TxRequest
relay_out node l tx msg d now_ms =
    let (st, out) = encode l.stats (record msg { ttl = d.next_ttl }) frame_cap in
    let l1 : Layer = record l { stats = st } in
    elim out [
      | none ↦ (l1, tx)
      | some bytes ↦
          if leb (length bytes) 255
          then (l1, (try_push tx (request_of node bytes d.delay_ms now_ms)).1)
          else (l1, tx)
    ]

-- What follows the decision.
unfoldable pub obey : Node → Layer → Rb TxRequest → Message → Decision → ℕ → Layer × Rb TxRequest
obey node l tx msg d now_ms =
    let whole : Layer × Rb TxRequest = elim (compressed l msg) [
      | none ↦ (l, tx)
      | some relay ↦ relay_out node l tx relay d now_ms
    ] in
    let plain = relay_out node l tx msg d now_ms in
    if not d.accept
    then (l, tx)
    else if not d.relay
    then (l, tx)
    else if d.forward_reconstructed
    then whole
    else plain

-- `source_handle_rml_frame` for a decoded message.
unfoldable pub handle_message :
    Node → Layer → Rb TxRequest → RxFrame → Message → ℕ → Layer × Rb TxRequest
handle_message node l tx frame msg now_ms =
    let (l1, d) = policy_decide l msg (context_of node tx frame msg now_ms) in
    let done = obey node l1 tx msg d now_ms in
    if msg.sender_id == u16 node.node_id then (l, tx) else done

-- `source_handle_rml_frame`; the last component tells whether the frame was one of this layer.
unfoldable pub source_handle_rml_frame :
    Node → Layer → Rb TxRequest → RxFrame → ℕ → Layer × Rb TxRequest × Bool
source_handle_rml_frame node l tx frame now_ms =
    let (st, found) = decode l.stats (take frame.len frame.frame) in
    let l1 : Layer = record l { stats = st } in
    let handled : Layer × Rb TxRequest × Bool = elim found [
      | none ↦ (l1, tx, true)
      | some msg ↦ let (l2, tx2) = handle_message node l1 tx frame msg now_ms in (l2, tx2, true)
    ] in
    if frame.len == 0 || not (at frame.frame 0 == magic_byte) then (l, tx, false) else handled
