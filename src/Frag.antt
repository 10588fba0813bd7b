-- ===== src/Frag.antt =====
-- firmware_core/ble/rivr_ble_frag.h and rivr_ble_frag.c: frames cut into packets for a Bluetooth
-- link, and put together again. The data array of a slot is a list of 255 bytes. The callback that
-- sends a packet is an argument, with the state behind its `ctx` passed along.
pub mod Slots
pub mod RoundTrip
use mathlib.Core.List.{map}
use rivr.Common.{ℕ, zero, suc, Bool, true, false, not, Option, none, some, List, [], ltb}
use rivr.Common.{leb, length, get_or, set, take, drop, u8, u16, ◌+◌, ◌-◌, ◌%◌, ◌&&◌, ◌||◌}
use rivr.Common.{◌∷◌, ◌++◌, ◌==◌, if◌then◌else◌}
use rivr.Radio.{frame_cap, zero_data}
use rivr.Protocol.{at}

-- RIVR_BLE_FRAG_MAGIC0, _MAGIC1, _VERSION, _HDR_LEN, _RX_SLOTS
abbrev pub magic0 : ℕ
magic0 = 0x52

abbrev pub magic1 : ℕ
magic1 = 0x42

abbrev pub version : ℕ
version = 1

abbrev pub hdr_len : ℕ
hdr_len = 6

abbrev pub rx_slots : ℕ
rx_slots = 4

-- `rivr_ble_frag_rx_slot_t`
pub record Slot : Type 0 where
  pub active : Bool
  pub msg_id : ℕ
  pub total_len : ℕ
  pub received_len : ℕ
  pub bytes : List ℕ

-- `rivr_ble_frag_rx_t`
pub record Rx : Type 0 where
  pub next_slot : ℕ
  pub slots : List Slot

abbrev pub zero_slot : Slot
zero_slot = record {
  active = false;
  msg_id = 0;
  total_len = 0;
  received_len = 0;
  bytes = zero_data;
}

-- `rivr_ble_frag_rx_result_t`; what goes through `out_payload` and `out_len` stands with the result.
pub data Result : Type 0 where
  invalid incomplete : Result
  passthrough complete : List ℕ → Result

-- `rivr_ble_frag_drop_slot`, `rivr_ble_frag_start_slot`
abbrev pub drop_slot : Slot → Slot
drop_slot s = record s { active = false; msg_id = 0; total_len = 0; received_len = 0 }

abbrev pub start_slot : Slot → ℕ → ℕ → Slot
start_slot s msg_id total_len = record s {
  active = true;
  msg_id = msg_id;
  total_len = total_len;
  received_len = 0;
}

-- `rivr_ble_frag_reset`; the data arrays stay as they are.
unfoldable pub reset : Rx → Rx
reset rx = record { next_slot = 0; slots = map drop_slot rx.slots }

-- `rivr_ble_frag_is_packet`
unfoldable pub is_packet : List ℕ → Bool
is_packet packet =
    leb hdr_len (length packet)
    && (at packet 0 == magic0 && at packet 1 == magic1 && at packet 2 == version)

-- The first slot from index `i` on that satisfies the test.
unfoldable pub find_from : (Slot → Bool) → List Slot → ℕ → Option ℕ
find_from test [] i = none
find_from test (s ∷ ss) i = let rest = find_from test ss (i + 1) in if test s then some i else rest

-- `rivr_ble_frag_find_slot`
unfoldable pub find_slot : Rx → ℕ → Option ℕ
find_slot rx msg_id = find_from (λ (s : Slot). s.active && (s.msg_id == msg_id)) rx.slots 0

-- `rivr_ble_frag_alloc_slot`
unfoldable pub alloc_slot : Rx → ℕ × Rx
alloc_slot rx =
    let i = if leb rx_slots rx.next_slot then 0 else rx.next_slot in
    elim (find_from (λ (s : Slot). not s.active) rx.slots 0) [
      | some k ↦ (k, rx)
      | none ↦ (i, record rx { next_slot = (i + 1) % rx_slots })
    ]

-- `memcpy(&dst[offset], src, length src)`
abbrev pub copy_at : List ℕ → ℕ → List ℕ → List ℕ
copy_at dst offset src = take offset dst ++ (src ++ drop (offset + length src) dst)

-- The end of `rivr_ble_frag_ingest`: the bytes of a packet into slot `i`, which stands for `slot`.
unfoldable pub ingest_at : Rx → ℕ → Slot → ℕ → List ℕ → Rx × Result
ingest_at rx i slot offset bytes =
    let filled : Slot = record slot {
      bytes = copy_at slot.bytes offset bytes;
      received_len = u8 (offset + length bytes);
    } in
    let put : Slot → Rx = λ (s : Slot). record rx { slots = set rx.slots i s } in
    if not (offset == slot.received_len)
    then (put (drop_slot slot), invalid)
    else if ltb filled.received_len slot.total_len
    then (put filled, incomplete)
    else (put (drop_slot filled), complete (take slot.total_len filled.bytes))

-- `rivr_ble_frag_ingest` for a packet that is a fragment, from the choice of its slot on.
unfoldable pub ingest_fragment : Rx → ℕ → ℕ → ℕ → List ℕ → Rx × Result
ingest_fragment rx msg_id offset total_len bytes = elim (find_slot rx msg_id) [
  | none ↦
      let (i, rx') = alloc_slot rx in
      let slot = start_slot (get_or rx'.slots i zero_slot) msg_id total_len in
      let stored = ingest_at rx' i slot offset bytes in
      if not (offset == 0) then (rx, invalid) else stored
  | some i ↦
      let slot = get_or rx.slots i zero_slot in
      let restarted = ingest_at rx i (start_slot slot msg_id total_len) offset bytes in
      let continued = ingest_at rx i slot offset bytes in
      if offset == 0
      then restarted
      else if not (slot.total_len == total_len)
      then (record rx { slots = set rx.slots i (drop_slot slot) }, invalid)
      else continued
]

-- `rivr_ble_frag_ingest`
unfoldable pub ingest : Rx → List ℕ → Rx × Result
ingest rx packet =
    let offset = at packet 4 in
    let total_len = at packet 5 in
    let frag_len = length packet - hdr_len in
    if length packet == 0
    then (rx, invalid)
    else if not (is_packet packet)
    then (rx, passthrough packet)
    else if total_len == 0
    then (rx, invalid)
    else if frag_len == 0 || leb total_len offset
    then (rx, invalid)
    else if ltb total_len (u16 (offset + frag_len))
    then (rx, invalid)
    else ingest_fragment rx (at packet 3) offset total_len (drop hdr_len packet)

-- The packet at an offset of the payload.
abbrev pub fragment : List ℕ → ℕ → ℕ → ℕ → List ℕ
fragment payload msg_id offset chunk_len =
    magic0
    ∷ magic1
    ∷ version
    ∷ msg_id
    ∷ u8 offset
    ∷ u8 (length payload)
    ∷ take chunk_len (drop offset payload)

-- The counter of message ids, which skips 0.
abbrev pub next_id : ℕ → ℕ
next_id n = if u8 (n + 1) == 0 then 1 else u8 (n + 1)

module _ {S : Type 0} (emit : S → List ℕ → S × Bool) where
  -- The loop of `rivr_ble_frag_send`, on fuel: a payload of `n` bytes needs at most `n` rounds.
  unfoldable pub send_from : ℕ → S → List ℕ → ℕ → ℕ → ℕ → S × Bool
  send_from zero s payload msg_id offset frag_len = (s, true)
  send_from (suc fuel) s payload msg_id offset frag_len =
      let left = length payload - offset in
      let chunk_len = if ltb frag_len left then frag_len else left in
      let (s', ok) = emit s (fragment payload msg_id offset chunk_len) in
      let rest = send_from fuel s' payload msg_id (offset + frag_len) frag_len in
      if leb (length payload) offset then (s, true) else if not ok then (s', false) else rest

  -- `rivr_ble_frag_send`: the state, the message counter and the verdict.
  unfoldable pub send : S → List ℕ → ℕ → ℕ → S × ℕ × Bool
  send s payload limit next_msg_id =
      let n = length payload in
      let (s0, ok0) = emit s payload in
      let id = next_id next_msg_id in
      let (s1, ok1) = send_from n s payload id 0 (limit - hdr_len) in
      if n == 0 || ltb frame_cap n
      then (s, next_msg_id, false)
      else if limit == 0
      then (s, next_msg_id, false)
      else if leb n limit
      then (s0, next_msg_id, ok0)
      else if leb limit hdr_len
      then (s, next_msg_id, false)
      else (s1, id, ok1)
