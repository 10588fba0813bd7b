-- ===== src/Rml/Payload.antt =====
-- firmware_core/rml/rml.c: messages made for sending, and the payloads of a change to a text and of
-- a request for a lost message.
use rivr.Common.{ℕ, bit_xor, false, not, Option, none, some, List, [], ltb, length, take}
use rivr.Common.{drop, replicate, u16, u32, ◌+◌, ◌*◌, ◌/◌, ◌%◌, ◌||◌, ◌∷◌, ◌==◌}
use rivr.Common.{if◌then◌else◌}
use rivr.Protocol.{at, read16, read32}
use rivr.Rml.{Message, magic_byte, version_byte, max_payload, put_u16, put_u32, padded}

-- `rml_type_t`, `rml_intent_t`, `rml_reliability_t`: the values that are used here.
abbrev pub type_chat : ℕ
type_chat = 1

abbrev pub type_delta : ℕ
type_delta = 3

abbrev pub type_repair_request : ℕ
type_repair_request = 8

abbrev pub intent_chat : ℕ
intent_chat = 1

abbrev pub intent_private : ℕ
intent_private = 2

abbrev pub intent_system : ℕ
intent_system = 7

abbrev pub rel_opportunistic : ℕ
rel_opportunistic = 0

abbrev pub rel_repair_request : ℕ
rel_repair_request = 3

-- `rml_delta_t`; `bytes` is its array `data`.
pub record Delta : Type 0 where
  pub op : ℕ
  pub offset : ℕ
  pub delete_len : ℕ
  pub data_len : ℕ
  pub bytes : List ℕ

-- `rml_repair_request_t`
pub record Repair : Type 0 where
  pub missing_msg_id : ℕ
  pub thread_id : ℕ
  pub sender_id : ℕ

-- `rml_hash_init`, `rml_hash_byte`, `rml_hash_u16`, `rml_hash_u32`
abbrev pub hash_init : ℕ
hash_init = 2166136261

unfoldable pub hash_byte : ℕ → ℕ → ℕ
hash_byte h b = u32 (bit_xor h b * 16777619)

unfoldable pub hash_u16 : ℕ → ℕ → ℕ
hash_u16 h v = hash_byte (hash_byte h (v % 256)) (v / 256)

unfoldable pub hash_u32 : ℕ → ℕ → ℕ
hash_u32 h v =
    hash_byte (hash_byte (hash_byte (hash_byte h (v % 256)) (v / 256 % 256)) (v / 65536 % 256))
      (v / 16777216 % 256)

-- The loop of `rml_make_chat` over the payload.
unfoldable pub hash_bytes : ℕ → List ℕ → ℕ
hash_bytes h [] = h
hash_bytes h (b ∷ bs) = hash_bytes (hash_byte h b) bs

-- The message in memory that was set to zero.
abbrev pub blank : ℕ → ℕ → ℕ → ℕ → Message
blank kind thread_id sender_id target_id = record {
  magic = magic_byte;
  version = version_byte;
  kind = kind;
  flags = 0;
  msg_id = 0;
  thread_id = thread_id;
  prev_id = 0;
  sender_id = sender_id;
  target_id = target_id;
  intent = 0;
  priority = 0;
  ttl = 0;
  reliability = 0;
  expires_s = 0;
  supersedes = false;
  state_type = u16 thread_id;
  soft_ttl_s = 0;
  created_ms = 0;
  payload_len = 0;
  payload = replicate max_payload 0;
}

-- The hash that is the id of a chat message, unless it is 0.
abbrev pub chat_hash : ℕ → ℕ → ℕ → List ℕ → ℕ
chat_hash sender_id target_id thread_id payload =
    hash_bytes
      (hash_u16 (hash_u32 (hash_u16 (hash_u16 hash_init sender_id) target_id) thread_id)
        (length payload))
      payload

-- `rml_make_chat`; `payload` holds the `payload_len` bytes that the caller passes.
unfoldable pub make_chat : ℕ → ℕ → ℕ → List ℕ → Option Message
make_chat sender_id target_id thread_id payload =
    let h = chat_hash sender_id target_id thread_id payload in
    if ltb max_payload (length payload)
    then none
    else some (record (blank type_chat thread_id sender_id target_id) {
      intent = if target_id == 0 then intent_chat else intent_private;
      priority = 3;
      ttl = 8;
      reliability = rel_opportunistic;
      payload_len = length payload;
      payload = padded (length payload) payload;
      msg_id = if h == 0 then 1 else h;
    })

-- `rml_delta_payload_encode`: the bytes written to the front of `out`, if it returns true.
unfoldable pub delta_payload_encode : Delta → ℕ → Option (List ℕ)
delta_payload_encode delta out_cap =
    if ltb max_payload delta.data_len
    then none
    else if ltb out_cap (u16 (7 + delta.data_len))
    then none
    else some (
        delta.op
        ∷ put_u16 delta.offset
            (put_u16 delta.delete_len (put_u16 delta.data_len (take delta.data_len delta.bytes))))

-- `rml_delta_payload_decode`
unfoldable pub delta_payload_decode : List ℕ → Option Delta
delta_payload_decode buf =
    let data_len = read16 buf 5 in
    if ltb (length buf) 7
    then none
    else if ltb max_payload data_len || ltb (length buf) (u16 (7 + data_len))
    then none
    else some (record {
      op = at buf 0;
      offset = read16 buf 1;
      delete_len = read16 buf 3;
      data_len = data_len;
      bytes = padded data_len (drop 7 buf);
    })

-- `rml_make_delta`; the bytes of the message where it returns true.
unfoldable pub make_delta : ℕ → ℕ → ℕ → ℕ → ℕ → Delta → Option Message
make_delta sender_id target_id thread_id msg_id prev_id delta =
    elim (delta_payload_encode delta max_payload) [
      | none ↦ none
      | some bytes ↦ some (record (blank type_delta thread_id sender_id target_id) {
        msg_id = msg_id;
        prev_id = prev_id;
        intent = intent_chat;
        priority = 3;
        ttl = 8;
        reliability = rel_repair_request;
        payload_len = length bytes;
        payload = padded (length bytes) bytes;
      })
    ]

-- `rml_make_repair_request`
unfoldable pub make_repair_request : ℕ → ℕ → Repair → Message
make_repair_request sender_id target_id repair =
    let id = bit_xor (bit_xor repair.missing_msg_id repair.thread_id) (u32 (sender_id * 65536)) in
    record (blank type_repair_request repair.thread_id sender_id target_id) {
      msg_id = if id == 0 then 1 else id;
      prev_id = repair.missing_msg_id;
      intent = intent_system;
      priority = 6;
      ttl = 3;
      reliability = rel_opportunistic;
      payload_len = 10;
      payload =
          put_u32 repair.missing_msg_id
            (put_u32 repair.thread_id (put_u16 repair.sender_id (replicate 150 0)));
    }

-- `rml_repair_request_decode`
unfoldable pub repair_request_decode : Message → Option Repair
repair_request_decode msg =
    if not (msg.kind == type_repair_request) || ltb msg.payload_len 10
    then none
    else some (record {
      missing_msg_id = read32 msg.payload 0;
      thread_id = read32 msg.payload 4;
      sender_id = read16 msg.payload 8;
    })
