-- ===== src/Rml.antt =====
-- firmware_core/rml/rml.h, rml_codec.c and rml_stats.c: the messages of the mesh logic layer and
-- their wire format. A buffer is the list of its bytes, and its length the `len` passed with it; the
-- null checks are left out.
pub mod Payload
pub mod Seen
pub mod Wire
pub mod Exchange
pub mod Change
pub mod Memory
pub mod Thread
pub mod Policy
pub mod Relay
pub mod Grounds
pub mod Once
pub mod Source
pub mod Undo
use rivr.Common.{ℕ, Bool, not, Option, none, some, List, [], ltb, length, take, drop}
use rivr.Common.{replicate, u16, inc32, ◌+◌, ◌-◌, ◌*◌, ◌/◌, ◌%◌, ◌∷◌, ◌++◌, ◌==◌}
use rivr.Common.{if◌then◌else◌}
use rivr.Protocol.{at, read16, read32}

-- RML_MAGIC, RML_VERSION, RML_WIRE_HDR_LEN, RML_MAX_PAYLOAD
abbrev pub magic_byte : ℕ
magic_byte = 0xA7

abbrev pub version_byte : ℕ
version_byte = 1

abbrev pub hdr_len : ℕ
hdr_len = 28

abbrev pub max_payload : ℕ
max_payload = 160

-- `rml_message_t`; `payload` is the array of 160 bytes.
pub record Message : Type 0 where
  pub magic : ℕ
  pub version : ℕ
  pub kind : ℕ
  pub flags : ℕ
  pub msg_id : ℕ
  pub thread_id : ℕ
  pub prev_id : ℕ
  pub sender_id : ℕ
  pub target_id : ℕ
  pub intent : ℕ
  pub priority : ℕ
  pub ttl : ℕ
  pub reliability : ℕ
  pub expires_s : ℕ
  pub supersedes : Bool
  pub state_type : ℕ
  pub soft_ttl_s : ℕ
  pub created_ms : ℕ
  pub payload_len : ℕ
  pub payload : List ℕ

-- `rml_stats_t`, the counters `g_rml_stats`.
pub record Stats : Type 0 where
  pub rx_total : ℕ
  pub rx_bad_magic : ℕ
  pub rx_bad_version : ℕ
  pub rx_too_large : ℕ
  pub rx_seen_drop : ℕ
  pub rx_expired_drop : ℕ
  pub relay_total : ℕ
  pub relay_ttl_drop : ℕ
  pub encode_fail : ℕ
  pub decode_fail : ℕ

-- `put_u16`, `put_u32`
abbrev pub put_u16 : ℕ → List ℕ → List ℕ
put_u16 v rest = v % 256 ∷ v / 256 ∷ rest

abbrev pub put_u32 : ℕ → List ℕ → List ℕ
put_u32 v rest = v % 256 ∷ v / 256 % 256 ∷ v / 65536 % 256 ∷ v / 16777216 % 256 ∷ rest

-- `flags | RML_FLAG_SUPERSEDES` sets the lowest bit.
abbrev pub set_supersedes : ℕ → ℕ
set_supersedes flags = flags / 2 * 2 + 1

-- The flags that go on the wire.
abbrev pub wire_flags : Message → ℕ
wire_flags msg = if msg.supersedes then set_supersedes msg.flags else msg.flags

-- The 28 bytes in front of the payload.
unfoldable pub header_bytes : Message → List ℕ
header_bytes msg =
    magic_byte
    ∷ version_byte
    ∷ msg.kind
    ∷ wire_flags msg
    ∷ put_u32 msg.msg_id (
        put_u32 msg.thread_id (
          put_u32 msg.prev_id (
            put_u16 msg.sender_id (
              put_u16 msg.target_id (
                msg.intent
                ∷ msg.priority
                ∷ msg.ttl
                ∷ msg.reliability
                ∷ put_u16 msg.expires_s (put_u16 msg.payload_len []))))))

-- `rml_encode`: the bytes written to the front of `out`, if it returns true.
unfoldable pub encode : Stats → Message → ℕ → Stats × Option (List ℕ)
encode st msg out_cap =
    let failed = record st { encode_fail = inc32 st.encode_fail } in
    if ltb max_payload msg.payload_len
    then (failed, none)
    else if ltb out_cap (hdr_len + msg.payload_len)
    then (failed, none)
    else (st, some (header_bytes msg ++ take msg.payload_len msg.payload))

-- The array of `rml_message_t` once `n` bytes are copied into zeroed memory.
abbrev pub padded : ℕ → List ℕ → List ℕ
padded n bytes = take n bytes ++ replicate (max_payload - n) 0

-- What `rml_decode` stores in `out`.
unfoldable pub read_message : List ℕ → Message
read_message buf = record {
  magic = at buf 0;
  version = at buf 1;
  kind = at buf 2;
  flags = at buf 3;
  msg_id = read32 buf 4;
  thread_id = read32 buf 8;
  prev_id = read32 buf 12;
  sender_id = read16 buf 16;
  target_id = read16 buf 18;
  intent = at buf 20;
  priority = at buf 21;
  ttl = at buf 22;
  reliability = at buf 23;
  expires_s = read16 buf 24;
  supersedes = not (at buf 3 % 2 == 0);
  state_type = u16 (read32 buf 8);
  soft_ttl_s = 0;
  created_ms = 0;
  payload_len = read16 buf 26;
  payload = padded (read16 buf 26) (drop hdr_len buf);
}

-- `rml_decode`
unfoldable pub decode : Stats → List ℕ → Stats × Option Message
decode st buf =
    let failed : Stats = record st { decode_fail = inc32 st.decode_fail } in
    if ltb (length buf) hdr_len
    then (failed, none)
    else if not (at buf 0 == magic_byte)
    then (record failed { rx_bad_magic = inc32 st.rx_bad_magic }, none)
    else if not (at buf 1 == version_byte)
    then (record failed { rx_bad_version = inc32 st.rx_bad_version }, none)
    else if ltb max_payload (read16 buf 26)
    then (record failed { rx_too_large = inc32 st.rx_too_large }, none)
    else if ltb (length buf) (hdr_len + read16 buf 26)
    then (failed, none)
    else (st, some (read_message buf))

-- `rml_stats_reset`
abbrev pub zero_stats : Stats
zero_stats = record {
  rx_total = 0;
  rx_bad_magic = 0;
  rx_bad_version = 0;
  rx_too_large = 0;
  rx_seen_drop = 0;
  rx_expired_drop = 0;
  relay_total = 0;
  relay_ttl_drop = 0;
  encode_fail = 0;
  decode_fail = 0;
}
