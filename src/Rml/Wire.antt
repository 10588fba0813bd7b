-- ===== src/Rml/Wire.antt =====
-- The mesh logic layer: what `rml_encode` writes, `rml_decode` reads back.
use rivr.Common.{ℕ, refl, sym, ap, not, none, some, List, arith, leb, length, take, drop}
use rivr.Common.{length-append, length-take, take-append, IsU8, IsU16, IsU32, u16, inc32}
use rivr.Common.{◌+◌, ◌*◌, ◌/◌, ◌%◌, ◌≤◌, ◌≡◌, ◌∙◌, ◌&&◌, ◌++◌, ◌==◌, if◌then◌else◌}
use rivr.Protocol.{at, read16}
use rivr.Rml.{Stats, Message, hdr_len, magic_byte, version_byte, wire_flags, padded}
unfoldable use rivr.Rml.{header_bytes, encode, read_message, decode}

-- Every field fits its C type, and the payload array has its size.
pub record IsMessage (m : Message) : Type 0 where
  pub kind_fits : IsU8 m.kind
  pub flags_fits : IsU8 m.flags
  pub msg_id_fits : IsU32 m.msg_id
  pub thread_id_fits : IsU32 m.thread_id
  pub prev_id_fits : IsU32 m.prev_id
  pub sender_id_fits : IsU16 m.sender_id
  pub target_id_fits : IsU16 m.target_id
  pub intent_fits : IsU8 m.intent
  pub priority_fits : IsU8 m.priority
  pub ttl_fits : IsU8 m.ttl
  pub reliability_fits : IsU8 m.reliability
  pub expires_s_fits : IsU16 m.expires_s
  pub payload_full : length m.payload ≡ 160

-- The message that the receiver sees.
unfoldable pub received : Message → Message
received m = record m {
  magic = magic_byte;
  version = version_byte;
  flags = wire_flags m;
  supersedes = not (wire_flags m % 2 == 0);
  state_type = u16 m.thread_id;
  soft_ttl_s = 0;
  created_ms = 0;
  payload = padded m.payload_len m.payload;
}

module _ (m : Message) (rest : List ℕ) where
  abbrev sent : List ℕ
  sent = take m.payload_len m.payload

  abbrev buf : List ℕ
  buf = (header_bytes m ++ sent) ++ rest

  payload_place : length sent ≡ m.payload_len → take m.payload_len (drop hdr_len buf) ≡ sent
  unfolding header_bytes
  payload_place e = ap (λ n. take n (sent ++ rest)) (sym e) ∙ take-append sent rest

  header_place :
      IsMessage m
      → m.payload_len ≤ 160
      → length sent ≡ m.payload_len
      → (at buf 0 ≡ magic_byte)
        × (at buf 1 ≡ version_byte)
        × (read16 buf 26 ≡ m.payload_len)
        × (28 + m.payload_len ≤ length buf)
  unfolding header_bytes
  header_place v hp e = (refl, refl, omega arith, omega (arith, length-append sent rest))

  read_place :
      IsMessage m
      → m.payload_len ≤ 160
      → length sent ≡ m.payload_len
      → read_message buf ≡ received m
  unfolding read_message received header_bytes
  read_place v hp e =
      let words : m.payload_len % 256 + m.payload_len / 256 * 256 ≡ m.payload_len = omega arith in
      rw words (ground (arith, payload_place e))

-- `rml_encode` writes header and payload if the payload has at most 160 bytes and the frame fits the
-- buffer, and counts a failure otherwise.
pub encode_cases :
    (st : Stats) (m : Message) (cap : ℕ)
    → encode st m cap ≡ (
        if leb m.payload_len 160 && leb (28 + m.payload_len) cap
        then (st, some (header_bytes m ++ take m.payload_len m.payload))
        else (record st { encode_fail = inc32 st.encode_fail }, none))
unfolding encode
encode_cases st m cap = ground arith

-- `rml_decode` reads back what `rml_encode` wrote for a message whose fields fit their types and whose
-- payload array has 160 bytes: the fields of the message and the payload, with zeros behind it. Magic
-- and version are those of the frame, the flags and `supersedes` are those that `wire_flags` puts on
-- the wire, `state_type` is the low half of the thread id, and `soft_ttl_s`
-- and `created_ms`, which are not on the wire, are 0. Bytes behind the
-- frame do not matter, and no counter moves.
pub rml_decode-encode :
    (st st' : Stats) (m : Message) (rest : List ℕ) (cap : ℕ) {frame : List ℕ}
    → IsMessage m
    → encode st m cap ≡ (st', some frame)
    → decode st' (frame ++ rest) ≡ (st, some (received m))
unfolding decode
rml_decode-encode st st' m rest cap {frame} v e =
    let shape = encode_cases st m cap in
    let fits : m.payload_len ≤ 160 = ground (arith, shape) in
    let same : frame ≡ header_bytes m ++ sent m rest = ground (arith, shape) in
    let kept : st' ≡ st = ground (arith, shape) in
    let len : length (sent m rest) ≡ m.payload_len =
      omega (arith, length-take m.payload_len m.payload, v.payload_full) in
    rw (same, kept) (ground (arith, header_place m rest v fits len, read_place m rest v fits len))
