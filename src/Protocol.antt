-- ===== src/Protocol.antt =====
-- firmware_core/protocol.h and protocol.c: the packet header, its wire format and the CRC.
-- A buffer is the list of its bytes. `a | b << 8` is a sum, since the operands share no bit; a
-- shift right is a quotient and a mask of low ones a remainder.
pub mod Crc
pub mod Wire
pub mod Accept
pub mod Corrupt
use rivr.Common.{ℕ, not, Option, none, some, List, [], ltb, length, get_or, take, drop}
use rivr.Common.{IsU8, IsU16, IsU32, u8, inc32, ◌+◌, ◌-◌, ◌*◌, ◌/◌, ◌%◌, ◌||◌, ◌∷◌, ◌++◌}
use rivr.Common.{◌==◌, if◌then◌else◌}
use rivr.Metrics.{Metrics}
use Crc.{crc16}

-- RIVR_MAGIC, RIVR_PROTO_VER, RIVR_PROTO_MIN, RIVR_PROTO_MAX
abbrev pub magic_word : ℕ
magic_word = 0x5256

abbrev pub proto_ver : ℕ
proto_ver = 1

abbrev pub proto_min : ℕ
proto_min = 1

abbrev pub proto_max : ℕ
proto_max = proto_ver

-- PKT_METRICS, the largest packet type
abbrev pub pkt_metrics : ℕ
pkt_metrics = 11

-- RIVR_PKT_HDR_LEN, RIVR_PKT_CRC_LEN, RIVR_PKT_MAX_PAYLOAD, RIVR_PKT_MIN_FRAME
abbrev pub hdr_len : ℕ
hdr_len = 23

abbrev pub crc_len : ℕ
crc_len = 2

abbrev pub max_payload : ℕ
max_payload = u8 (255 - hdr_len - crc_len)

abbrev pub min_frame : ℕ
min_frame = hdr_len + crc_len

-- `rivr_pkt_hdr_t`
pub record Hdr : Type 0 where
  pub magic : ℕ
  pub version : ℕ
  pub pkt_type : ℕ
  pub flags : ℕ
  pub ttl : ℕ
  pub hop : ℕ
  pub net_id : ℕ
  pub src_id : ℕ
  pub dst_id : ℕ
  pub seq : ℕ
  pub pkt_id : ℕ
  pub payload_len : ℕ
  pub loop_guard : ℕ

-- Every field fits its C type.
pub record IsHdr (h : Hdr) : Type 0 where
  pub pkt_type_fits : IsU8 h.pkt_type
  pub flags_fits : IsU8 h.flags
  pub ttl_fits : IsU8 h.ttl
  pub hop_fits : IsU8 h.hop
  pub net_id_fits : IsU16 h.net_id
  pub src_id_fits : IsU32 h.src_id
  pub dst_id_fits : IsU32 h.dst_id
  pub seq_fits : IsU16 h.seq
  pub pkt_id_fits : IsU16 h.pkt_id
  pub loop_guard_fits : IsU8 h.loop_guard

-- The 23 bytes that `protocol_encode` writes in front of the payload.
unfoldable pub header_bytes : Hdr → ℕ → List ℕ
header_bytes h payload_len =
    magic_word % 256
    ∷ magic_word / 256
    ∷ proto_ver
    ∷ h.pkt_type
    ∷ h.flags
    ∷ h.ttl
    ∷ h.hop
    ∷ h.net_id % 256
    ∷ h.net_id / 256
    ∷ h.src_id % 256
    ∷ h.src_id / 256 % 256
    ∷ h.src_id / 65536 % 256
    ∷ h.src_id / 16777216 % 256
    ∷ h.dst_id % 256
    ∷ h.dst_id / 256 % 256
    ∷ h.dst_id / 65536 % 256
    ∷ h.dst_id / 16777216 % 256
    ∷ h.seq % 256
    ∷ h.seq / 256 % 256
    ∷ h.pkt_id % 256
    ∷ h.pkt_id / 256 % 256
    ∷ payload_len
    ∷ h.loop_guard
    ∷ []

-- `protocol_encode`: the bytes written to the front of `out_buf`, or -1. `payload` holds the
-- `payload_len` bytes that the caller passes, so a null payload is the empty list.
unfoldable pub encode : Hdr → List ℕ → ℕ → Option (List ℕ)
encode h payload out_cap =
    let payload_len = length payload in
    let total = u8 (hdr_len + payload_len + crc_len) in
    let body = header_bytes h payload_len ++ payload in
    let crc = crc16 body (u8 (hdr_len + payload_len)) in
    if ltb out_cap total
    then none
    else if ltb max_payload payload_len
    then none
    else some (body ++ (crc % 256 ∷ crc / 256 ∷ []))

-- `buf[i]`; the callers' buffers are long enough, see `Accept`.
abbrev pub at : List ℕ → ℕ → ℕ
at buf i = get_or buf i 0

-- Little-endian words from index `i` on.
abbrev pub read16 : List ℕ → ℕ → ℕ
read16 buf i = at buf i + at buf (i + 1) * 256

abbrev pub read32 : List ℕ → ℕ → ℕ
read32 buf i = at buf i + at buf (i + 1) * 256 + at buf (i + 2) * 65536 + at buf (i + 3) * 16777216

-- `validate_wire_frame`: `payload_len` if the frame is accepted. A bad packet type is counted.
unfoldable pub validate_wire_frame : Metrics → List ℕ → ℕ → Metrics × Option ℕ
validate_wire_frame m buf len =
    let payload_len = at buf 21 in
    let expected_len = u8 (hdr_len + payload_len + crc_len) in
    let data_len = u8 (hdr_len + payload_len) in
    if ltb len min_frame
    then (m, none)
    else if not (read16 buf 0 == magic_word)
    then (m, none)
    else if ltb (at buf 2) proto_min || ltb proto_max (at buf 2)
    then (m, none)
    else if at buf 3 == 0 || ltb pkt_metrics (at buf 3)
    then (record m { rx_invalid_type = inc32 m.rx_invalid_type }, none)
    else if ltb max_payload payload_len
    then (m, none)
    else if ltb len expected_len
    then (m, none)
    else if not (crc16 buf data_len == read16 buf data_len)
    then (m, none)
    else (m, some payload_len)

-- `unpack_header_from_wire`
unfoldable pub unpack_header_from_wire : List ℕ → ℕ → Hdr
unpack_header_from_wire buf payload_len = record {
  magic = read16 buf 0;
  version = at buf 2;
  pkt_type = at buf 3;
  flags = at buf 4;
  ttl = at buf 5;
  hop = at buf 6;
  net_id = read16 buf 7;
  src_id = read32 buf 9;
  dst_id = read32 buf 13;
  seq = read16 buf 17;
  pkt_id = read16 buf 19;
  payload_len = payload_len;
  loop_guard = at buf 22;
}

-- `protocol_decode`: the header and the payload that `payload_out` points at.
unfoldable pub decode : Metrics → List ℕ → ℕ → Metrics × Option (Hdr × List ℕ)
decode m buf len =
    let (m', found) = validate_wire_frame m buf len in
    elim found [
      | none ↦ (m', none)
      | some payload_len ↦
          (m', some (unpack_header_from_wire buf payload_len, take payload_len (drop hdr_len buf)))
    ]
