-- ===== src/Protocol/Wire.antt =====
-- What `protocol_encode` writes, `protocol_decode` reads back.
use mathlib.Core.List.{append_assoc}
use rivr.Common.{ℕ, refl, sym, ap, none, some, List, [], arith, leb, length, take, drop}
use rivr.Common.{length-append, take-append, get_or-append, take_all, IsU8, u8, ◌+◌, ◌/◌}
use rivr.Common.{◌%◌, ◌≤◌, ◌<◌, ◌≡◌, ◌∙◌, ◌&&◌, ◌∷◌, ◌++◌, if◌then◌else◌}
use rivr.Metrics.{Metrics}
use rivr.Protocol.Crc.{crc16, crc16_from}
use rivr.Protocol.{Hdr, IsHdr, magic_word, proto_ver, pkt_metrics, hdr_len}
use rivr.Protocol.{header_bytes, encode, at, read16, validate_wire_frame, unpack_header_from_wire}
use rivr.Protocol.{decode}

-- The CRC reads no byte beyond its length.
pub crc16-append :
    (xs ys : List ℕ) (n : ℕ) → n ≡ length xs → crc16 (xs ++ ys) n ≡ crc16_from 0xffff xs
unfolding crc16
crc16-append xs ys n e = rw (e, take-append xs ys)

pub crc16_all : (xs : List ℕ) (n : ℕ) → n ≡ length xs → crc16 xs n ≡ crc16_from 0xffff xs
unfolding crc16
crc16_all xs n e = rw (e, take_all xs)

-- The header is 23 bytes long, whatever its fields are.
pub length-body : (h : Hdr) (p : List ℕ) (n : ℕ) → length (header_bytes h n ++ p) ≡ 23 + length p
unfolding header_bytes
length-body h p n = omega arith

-- A frame: header, payload, CRC.
unfoldable pub frame_of : Hdr → List ℕ → List ℕ
frame_of h p =
    let body = header_bytes h (length p) ++ p in
    let crc = crc16_from 0xffff body in body ++ (crc % 256 ∷ crc / 256 ∷ [])

-- For a payload of at most 255 bytes, `protocol_encode` writes the frame if the payload has at
-- most 230 bytes and the frame fits the buffer, and returns -1 otherwise.
pub encode-eq-frame_of :
    (h : Hdr) (p : List ℕ) (cap : ℕ)
    → IsU8 (length p)
    → encode h p cap
      ≡ (if leb (length p) 230 && leb (25 + length p) cap then some (frame_of h p) else none)
unfolding encode frame_of
encode-eq-frame_of h p cap hp = ground (
  arith,
  crc16_all (header_bytes h (length p) ++ p) (u8 (23 + length p)),
  length-body h p (length p),
)

pub length-frame_of : (h : Hdr) (p : List ℕ) → length (frame_of h p) ≡ 25 + length p
unfolding frame_of
length-frame_of h p =
    length-append (header_bytes h (length p) ++ p) _ ∙ omega (arith, length-body h p (length p))

-- The header that the receiver sees.
unfoldable pub sent : Hdr → List ℕ → Hdr
sent h p = record h { magic = magic_word; version = proto_ver; payload_len = length p }

module _ (h : Hdr) (p rest : List ℕ) where
  abbrev buf : List ℕ
  buf = frame_of h p ++ rest

  abbrev crc_bytes : List ℕ
  crc_bytes =
      let crc = crc16_from 0xffff (header_bytes h (length p) ++ p) in crc % 256 ∷ crc / 256 ∷ []

  abbrev body : List ℕ
  body = header_bytes h (length p) ++ p

  crc_place :
      (n : ℕ)
      → n ≡ 23 + length p
      → (crc16 buf n ≡ crc16_from 0xffff body) × (read16 buf n ≡ crc16_from 0xffff body)
  unfolding frame_of
  crc_place n e =
      let whole : buf ≡ body ++ (crc_bytes ++ rest) = append_assoc body crc_bytes rest in
      let len : n ≡ length body = e ∙ sym (length-body h p (length p)) in
      let first : n ≡ length body + 0 = omega (arith, len) in
      let second : n + 1 ≡ length body + 1 = omega (arith, len) in
      (
        rw whole (crc16-append body (crc_bytes ++ rest) n len),
        rw
            (
              second,
              first,
              whole,
              get_or-append body (crc_bytes ++ rest) 0 0,
              get_or-append body (crc_bytes ++ rest) 1 0,
            )
            (omega arith),
      )

  header_place :
      IsHdr h
      → (read16 buf 0 ≡ magic_word)
        × (at buf 2 ≡ proto_ver)
        × (at buf 3 ≡ h.pkt_type)
        × (at buf 21 ≡ length p)
        × (unpack_header_from_wire buf (length p) ≡ sent h p)
  unfolding unpack_header_from_wire frame_of header_bytes sent
  header_place v = (refl, refl, refl, refl, ground arith)

  payload_place : take (length p) (drop hdr_len buf) ≡ p
  unfolding frame_of header_bytes
  payload_place = rw append_assoc (take-append p _)

  pub decode-frame_of :
      (m : Metrics) (len : ℕ)
      → IsHdr h
      → 0 < h.pkt_type
      → h.pkt_type ≤ pkt_metrics
      → length p ≤ 230
      → 25 + length p ≤ len
      → decode m buf len ≡ (m, some (sent h p, p))
  unfolding decode validate_wire_frame
  decode-frame_of m len v ht ht' hp hl =
      ground (arith, header_place v, payload_place, crc_place (u8 (23 + length p)))

-- `protocol_decode` reads back what `protocol_encode` wrote: the fields of a header that fits its
-- types and has a defined packet type, with the magic word, the version and the payload length of
-- the frame, and the payload, which has at most 255 bytes. Bytes behind the frame do not matter,
-- if the length passed covers the frame, and no counter moves.
pub decode-encode :
    (m : Metrics) (h : Hdr) (p rest : List ℕ) (cap len : ℕ) {frame : List ℕ}
    → IsHdr h
    → 0 < h.pkt_type
    → h.pkt_type ≤ pkt_metrics
    → IsU8 (length p)
    → encode h p cap ≡ some frame
    → length frame ≤ len
    → decode m (frame ++ rest) len ≡ (m, some (sent h p, p))
decode-encode m h p rest cap len {frame} v ht ht' hp e hl =
    let shape = encode-eq-frame_of h p cap hp in
    let fits : length p ≤ 230 = ground (arith, shape) in
    let same : frame ≡ frame_of h p = ground (arith, shape) in
    rw same (
      decode-frame_of h p rest m len v ht ht' fits
        (omega (arith, ap length same, length-frame_of h p)))
