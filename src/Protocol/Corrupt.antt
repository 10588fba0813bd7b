-- ===== src/Protocol/Corrupt.antt =====
-- Frames that were damaged on the air.
use mathlib.Core.List.{append_assoc}
use rivr.Common.{ℕ, refl, sym, none, List, [], arith, length, All, length-append}
use rivr.Common.{All-append, get_or-append, IsU8, ◌+◌, ◌/◌, ◌%◌, ◌≤◌, ◌≡◌, ◌∙◌, ◌≢◌, ◌∷◌}
use rivr.Common.{◌++◌}
use rivr.Metrics.{Metrics}
use rivr.Protocol.Crc.{crc16, crc16_from}
use rivr.Protocol.Crc.Detect.{crc16_from_detects}
use rivr.Protocol.{Hdr, IsHdr, header_bytes, at, read16, validate_wire_frame, decode}
use rivr.Protocol.Wire.{crc16-append, length-body}

-- The frame of `h` with the payload `sent`, whose payload arrives as `got`.
pub received : Hdr → List ℕ → List ℕ → List ℕ
received h sent got =
    let body = header_bytes h (length sent) ++ sent in
    let crc = crc16_from 0xffff body in
    (header_bytes h (length sent) ++ got) ++ (crc % 256 ∷ crc / 256 ∷ [])

header_bytes-IsU8 : (h : Hdr) (n : ℕ) → IsHdr h → IsU8 n → All IsU8 (header_bytes h n)
unfolding header_bytes
header_bytes-IsU8 h n v hn = omega arith

-- Where the two CRCs of a received frame are found.
received_crcs :
    (h : Hdr) (sent got : List ℕ) (n : ℕ)
    → length got ≡ length sent
    → n ≡ 23 + length sent
    → (crc16 (received h sent got) n ≡ crc16_from 0xffff (header_bytes h (length sent) ++ got))
      × (read16 (received h sent got) n ≡ crc16_from 0xffff (header_bytes h (length sent) ++ sent))
unfolding received
received_crcs h sent got n same e =
    let body = header_bytes h (length sent) ++ got in
    let crc = crc16_from 0xffff (header_bytes h (length sent) ++ sent) in
    let tail : List ℕ = crc % 256 ∷ crc / 256 ∷ [] in
    let len : n ≡ length body = omega (arith, length-body h got (length sent)) in
    let first : n ≡ length body + 0 = omega (arith, len) in
    let second : n + 1 ≡ length body + 1 = omega (arith, len) in
    (
      crc16-append body tail n len,
      rw (second, first, get_or-append body tail 0 0, get_or-append body tail 1 0) (omega arith),
    )

rejected_by_crc :
    (m : Metrics) (buf : List ℕ) (len : ℕ)
    → at buf 21 ≤ 230
    → crc16 buf (23 + at buf 21) ≢ read16 buf (23 + at buf 21)
    → (decode m buf len).1 ≡ none
unfolding decode validate_wire_frame
rejected_by_crc m buf len h ne = ground arith

-- A frame in which one byte of the payload was changed is not accepted, whatever the length that
-- the radio reports. The header fits its types, the payload is of bytes and has at most 230 of
-- them.
pub corrupt_payload_rejected :
    (m : Metrics) (h : Hdr) (xs ys : List ℕ) (a b len : ℕ)
    → IsHdr h
    → All IsU8 xs
    → All IsU8 ys
    → IsU8 a
    → IsU8 b
    → a ≢ b
    → length (xs ++ (a ∷ ys)) ≤ 230
    → (decode m (received h (xs ++ (a ∷ ys)) (xs ++ (b ∷ ys))) len).1 ≡ none
corrupt_payload_rejected m h xs ys a b len v hx hy ha hb ne hl =
    let sent = xs ++ (a ∷ ys) in
    let got = xs ++ (b ∷ ys) in
    let hdr = header_bytes h (length sent) in
    let same : length got ≡ length sent =
      omega (arith, length-append xs (a ∷ ys), length-append xs (b ∷ ys)) in
    let place : at (received h sent got) 21 ≡ length sent = unfold received header_bytes in refl in
    let crcs = received_crcs h sent got (23 + length sent) same refl in
    let front = All-append IsU8 hdr xs (header_bytes-IsU8 h (length sent) v (omega arith)) hx in
    rejected_by_crc m (received h sent got) len (omega (arith, place)) (
      rw place λ e. ne (
        crc16_from_detects 0xffff (hdr ++ xs) ys a b (omega arith) front hy ha hb (
          rw (append_assoc hdr xs (a ∷ ys), append_assoc hdr xs (b ∷ ys))
            (sym crcs.1 ∙ sym e ∙ crcs.0))))
