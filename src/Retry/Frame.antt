-- ===== src/Retry/Frame.antt =====
-- The frames that the retry table sends.
use mathlib.Core.List.{append_assoc}
use rivr.Common.{ℕ, bit_and, bit_or, refl, sym, ap, true, some, List, [], arith, leb}
use rivr.Common.{length, set, take, drop, take-append, set-append, IsU16, u8, u16, ◌+◌}
use rivr.Common.{◌-◌, ◌/◌, ◌%◌, ◌≤◌, ◌<◌, ◌≡◌, ◌∙◌, ◌∷◌, ◌++◌}
use rivr.Metrics.{Metrics}
use rivr.Protocol.Crc.{crc16_from}
use rivr.Protocol.{Hdr, IsHdr, header_bytes, decode, at, pkt_metrics}
use rivr.Protocol.Wire.{frame_of, length-body, crc16-append, length-frame_of, decode-frame_of, sent}
use rivr.Radio.{copy, zero_data}
use rivr.Retry.{
  Entry, patch_pkt_id_and_crc, flood_bytes, build_fallback_flood, fallback_ttl, flag_ack_req,
  flag_fallback,
}

-- A header with another packet id.
abbrev pub renamed : Hdr → ℕ → Hdr
renamed h id = record h { pkt_id = id }

-- The bytes of the frame whose CRC field holds anything.
named_place :
    (h : Hdr) (p rest : List ℕ) (n id : ℕ)
    → set (set (header_bytes h n ++ rest) 19 (id % 256)) 20 (id / 256 % 256)
      ≡ header_bytes (renamed h id) n ++ rest
unfolding header_bytes
named_place h p rest n id = refl

crc_written :
    (h : Hdr) (p rest : List ℕ) (a b off : ℕ)
    → off ≡ 23 + length p
    → let body = header_bytes h (length p) ++ p in
      set
        (set (body ++ (a ∷ b ∷ rest)) off (crc16_from 0xffff body % 256))
        (off + 1)
        (crc16_from 0xffff body / 256)
      ≡ frame_of h p ++ rest
unfolding frame_of
crc_written h p rest a b off e =
    let body : List ℕ = header_bytes h (length p) ++ p in
    let first : off ≡ length body + 0 = omega (arith, e, length-body h p (length p)) in
    let second : off + 1 ≡ length body + 1 = omega (arith, e, length-body h p (length p)) in
    rw (second, first, set-append body, set-append body, append_assoc body) refl

-- The patch writes a correct CRC over any other.
module _ (h : Hdr) (p rest : List ℕ) (a b id : ℕ) where
  abbrev body : List ℕ
  body = header_bytes (renamed h id) (length p) ++ p

  abbrev behind : List ℕ
  behind = a ∷ b ∷ rest

  named_frame :
      IsU16 id
      → set (set ((header_bytes h (length p) ++ p) ++ behind) 19 (id % 256)) 20 (id / 256)
        ≡ body ++ behind
  named_frame hid =
      let high : id / 256 ≡ id / 256 % 256 = omega arith in
      rw (high, append_assoc, append_assoc) (named_place h p (p ++ behind) (length p) id)

  length_place : at (body ++ behind) 21 ≡ length p
  unfolding header_bytes
  length_place = refl

  patch_bytes :
      (len : ℕ)
      → length p ≤ 230
      → IsU16 id
      → 25 + length p ≤ len
      → patch_pkt_id_and_crc ((header_bytes h (length p) ++ p) ++ behind) len id
        ≡ frame_of (renamed h id) p ++ rest
  unfolding patch_pkt_id_and_crc
  patch_bytes len hp hid hl =
      let off : u8 (23 + length p) ≡ 23 + length p = omega arith in
      let fits : leb (u16 (23 + length p + 2)) len ≡ true = ground arith in
      let crc =
        crc16-append body behind (23 + length p) (sym (length-body (renamed h id) p (length p))) in
      rw (named_frame hid, length_place, off, fits, crc)
        (crc_written (renamed h id) p rest a b (23 + length p) refl)

-- `patch_pkt_id_and_crc` turns the array that holds a frame into the array that holds the frame
-- with the new packet id: the header's other fields, the payload and the bytes behind stay. The
-- payload has at most 230 bytes and the given length covers the frame.
pub patch-frame_of :
    (h : Hdr) (p rest : List ℕ) (id len : ℕ)
    → length p ≤ 230
    → IsU16 id
    → 25 + length p ≤ len
    → patch_pkt_id_and_crc (frame_of h p ++ rest) len id ≡ frame_of (renamed h id) p ++ rest
unfolding frame_of
patch-frame_of h p rest id len hp hid hl =
    let crc = crc16_from 0xffff (header_bytes h (length p) ++ p) in
    rw append_assoc (patch_bytes h p rest (crc % 256) (crc / 256) id len hp hid hl)

-- The header of a fallback flood.
abbrev pub flooded : Hdr → ℕ → Hdr
flooded h id = record h {
  flags = u8 (bit_or (bit_and h.flags (255 - flag_ack_req)) flag_fallback);
  ttl = fallback_ttl;
  hop = 0;
  dst_id = 0;
  pkt_id = id;
  loop_guard = 0;
}

flood_place :
    (h : Hdr) (n id : ℕ) (rest : List ℕ)
    → flood_bytes (header_bytes h n ++ rest)
      ≡ header_bytes (record (flooded h id) { pkt_id = h.pkt_id }) n ++ rest
unfolding flood_bytes header_bytes
flood_place h n id rest = refl

flood_patched :
    (h : Hdr) (p zs : List ℕ) (id len : ℕ)
    → length p ≤ 230
    → IsU16 id
    → 25 + length p ≤ len
    → patch_pkt_id_and_crc (flood_bytes (frame_of h p ++ zs)) len id
      ≡ frame_of (flooded h id) p ++ zs
unfolding frame_of
flood_patched h p zs id len hp hid hl =
    let crc = crc16_from 0xffff (header_bytes h (length p) ++ p) in
    let h' : Hdr = record (flooded h id) { pkt_id = h.pkt_id } in
    let behind : List ℕ = crc % 256 ∷ crc / 256 ∷ zs in
    let shape : ((header_bytes h (length p) ++ p) ++ (crc % 256 ∷ crc / 256 ∷ [])) ++ zs
        ≡ header_bytes h (length p) ++ (p ++ behind) =
      append_assoc (header_bytes h (length p) ++ p) (crc % 256 ∷ crc / 256 ∷ []) zs
      ∙ append_assoc (header_bytes h (length p)) p behind in
    let patched = patch_bytes h' p zs (crc % 256) (crc / 256) id len hp hid hl in
    rw (shape, flood_place h (length p) id (p ++ behind))
      (rw (append_assoc (header_bytes h' (length p)) p behind) at patched)

copied :
    (h : Hdr) (p rest dst : List ℕ) (len : ℕ)
    → len ≡ 25 + length p
    → copy dst (frame_of h p ++ rest) len ≡ frame_of h p ++ drop len dst
copied h p rest dst len e =
    let whole : len ≡ length (frame_of h p) = e ∙ sym (length-frame_of h p) in
    ap (λ l. l ++ drop len dst)
      (ap (λ k. take k (frame_of h p ++ rest)) whole ∙ take-append (frame_of h p) rest)

-- When an entry holds the frame of a packet, with a header that fits its types, a defined packet
-- type and a payload of at most 230 bytes, the receiver of its fallback flood decodes the same
-- payload under the same source and sequence number, addressed to everyone, with TTL 3 and no
-- hops, the fallback flag set, the acknowledgement flag cleared and the new packet id.
pub decode-build_fallback_flood :
    (h : Hdr) (p rest : List ℕ) (e : Entry) (id : ℕ) (m : Metrics)
    → IsHdr h
    → 0 < h.pkt_type
    → h.pkt_type ≤ pkt_metrics
    → length p ≤ 230
    → IsU16 id
    → e.frame ≡ frame_of h p ++ rest
    → e.len ≡ 25 + length p
    → let req = build_fallback_flood e id in
      decode m req.frame req.len ≡ (m, some (sent (flooded h id) p, p))
unfolding build_fallback_flood
decode-build_fallback_flood h p rest e id m v ht ht' hp hid he hl =
    let zs = drop e.len zero_data in
    rw
      (
        he,
        copied h p rest zero_data e.len hl,
        flood_patched h p zs id e.len hp hid (omega (arith, hl)),
      )
      (decode-frame_of (flooded h id) p zs m e.len fits ht ht' hp (omega (arith, hl)))
  where
    fits : IsHdr (flooded h id)
    fits = record {
      pkt_type_fits = v.pkt_type_fits;
      flags_fits = omega arith;
      ttl_fits = omega arith;
      hop_fits = omega arith;
      net_id_fits = v.net_id_fits;
      src_id_fits = v.src_id_fits;
      dst_id_fits = omega arith;
      seq_fits = v.seq_fits;
      pkt_id_fits = hid;
      loop_guard_fits = omega arith;
    }
