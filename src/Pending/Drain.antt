-- ===== src/Pending/Drain.antt =====
-- The frame that a waiting message is sent as.
use rivr.Common.{ℕ, refl, ap, true, some, List, arith, leb, length, drop, take_all, IsU32}
use rivr.Common.{u8, ◌+◌, ◌≤◌, ◌<◌, ◌≡◌, ◌∙◌, ◌&&◌, ◌++◌}
use rivr.Metrics.{Metrics}
use rivr.Protocol.{Hdr, IsHdr, decode, encode, pkt_metrics, header_bytes}
use rivr.Protocol.Wire.{frame_of, length-frame_of, encode-eq-frame_of, decode-frame_of, sent}
use rivr.Radio.{TxRequest, zero_data, copy, frame_cap}
use rivr.Pending.{reencode_as_unicast_hop}

-- A header for one hop to a neighbour.
abbrev pub unicast : Hdr → ℕ → Hdr
unicast h next_hop = record h { dst_id = next_hop; ttl = 1 }

-- The bytes do not depend on the fields that `protocol_encode` writes itself.
sent_bytes :
    (h : Hdr) (p : List ℕ) (hop : ℕ)
    → frame_of (record (sent h p) { dst_id = hop; ttl = 1 }) p ≡ frame_of (unicast h hop) p
unfolding frame_of header_bytes sent
sent_bytes h p hop = refl

encode-unicast :
    (h : Hdr) (p : List ℕ) (hop : ℕ)
    → length p ≤ 230
    → encode (record (sent h p) { dst_id = hop; ttl = 1 }) p frame_cap
      ≡ some (frame_of (unicast h hop) p)
encode-unicast h p hop hp =
    let k =
      encode-eq-frame_of (record (sent h p) { dst_id = hop; ttl = 1 }) p frame_cap (omega arith) in
    let fits : (leb (length p) 230 && leb (25 + length p) frame_cap) ≡ true = ground arith in
    k ∙ rw (fits, sent_bytes h p hop) refl

-- `reencode_as_unicast_hop` of a stored frame yields a request that the neighbour decodes to the
-- same payload and header, but for the destination, which is the next hop, and the TTL, which is 1.
-- The header fits its types, its packet type is defined and the payload has at most 230 bytes.
pub decode-reencode :
    (m : Metrics) (h : Hdr) (p rest : List ℕ) (len hop toa : ℕ)
    → IsHdr h
    → 0 < h.pkt_type
    → h.pkt_type ≤ pkt_metrics
    → length p ≤ 230
    → 25 + length p ≤ len
    → IsU32 hop
    → (req : TxRequest) × (reencode_as_unicast_hop m (frame_of h p ++ rest) len hop toa
        ≡ (m, some req))
      × (req.toa_us ≡ toa)
      × (decode m req.frame req.len ≡ (m, some (sent (unicast h hop) p, p)))
unfolding reencode_as_unicast_hop
decode-reencode m h p rest len hop toa v ht ht' hp hl hh = (
  req,
  rw (read, encode-unicast h p hop hp, reencode_as_unicast_hop, read) refl,
  refl,
  rw copied (decode-frame_of (unicast h hop) p behind m req.len fits ht ht' hp size),
)
  where
    read : decode m (frame_of h p ++ rest) len ≡ (m, some (sent h p, p))
    read = decode-frame_of h p rest m len v ht ht' hp hl

    enc : List ℕ
    enc = frame_of (unicast h hop) p

    behind : List ℕ
    behind = drop (length enc) zero_data

    req : TxRequest
    req = record {
      frame = copy zero_data enc (length enc);
      len = u8 (length enc);
      toa_us = toa;
      due_ms = 0;
    }

    copied : copy zero_data enc (length enc) ≡ enc ++ behind
    copied = ap (λ l. l ++ behind) (take_all enc)

    size : 25 + length p ≤ u8 (length enc)
    size = omega (arith, length-frame_of (unicast h hop) p)

    fits : IsHdr (unicast h hop)
    fits = record {
      pkt_type_fits = v.pkt_type_fits;
      flags_fits = v.flags_fits;
      ttl_fits = omega arith;
      hop_fits = v.hop_fits;
      net_id_fits = v.net_id_fits;
      src_id_fits = v.src_id_fits;
      dst_id_fits = hh;
      seq_fits = v.seq_fits;
      pkt_id_fits = v.pkt_id_fits;
      loop_guard_fits = v.loop_guard_fits;
    }
