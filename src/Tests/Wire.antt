-- ===== src/Tests/Wire.antt =====
-- The wire format at concrete frames.
use rivr.Common.{ℕ, refl, true, none, some, List, [], arith, length, take, replicate, ◌+◌}
use rivr.Common.{◌≤◌, ◌<◌, ◌≡◌, ◌∷◌, ◌++◌}
use rivr.Metrics.{zero_metrics}
use rivr.Protocol.{
  Hdr, IsHdr, pkt_metrics, encode, decode, header_bytes, validate_wire_frame,
  unpack_header_from_wire,
}
use rivr.Protocol.Crc.{crc16}
use rivr.Protocol.Crc.Polynomial.{crc16_reference, crc16-eq-reference}
use rivr.Protocol.Wire.{frame_of, sent, encode-eq-frame_of, decode-encode}
use rivr.Protocol.Accept.{decode-canonical}
use rivr.Protocol.Corrupt.{received, corrupt_payload_rejected}
use rivr.Retry.{Entry, build_fallback_flood}
use rivr.Retry.Frame.{flooded, decode-build_fallback_flood}
use rivr.Radio.{TxRequest}
use rivr.Pending.{reencode_as_unicast_hop}
use rivr.Pending.Drain.{unicast, decode-reencode}
use rivr.Routing.Control.{
  control_hdr, build_route_rpl, build_ack, pkt_route_rpl, pkt_ack, rpl_payload, ack_payload,
}

-- A chat packet.
abbrev pub sample : Hdr
sample = record {
  magic = 0x5256;
  version = 1;
  pkt_type = 1;
  flags = 1;
  ttl = 7;
  hop = 0;
  net_id = 0;
  src_id = 0x11223344;
  dst_id = 9;
  seq = 5;
  pkt_id = 0x0102;
  payload_len = 2;
  loop_guard = 0;
}

abbrev pub text : List ℕ
text = 72 ∷ 105 ∷ []

abbrev pub sample_bytes : List ℕ
sample_bytes =
    86 ∷ 82 ∷ 1 ∷ 1 ∷ 1 ∷ 7 ∷ 0 ∷ 0 ∷ 0 ∷ 68 ∷ 51 ∷ 34 ∷ 17 ∷ 9 ∷ 0 ∷ 0 ∷ 0 ∷ 5 ∷ 0 ∷ 2 ∷ 1 ∷ 2 ∷ 0
    ∷ 72 ∷ 105 ∷ 227 ∷ 244 ∷ []

sample-IsHdr : IsHdr sample
sample-IsHdr = omega arith

encode-sample : encode sample text 255 ≡ some sample_bytes
unfolding encode header_bytes crc16
encode-sample = refl

decode-sample : decode zero_metrics sample_bytes 27 ≡ (zero_metrics, some (sample, text))
unfolding decode validate_wire_frame crc16 unpack_header_from_wire
decode-sample = refl

decode-canonical_example :
    (zero_metrics ≡ zero_metrics)
    × IsHdr sample
    × (0 < sample.pkt_type)
    × (sample.pkt_type ≤ pkt_metrics)
    × (length text ≤ 230)
    × (25 + length text ≤ 27)
    × (encode sample text 255 ≡ some (take (25 + length text) sample_bytes))
decode-canonical_example =
    decode-canonical zero_metrics zero_metrics sample_bytes 27 sample text (omega arith)
      (omega arith) decode-sample

decode-encode_example :
    decode zero_metrics (sample_bytes ++ (0 ∷ 0 ∷ [])) 29
    ≡ (zero_metrics, some (sent sample text, text))
decode-encode_example =
    decode-encode zero_metrics sample text (0 ∷ 0 ∷ []) 255 29 sample-IsHdr (omega arith)
      (omega arith) (omega arith) encode-sample (omega arith)

crc16-eq-reference_example :
    crc16 (49 ∷ 50 ∷ 51 ∷ []) 3 ≡ crc16_reference 0xffff (49 ∷ 50 ∷ 51 ∷ [])
crc16-eq-reference_example = crc16-eq-reference (49 ∷ 50 ∷ 51 ∷ []) 3 (omega arith)

corrupt_payload_rejected_example :
    (decode zero_metrics (received sample (72 ∷ 105 ∷ []) (72 ∷ 106 ∷ [])) 27).1 ≡ none
corrupt_payload_rejected_example =
    corrupt_payload_rejected zero_metrics sample (72 ∷ []) [] 105 106 27 sample-IsHdr (omega arith)
      (omega arith) (omega arith) (omega arith) (omega arith) (omega arith)

abbrev tired : Entry
tired = record {
  ack_src_id = 0x11223344;
  cur_pkt_id = 0x0102;
  dst_id = 9;
  next_hop = 9;
  frame = frame_of sample text ++ replicate 228 0;
  len = 27;
  toa_us = 60000;
  next_retry_ms = 60000;
  timeout_interval_ms = 32000;
  retries_left = 0;
  valid = true;
}

decode-build_fallback_flood_example :
    decode zero_metrics (build_fallback_flood tired 300).frame (build_fallback_flood tired 300).len
    ≡ (zero_metrics, some (sent (flooded sample 300) text, text))
decode-build_fallback_flood_example =
    decode-build_fallback_flood sample text (replicate 228 0) tired 300 zero_metrics sample-IsHdr
      (omega arith) (omega arith) (omega arith) (omega arith) refl refl

decode-reencode_example :
    (req : TxRequest) × (reencode_as_unicast_hop zero_metrics
        (frame_of sample text ++ (0 ∷ []))
        27
        77
        60000
      ≡ (zero_metrics, some req))
    × (req.toa_us ≡ 60000)
    × (decode zero_metrics req.frame req.len
        ≡ (zero_metrics, some (sent (unicast sample 77) text, text)))
decode-reencode_example =
    decode-reencode zero_metrics sample text (0 ∷ []) 27 77 60000 sample-IsHdr (omega arith)
      (omega arith) (omega arith) (omega arith) (omega arith)

abbrev reply : List ℕ
reply = frame_of (control_hdr pkt_route_rpl 2 1 5 7 9) (rpl_payload 9 3 2)

built_reply : build_route_rpl 2 1 9 3 2 5 7 255 ≡ some reply
unfolding build_route_rpl
built_reply =
    encode-eq-frame_of (control_hdr pkt_route_rpl 2 1 5 7 9) (rpl_payload 9 3 2) 255 (omega arith)

abbrev receipt : List ℕ
receipt = frame_of (control_hdr pkt_ack 9 1 5 8 6) (ack_payload 0x11223344 0x0102)

built_receipt : build_ack 9 1 0x11223344 0x0102 5 8 255 ≡ some receipt
unfolding build_ack
built_receipt =
    encode-eq-frame_of (control_hdr pkt_ack 9 1 5 8 6) (ack_payload 0x11223344 0x0102) 255
      (omega arith)
