-- ===== src/Tests/Fabric.antt =====
-- The congestion fabric at concrete inputs.
use rivr.Common.{refl, arith, leb, replicate, ◌≤◌, ◌≡◌, if◌then◌else◌}
use rivr.Metrics.{zero_metrics}
use rivr.Protocol.{Hdr}
use rivr.Fabric.{Fabric, zero_bucket, send_now}
unfoldable use rivr.Fabric.{advance, score, decide_relay}
use rivr.Fabric.Window.{IsValid, bucket_at, advance-bucket_at}
use rivr.Fabric.Relay.{is_traffic, verdict_of, extra_of, decide_relay-verdict}

-- A minute of three duty-cycle refusals in each second, up to second 100.
abbrev busy : Fabric
busy = record {
  buckets = replicate 60 (record zero_bucket { tx_blocked_dc = 3 });
  last_bucket_sec = 100;
  relay_drop_total = 0;
  relay_delay_total = 0;
  relay_total = 0;
  blocked_dc_total = 180;
  fail_total = 0;
  ok_total = 0;
  rx_total = 0;
  last_score = 0;
}

abbrev chat : Hdr
chat = record {
  magic = 21078;
  version = 1;
  pkt_type = 1;
  flags = 0;
  ttl = 7;
  hop = 0;
  net_id = 0;
  src_id = 9;
  dst_id = 0;
  seq = 1;
  pkt_id = 1;
  payload_len = 0;
  loop_guard = 0;
}

busy-IsValid : IsValid busy
busy-IsValid = record { size = refl; clock = omega arith }

advance-bucket_at_example :
    bucket_at (advance busy 130000) 75 ≡ (if leb 75 100 then bucket_at busy 75 else zero_bucket)
advance-bucket_at_example =
    advance-bucket_at busy 130000 75 busy-IsValid (omega arith) (omega arith) (omega arith)
      (omega arith)

decide_relay-verdict_example :
    let (f', m', verdict, extra) = decide_relay busy zero_metrics chat 100000 in
    let s = score (advance busy 100000) in
    (verdict ≡ (if is_traffic chat then verdict_of s else send_now))
    × (extra ≡ (if is_traffic chat then extra_of s else 0))
    × (s ≤ 100)
decide_relay-verdict_example = decide_relay-verdict busy zero_metrics chat 100000
