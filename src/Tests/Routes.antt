-- ===== src/Tests/Routes.antt =====
-- The route cache and the answers to route requests at concrete inputs.
use rivr.Common.{refl, true, some, [], arith, ◌≤◌, ◌≡◌, ◌⊎◌, ◌∷◌}
use rivr.Metrics.{zero_metrics}
use rivr.Protocol.{Hdr}
use rivr.RouteCache.{
  Entry, Cache, Route, is_valid, expire_entry, lookup_scan, lookup, update, can_reply_for_dst,
}
use rivr.RouteCache.Lookup.{lookup-update}
use rivr.Routing.Control.{pkt_route_req, should_reply_route_req}
use rivr.Routing.Control.Reply.{Advertised, should_reply-Advertised}

-- A full table of two routes.
abbrev near : Entry
near = record {
  dst_id = 9;
  next_hop = 3;
  last_seen_ms = 1000;
  hop_count = 2;
  metric = 60;
  flags = 1;
}

abbrev far : Entry
far = record {
  dst_id = 8;
  next_hop = 3;
  last_seen_ms = 1000;
  hop_count = 5;
  metric = 40;
  flags = 1;
}

abbrev routes : Cache
routes = record { entries = near ∷ far ∷ []; count = 2; evict_hand = 1 }

abbrev news : Route
news = record { dst_id = 7; next_hop = 4; hop_count = 1; metric = 80; flags = 4 }

lookup-update_example :
    (e : Entry) × ((lookup (update routes zero_metrics news 2000).0 zero_metrics 7 2000).2 ≡ some e)
    × (e.dst_id ≡ 7)
    × (e.last_seen_ms ≡ 2000)
    × (e.hop_count ≤ 1)
lookup-update_example =
    lookup-update routes zero_metrics zero_metrics news 2000 (omega arith) (omega arith)
      (omega arith) (omega arith) (omega arith)

near_found : (lookup routes zero_metrics 9 2000).2 ≡ some near
unfolding lookup lookup_scan expire_entry is_valid
near_found = refl

abbrev question : Hdr
question = record {
  magic = 0x5256;
  version = 1;
  pkt_type = 3;
  flags = 0;
  ttl = 4;
  hop = 0;
  net_id = 0;
  src_id = 1;
  dst_id = 9;
  seq = 5;
  pkt_id = 6;
  payload_len = 0;
  loop_guard = 0;
}

near_offered : (should_reply_route_req question 2 routes zero_metrics 2000).2 ≡ true
unfolding should_reply_route_req can_reply_for_dst lookup lookup_scan expire_entry is_valid
near_offered = refl

should_reply-Advertised_example :
    (question.pkt_type ≡ pkt_route_req)
    × ((question.dst_id ≡ 2) ⊎ Advertised routes zero_metrics 9 2000)
should_reply-Advertised_example =
    should_reply-Advertised question 2 2000 routes zero_metrics near_offered
