-- ===== src/Routing/Control.antt =====
-- firmware_core/routing.c: the control packets that the mesh builds, and their payloads
-- (firmware_core/protocol.h). A buffer is the list of the bytes written to it.
pub mod RoundTrip
pub mod Reply
use rivr.Common.{ℕ, Bool, true, false, not, Option, List, [], ◌/◌, ◌%◌, ◌∷◌, ◌++◌, ◌==◌}
use rivr.Common.{if◌then◌else◌}
use rivr.Metrics.{Metrics}
use rivr.RouteCache.{Cache, can_reply_for_dst}
use rivr.Protocol.{Hdr, encode, magic_word, proto_ver}

-- PKT_ROUTE_REQ, PKT_ROUTE_RPL, PKT_ACK, ROUTE_REQ_TTL
abbrev pub pkt_route_req : ℕ
pkt_route_req = 3

abbrev pub pkt_route_rpl : ℕ
pkt_route_rpl = 4

abbrev pub pkt_ack : ℕ
pkt_ack = 5

abbrev pub route_req_ttl : ℕ
route_req_ttl = 4

-- The bytes of a little-endian word.
abbrev pub write32 : ℕ → List ℕ
write32 n = n % 256 ∷ n / 256 % 256 ∷ n / 65536 % 256 ∷ n / 16777216 % 256 ∷ []

abbrev pub write16 : ℕ → List ℕ
write16 n = n % 256 ∷ n / 256 % 256 ∷ []

-- The header that the three builders share.
abbrev pub control_hdr : ℕ → ℕ → ℕ → ℕ → ℕ → ℕ → Hdr
control_hdr pkt_type my_id dst_id seq pkt_id payload_len = record {
  magic = magic_word;
  version = proto_ver;
  pkt_type = pkt_type;
  flags = 0;
  ttl = route_req_ttl;
  hop = 0;
  net_id = 0;
  src_id = my_id;
  dst_id = dst_id;
  seq = seq;
  pkt_id = pkt_id;
  payload_len = payload_len;
  loop_guard = 0;
}

-- `routing_build_route_req`
unfoldable pub build_route_req : ℕ → ℕ → ℕ → ℕ → ℕ → Option (List ℕ)
build_route_req my_id target_id seq pkt_id out_cap =
    encode (control_hdr pkt_route_req my_id target_id seq pkt_id 0) [] out_cap

-- The payload of a route reply.
abbrev pub rpl_payload : ℕ → ℕ → ℕ → List ℕ
rpl_payload target_id next_hop hop_count = write32 target_id ++ write32 next_hop ++ (hop_count ∷ [])

-- `routing_build_route_rpl`
unfoldable pub build_route_rpl : ℕ → ℕ → ℕ → ℕ → ℕ → ℕ → ℕ → ℕ → Option (List ℕ)
build_route_rpl my_id requester_id target_id next_hop hop_count seq pkt_id out_cap =
    encode (control_hdr pkt_route_rpl my_id requester_id seq pkt_id 9)
      (rpl_payload target_id next_hop hop_count) out_cap

-- The payload of an acknowledgement.
abbrev pub ack_payload : ℕ → ℕ → List ℕ
ack_payload ack_src_id ack_pkt_id = write32 ack_src_id ++ write16 ack_pkt_id

-- `routing_build_ack`
unfoldable pub build_ack : ℕ → ℕ → ℕ → ℕ → ℕ → ℕ → ℕ → Option (List ℕ)
build_ack my_id dst_id ack_src_id ack_pkt_id seq pkt_id out_cap =
    encode (control_hdr pkt_ack my_id dst_id seq pkt_id 6) (ack_payload ack_src_id ack_pkt_id)
      out_cap

-- `routing_should_reply_route_req`; the lookup changes the cache and the counters.
unfoldable pub should_reply_route_req : Hdr → ℕ → Cache → Metrics → ℕ → Cache × Metrics × Bool
should_reply_route_req pkt my_id cache m now_ms =
    let cached = can_reply_for_dst cache m pkt.dst_id now_ms in
    if not (pkt.pkt_type == pkt_route_req)
    then (cache, m, false)
    else if pkt.dst_id == my_id
    then (cache, m, true)
    else cached
