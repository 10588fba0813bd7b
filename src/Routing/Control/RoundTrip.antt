-- ===== src/Routing/Control/RoundTrip.antt =====
-- The receiver reads the control packets back.
use mathlib.Core.List.{append-nil}
use rivr.Common.{ℕ, refl, some, List, [], arith, length, IsU8, IsU16, IsU32, ◌<◌, ◌≡◌}
use rivr.Metrics.{Metrics}
use rivr.Protocol.{Hdr, IsHdr, decode, encode, at, read16, read32}
use rivr.Protocol.Wire.{decode-encode, sent}
use rivr.Routing.Control.{
  control_hdr, build_route_req, build_route_rpl, build_ack, rpl_payload, ack_payload, pkt_route_req,
  pkt_route_rpl, pkt_ack,
}

control-IsHdr :
    (kind my dst seq pkt n : ℕ)
    → IsU8 kind
    → IsU32 my
    → IsU32 dst
    → IsU16 seq
    → IsU16 pkt
    → IsHdr (control_hdr kind my dst seq pkt n)
control-IsHdr kind my dst seq pkt n hk hm hd hs hp = omega arith

read_back :
    (m : Metrics) (h : Hdr) (p : List ℕ) (cap : ℕ) {frame : List ℕ}
    → IsHdr h
    → 0 < h.pkt_type
    → h.pkt_type < 12
    → length p < 256
    → encode h p cap ≡ some frame
    → decode m frame (length frame) ≡ (m, some (sent h p, p))
read_back m h p cap {frame} v ht ht' hp e =
    rw append-nil at
      (decode-encode m h p [] cap (length frame) v ht (omega arith) hp e (omega arith))

-- A route request that `routing_build_route_req` built decodes to the requester, the target and the
-- ids it was built from, without a payload; the arguments fit their types.
pub decode-build_route_req :
    (m : Metrics) (my target seq pkt cap : ℕ) {frame : List ℕ}
    → IsU32 my
    → IsU32 target
    → IsU16 seq
    → IsU16 pkt
    → build_route_req my target seq pkt cap ≡ some frame
    → decode m frame (length frame) ≡ (m, some (control_hdr pkt_route_req my target seq pkt 0, []))
unfolding build_route_req sent
decode-build_route_req m my target seq pkt cap {frame} hm ht hs hp e =
    read_back m (control_hdr pkt_route_req my target seq pkt 0) [] cap
      (control-IsHdr pkt_route_req my target seq pkt 0 (omega arith) hm ht hs hp) (omega arith)
      (omega arith) (omega arith) e

-- A route reply that `routing_build_route_rpl` built decodes to a payload whose words are the target
-- and the next hop and whose last byte is the hop count; the header names the replier and the
-- requester. The arguments fit their types.
pub decode-build_route_rpl :
    (m : Metrics) (my requester target hop count seq pkt cap : ℕ) {frame : List ℕ}
    → IsU32 my
    → IsU32 requester
    → IsU32 target
    → IsU32 hop
    → IsU16 seq
    → IsU16 pkt
    → build_route_rpl my requester target hop count seq pkt cap ≡ some frame
    → (pl : List ℕ) × (decode m frame (length frame)
        ≡ (m, some (control_hdr pkt_route_rpl my requester seq pkt 9, pl)))
      × (read32 pl 0 ≡ target)
      × (read32 pl 4 ≡ hop)
      × (at pl 8 ≡ count)
unfolding build_route_rpl sent
decode-build_route_rpl m my requester target hop count seq pkt cap {frame} hm hr ht hh hs hp e = (
  rpl_payload target hop count,
  read_back m (control_hdr pkt_route_rpl my requester seq pkt 9) (rpl_payload target hop count) cap
      (control-IsHdr pkt_route_rpl my requester seq pkt 9 (omega arith) hm hr hs hp) (omega arith)
      (omega arith) (omega arith) e,
  omega arith,
  omega arith,
  refl,
)

-- An acknowledgement that `routing_build_ack` built decodes to a payload that holds the source and
-- the packet id of the acknowledged frame, the key of `retry_table_ack`. The arguments fit their
-- types.
pub decode-build_ack :
    (m : Metrics) (my dst src id seq pkt cap : ℕ) {frame : List ℕ}
    → IsU32 my
    → IsU32 dst
    → IsU32 src
    → IsU16 id
    → IsU16 seq
    → IsU16 pkt
    → build_ack my dst src id seq pkt cap ≡ some frame
    → (pl : List ℕ) × (decode m frame (length frame)
        ≡ (m, some (control_hdr pkt_ack my dst seq pkt 6, pl)))
      × (read32 pl 0 ≡ src)
      × (read16 pl 4 ≡ id)
unfolding build_ack sent
decode-build_ack m my dst src id seq pkt cap {frame} hm hd hr hi hs hp e = (
  ack_payload src id,
  read_back m (control_hdr pkt_ack my dst seq pkt 6) (ack_payload src id) cap
      (control-IsHdr pkt_ack my dst seq pkt 6 (omega arith) hm hd hs hp) (omega arith) (omega arith)
      (omega arith) e,
  omega arith,
  omega arith,
)
