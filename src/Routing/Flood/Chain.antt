-- ===== src/Routing/Flood/Chain.antt =====
-- How far a packet travels when one node after the other relays it.
use rivr.Common.{ℕ, inl, inr, Option, none, some, List, [], arith, Option-cases, length}
use rivr.Common.{◌+◌, ◌≤◌, ◌≡◌, ◌∷◌}
use rivr.Protocol.{Hdr}
use rivr.Routing.Flood.{FwdResult, forward, default_ttl, relay_header, Node, flood_forward}

-- A node that receives the packet, the time on air of the frame and the node's clock.
pub record Visit : Type 0 where
  pub node : Node
  pub toa_us : ℕ
  pub now_ms : ℕ

unfoldable pub passed : Node × Hdr × FwdResult → Option Hdr
passed (n, pkt, forward) = some pkt
passed (n, pkt, _) = none

-- The header after all the visits, if each of the nodes relayed the packet.
unfoldable pub flight : Hdr → List Visit → Option Hdr
flight pkt [] = some pkt
flight pkt (v ∷ vs) = elim (passed (flood_forward v.node pkt v.toa_us v.now_ms)) [
  | none ↦ none
  | some pkt' ↦ flight pkt' vs
]

-- What a packet keeps on its way.
abbrev pub SameContent : Hdr → Hdr → Type 0
SameContent a b =
    (a.pkt_type ≡ b.pkt_type)
    × (a.src_id ≡ b.src_id)
    × (a.dst_id ≡ b.dst_id)
    × (a.pkt_id ≡ b.pkt_id)
    × (a.payload_len ≡ b.payload_len)
    × (a.loop_guard ≡ b.loop_guard)

hop :
    (n : Node) (pkt pkt' : Hdr) (toa now : ℕ)
    → passed (flood_forward n pkt toa now) ≡ some pkt'
    → pkt.hop ≤ default_ttl
    → (pkt'.ttl + 1 ≡ pkt.ttl)
      × (pkt'.hop ≡ pkt.hop + 1)
      × (pkt'.hop ≤ default_ttl)
      × SameContent pkt pkt'
unfolding flood_forward passed relay_header
hop n pkt pkt' toa now h small = ground arith

-- A packet that started with at most 15 hops and that each of a sequence of nodes relayed had a
-- TTL of at least their number, and has not made more than 15 hops; its TTL and its hop count moved
-- by one per node, its addresses, its ids, its type, its payload length and its loop guard did not
-- change.
pub flight_bounded :
    (pkt pkt' : Hdr) (visits : List Visit)
    → pkt.hop ≤ default_ttl
    → flight pkt visits ≡ some pkt'
    → (pkt'.ttl + length visits ≡ pkt.ttl)
      × (pkt'.hop ≡ pkt.hop + length visits)
      × (pkt'.hop ≤ default_ttl)
      × SameContent pkt pkt'
unfolding flight
flight_bounded pkt pkt' [] h e = ground arith
flight_bounded pkt pkt' (v ∷ vs) h e =
    elim (Option-cases (passed (flood_forward v.node pkt v.toa_us v.now_ms))) [
      | inl e' ↦ ground (arith, rw (e', flight) at e)
      | inr (p, e') ↦
          let s = hop v.node pkt p v.toa_us v.now_ms e' h in
          let rest = flight_bounded p pkt' vs s.2 (rw (e', flight) at e) in ground (arith, s, rest)
    ]
