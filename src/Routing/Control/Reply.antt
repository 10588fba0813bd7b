-- ===== src/Routing/Control/Reply.antt =====
-- Who answers a route request.
use rivr.Common.{ℕ, bit_and, inl, inr, true, some, arith, ==→eq, Bool-cases, Option-cases}
use rivr.Common.{◌≤◌, ◌≡◌, ◌⊎◌, ◌==◌}
use rivr.Metrics.{Metrics}
use rivr.Protocol.{Hdr}
use rivr.RouteCache.{
  Entry, Cache, lookup, entry_is_alive, flag_pending, reply_min_metric, reply_max_hops,
  can_reply_for_dst,
}
use rivr.RouteCache.Lookup.{lookup-alive}
use rivr.Routing.Control.{pkt_route_req, should_reply_route_req}

-- A route that a node may pass on.
abbrev pub Advertised : Cache → Metrics → ℕ → ℕ → Type 0
Advertised cache m dst now =
    (e : Entry) × ((lookup cache m dst now).2 ≡ some e)
    × (e.dst_id ≡ dst)
    × (entry_is_alive e now ≡ true)
    × (bit_and e.flags flag_pending ≡ 0)
    × (reply_min_metric ≤ e.metric)
    × (e.hop_count ≤ reply_max_hops)

can_reply-Advertised :
    (cache : Cache) (m : Metrics) (dst now : ℕ)
    → (can_reply_for_dst cache m dst now).2 ≡ true
    → Advertised cache m dst now
unfolding can_reply_for_dst
can_reply-Advertised cache m dst now h = elim (Option-cases (lookup cache m dst now).2) [
  | inl missing ↦ absurd (ground (arith, rw (missing, can_reply_for_dst) at h))
  | inr (e, there) ↦
      let k = rw (there, can_reply_for_dst) at h in
      let (dest, alive) = lookup-alive cache m dst now e there in
      (e, there, dest, alive, ground (arith, k), ground (arith, k), ground (arith, k))
]

-- A node that answers a packet by `routing_should_reply_route_req` is asked by a route request, and
-- is its target or holds a route to the target that is live and not pending, has a metric of at
-- least 30 and at most 6 hops.
pub should_reply-Advertised :
    (pkt : Hdr) (my now : ℕ) (cache : Cache) (m : Metrics)
    → (should_reply_route_req pkt my cache m now).2 ≡ true
    → (pkt.pkt_type ≡ pkt_route_req) × ((pkt.dst_id ≡ my) ⊎ Advertised cache m pkt.dst_id now)
unfolding should_reply_route_req
should_reply-Advertised pkt my now cache m h = elim (Bool-cases (pkt.pkt_type == pkt_route_req)) [
  | inr other ↦ absurd (ground (arith, rw (other, should_reply_route_req) at h))
  | inl asked ↦
      let kind = ==→eq pkt.pkt_type pkt_route_req asked in
      elim (Bool-cases (pkt.dst_id == my)) [
        | inl own ↦ (kind, inl (==→eq pkt.dst_id my own))
        | inr cached ↦ (
          kind,
          inr (
              can_reply-Advertised cache m pkt.dst_id now
                (rw (asked, cached, should_reply_route_req) at h)),
        )
      ]
]
