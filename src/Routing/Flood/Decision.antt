-- ===== src/Routing/Flood/Decision.antt =====
-- When a packet is relayed, and what a relay changes.
use rivr.Common.{ℕ, Bool, true, false, not, arith, ltb, ◌≤◌, ◌<◌, ◌≡◌, ◌&&◌}
use rivr.Common.{if◌then◌else◌}
use rivr.Protocol.{Hdr}
use rivr.Routing.Dedupe
use rivr.Routing.Dedupe.Memory
use rivr.Routing.Budget
use rivr.Routing.Flood.{
  FwdResult, forward, drop_loop, default_ttl, relay_header, Node, flood_forward, jitter_ticks,
  jitter_max_ms, forward_delay_ms,
}

-- The packet was relayed; it was dropped as a loop.
abbrev pub is_forward : FwdResult → Bool
is_forward forward = true
is_forward _ = false

abbrev pub is_loop : FwdResult → Bool
is_loop drop_loop = true
is_loop _ = false

-- The conditions for a relay, from the packet cache, the header and the budget.
abbrev pub accepts : Node → Hdr → ℕ → ℕ → Bool
accepts n pkt toa now =
    not (Memory.remembered n.cache.entries pkt.src_id pkt.pkt_id now)
    && ltb 0 pkt.ttl
    && ltb pkt.hop default_ttl
    && (Budget.check n.budget pkt.pkt_type toa now).1

-- With a well-formed packet cache, `routing_flood_forward` relays a packet exactly if the cache
-- does not remember it, its TTL is positive, it has made fewer than 15 hops and the budget allows
-- it. The header changes only then. The cache is the one that `routing_dedupe_check` leaves, and
-- is well formed. The verdict is never that of a loop.
pub flood_forward-accepts :
    (n : Node) (pkt : Hdr) (toa now : ℕ)
    → Memory.IsValid n.cache
    → let (n', pkt', verdict) = flood_forward n pkt toa now in
      (is_forward verdict ≡ accepts n pkt toa now)
      × (is_loop verdict ≡ false)
      × (pkt' ≡ (if accepts n pkt toa now then relay_header pkt else pkt))
      × (n'.cache ≡ (Dedupe.check n.cache pkt.src_id pkt.pkt_id now).0)
      × Memory.IsValid n'.cache
unfolding flood_forward
flood_forward-accepts n pkt toa now v =
    ground (arith, Memory.check-remembered n.cache pkt.src_id pkt.pkt_id now v)

-- The delay of a relay is at most 200 ms, and the jitter in ticks at most the given maximum if
-- that is below 65536.
pub delays_bounded :
    (src pkt kind max_j : ℕ)
    → max_j < 65536
    → (forward_delay_ms src pkt kind ≤ jitter_max_ms) × (jitter_ticks src pkt max_j ≤ max_j)
unfolding forward_delay_ms jitter_ticks
delays_bounded src pkt kind max_j h = (omega arith, ground arith)
