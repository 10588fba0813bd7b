-- ===== src/Routing/Flood.antt =====
-- firmware_core/routing.c: the decision to relay a received packet. The caller passes a budget;
-- the relay path of rivr_layer/rivr_sinks.c and rivr_sources.c always has one.
pub mod Decision
pub mod Chain
use rivr.Common.{ℕ, bit_or, bit_xor, Bool, false, not, ltb, leb, get_or, set, u8, u16}
use rivr.Common.{u32, inc32, ◌+◌, ◌-◌, ◌*◌, ◌/◌, ◌%◌, ◌^◌, ◌==◌, if◌then◌else◌}
use rivr.Metrics.{Metrics}
use rivr.Protocol.{Hdr}
use rivr.Routing.Dedupe.{Cache}
use rivr.Routing.Dedupe
use rivr.Routing.Budget.{Budget, pkt_types}
use rivr.Routing.Budget

-- RIVR_PKT_DEFAULT_TTL, PKT_FLAG_RELAY
abbrev pub default_ttl : ℕ
default_ttl = 15

abbrev pub flag_relay : ℕ
flag_relay = 2

-- `rivr_fwd_result_t`
pub data FwdResult : Type 0 where
  forward drop_dedupe drop_ttl drop_budget drop_loop : FwdResult

-- `routing_loop_guard_hash`, whose value `routing_flood_forward` computes and does not use.
unfoldable pub loop_guard_hash : ℕ → ℕ
loop_guard_hash node_id =
    let h =
      bit_xor (bit_xor (bit_xor (node_id % 256) (node_id / 256 % 256)) (node_id / 65536 % 256))
        (node_id / 16777216 % 256) in
    if h == 0 then 1 else h

-- The header as it is relayed.
unfoldable pub relay_header : Hdr → Hdr
relay_header pkt = record pkt {
  ttl = pkt.ttl - 1;
  hop = u8 (pkt.hop + 1);
  flags = u8 (bit_or pkt.flags flag_relay);
}

-- Step 4 on failure: the drop counters.
unfoldable pub count_drop : Budget → ℕ → Budget
count_drop fb pkt_type = record fb {
  fwd_drop_count =
      if ltb pkt_type pkt_types
      then set fb.fwd_drop_count pkt_type (u16 (get_or fb.fwd_drop_count pkt_type 0 + 1))
      else fb.fwd_drop_count;
  total_fwd_drops = inc32 fb.total_fwd_drops;
}

-- What `routing_flood_forward` reads and writes.
pub record Node : Type 0 where
  pub cache : Cache
  pub budget : Budget
  pub metrics : Metrics

-- `routing_flood_forward`: the node's state, the header and the verdict.
unfoldable pub flood_forward : Node → Hdr → ℕ → ℕ → Node × Hdr × FwdResult
flood_forward n pkt toa_us now_ms =
    let (cache, new) = Dedupe.check n.cache pkt.src_id pkt.pkt_id now_ms in
    let m = n.metrics in
    let (budget, allowed) = Budget.check n.budget pkt.pkt_type toa_us now_ms in
    if not new
    then (
      record n { cache = cache; metrics = record m { rx_dedupe_drop = inc32 m.rx_dedupe_drop } },
      pkt,
      drop_dedupe,
    )
    else if pkt.ttl == 0
    then (
      record n { cache = cache; metrics = record m { rx_ttl_drop = inc32 m.rx_ttl_drop } },
      pkt,
      drop_ttl,
    )
    else if leb default_ttl pkt.hop
    then (
      record n { cache = cache; metrics = record m { rx_invalid_hop = inc32 m.rx_invalid_hop } },
      pkt,
      drop_ttl,
    )
    else if not allowed
    then (record n { cache = cache; budget = count_drop budget pkt.pkt_type }, pkt, drop_budget)
    else (
      record n { cache = cache; budget = Budget.record_fwd budget pkt.pkt_type toa_us now_ms },
      relay_header pkt,
      forward,
    )

-- `routing_should_forward`, the plain decision without a budget.
unfoldable pub should_forward : Cache → Hdr → ℕ → Cache × Hdr × Bool
should_forward c pkt now_ms =
    let (c', new) = Dedupe.check c pkt.src_id pkt.pkt_id now_ms in
    if not new
    then (c', pkt, false)
    else if pkt.ttl == 0
    then (c', pkt, false)
    else (c', relay_header pkt, ltb 0 (pkt.ttl - 1))

-- The three rounds of xorshift32 that spread the jitter.
unfoldable pub xorshift32 : ℕ → ℕ
xorshift32 x =
    let a = u32 (bit_xor x (u32 (x * 2 ^ 13))) in
    let b = u32 (bit_xor a (a / 2 ^ 17)) in u32 (bit_xor b (u32 (b * 2 ^ 5)))

-- `routing_jitter_ticks`
unfoldable pub jitter_ticks : ℕ → ℕ → ℕ → ℕ
jitter_ticks src_id pkt_id max_j =
    let seed = bit_xor src_id (u32 (pkt_id * 2654435761)) in
    if max_j == 0 then 0 else u16 (xorshift32 seed % (max_j + 1))

-- FORWARD_JITTER_MAX_MS and `routing_forward_delay_ms`
abbrev pub jitter_max_ms : ℕ
jitter_max_ms = 200

unfoldable pub forward_delay_ms : ℕ → ℕ → ℕ → ℕ
forward_delay_ms src_id pkt_id pkt_type =
    let seed = bit_xor (bit_xor src_id pkt_id) (u32 (pkt_type * 2 ^ 24)) in
    xorshift32 seed % (jitter_max_ms + 1)
