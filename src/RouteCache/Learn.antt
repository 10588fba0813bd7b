-- ===== src/RouteCache/Learn.antt =====
-- firmware_core/route_cache.c: the routes that received frames teach.
use rivr.Common.{ℕ, inl, inr, true, false, not, some, arith, Bool-cases, length, IsU32}
use rivr.Common.{u8, ℤ, clamp_add, ◌+◌, ◌≤◌, ◌<◌, ◌≡◌, ◌≢◌, ◌⊎◌, ◌&&◌, ◌==◌}
use rivr.Common.{if◌then◌else◌}
use rivr.Metrics.{Metrics}
use rivr.RouteCache.{Entry, Cache, Route, lookup, update}
use rivr.RouteCache.Lookup.{lookup-update}

-- RCACHE_FLAG_VALID | RCACHE_FLAG_DIRECT
abbrev pub flags_direct : ℕ
flags_direct = 5

-- `link_to_metric`
unfoldable pub link_to_metric : ℤ → ℤ → ℕ
link_to_metric rssi_dbm snr_db = u8 (clamp_add rssi_dbm 140 80 + clamp_add snr_db 10 20)

-- `route_cache_learn_rx`
unfoldable pub learn_rx : Cache → Metrics → ℕ → ℕ → ℕ → ℤ → ℤ → ℕ → Cache × Metrics
learn_rx cache m src_id from_id hop_count rssi_dbm snr_db now_ms =
    let metric = link_to_metric rssi_dbm snr_db in
    let direct =
      update cache m
        (record {
          dst_id = src_id;
          next_hop = src_id;
          hop_count = 1;
          metric = metric;
          flags = flags_direct;
        })
        now_ms in
    let relayed =
      update cache m
        (record {
          dst_id = src_id;
          next_hop = from_id;
          hop_count = u8 (hop_count + 1);
          metric = metric;
          flags = 1;
        })
        now_ms in
    if src_id == 0
    then (cache, m)
    else if hop_count == 0
    then direct
    else if not (from_id == 0) && not (from_id == src_id)
    then relayed
    else (cache, m)

-- The metric of a link is at most 100.
link_to_metric-le : (rssi snr : ℤ) → link_to_metric rssi snr ≤ 100
unfolding link_to_metric
link_to_metric-le rssi snr = ground arith

-- After a frame from a source other than 0 that came directly, or by a known relay that is not the
-- source, a lookup finds a route to the source: confirmed just now and with at most one hop more
-- than the frame had made. The eviction cursor points into the table, the frame has made fewer than
-- 255 hops and the clock fits its type.
pub learn_rx-lookup :
    (cache : Cache) (m m' : Metrics) (src from hops : ℕ) (rssi snr : ℤ) (now : ℕ)
    → 0 < src
    → 0 < from
    → (hops ≡ 0) ⊎ (from ≢ src)
    → hops < 255
    → IsU32 now
    → cache.evict_hand < length cache.entries
    → (e : Entry) × ((lookup (learn_rx cache m src from hops rssi snr now).0 m' src now).2 ≡ some e)
      × (e.dst_id ≡ src)
      × (e.last_seen_ms ≡ now)
      × (e.hop_count ≤ hops + 1)
unfolding learn_rx
learn_rx-lookup cache m m' src from hops rssi snr now hs hf way hh hn hc =
    elim (Bool-cases (hops == 0)) [
      | inl direct ↦
          let r : Route = record {
            dst_id = src;
            next_hop = src;
            hop_count = 1;
            metric = metric;
            flags = flags_direct;
          } in
          let (e, there, dest, seen, few) =
            lookup-update cache m m' r now hs hs (omega arith) hn hc in
          rw (sent, direct, learn_rx) (e, there, dest, seen, omega (arith, few))
      | inr relayed ↦
          let r : Route = record {
            dst_id = src;
            next_hop = from;
            hop_count = u8 (hops + 1);
            metric = metric;
            flags = 1;
          } in
          let (e, there, dest, seen, few) =
            lookup-update cache m m' r now hs hf (omega arith) hn hc in
          let known : (not (from == 0) && not (from == src)) ≡ true =
            ground (arith, relayed, way) in
          rw (sent, relayed, known, learn_rx) (e, there, dest, seen, omega (arith, few))
    ]
  where
    metric : ℕ
    metric = link_to_metric rssi snr

    sent : (src == 0) ≡ false
    sent = ground arith
