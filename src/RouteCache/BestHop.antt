-- ===== src/RouteCache/BestHop.antt =====
-- firmware_core/route_cache.c: the next hop of the best score, from the learnt routes or, failing them,
-- the best neighbour. The argument `airtime_routing` is the build flag RIVR_FEATURE_AIRTIME_ROUTING;
-- the neighbour table may be missing, as the null pointer of the source.
use rivr.Common.{ℕ, bit_and, Bool, not, Option, none, some, List, [], ltb, leb, u16, u32}
use rivr.Common.{inc32, sub32, ◌+◌, ◌-◌, ◌*◌, ◌/◌, ◌&&◌, ◌||◌, ◌∷◌, ◌==◌, if◌then◌else◌}
use rivr.Metrics.{Metrics}
use rivr.Neighbor.{Neighbor, Table, score_unicast_min, entry_at, flag_direct}
unfoldable use rivr.Neighbor.{find}
unfoldable use rivr.Neighbor.Score.{link_score, best}
use rivr.RouteCache.{Entry, Cache, expiry_ms, flag_pending}
unfoldable use rivr.RouteCache.{is_valid, expire_entry}

-- `rivr_route_t`
pub record BestRoute : Type 0 where
  pub dest_id : ℕ
  pub next_hop_id : ℕ
  pub metric : ℕ
  pub hop_count : ℕ
  pub expires_ms : ℕ

-- The metric with the weight of the hop count and the decay by age, in `entry_composite_score`.
abbrev pub aged_metric : Entry → ℕ → ℕ
aged_metric e age =
    let weighted =
      if leb 3 e.hop_count
      then e.metric * 50 / 100
      else if e.hop_count == 2
      then e.metric * 75 / 100
      else e.metric in
    u32 (weighted * (expiry_ms - age)) / expiry_ms

-- The penalty for the link to the next hop.
abbrev pub penalised : Bool → ℕ → Neighbor → ℕ
penalised airtime_routing score n =
    if airtime_routing
    then u32 (score * 8) / (if leb 8 n.etx_x8 then n.etx_x8 else 8)
    else u32 (score * sub32 100 n.loss_rate) / 100

abbrev pub cap_100 : ℕ → ℕ
cap_100 score = if ltb 100 score then 100 else score

-- `entry_composite_score`, with the neighbour table whose flags `neighbor_find` brings up to date.
unfoldable pub entry_composite_score : Bool → Entry → Option Table → ℕ → Option Table × ℕ
entry_composite_score airtime_routing e none now_ms =
    let age = sub32 now_ms e.last_seen_ms in
    if leb expiry_ms age then (none, 0) else (none, cap_100 (aged_metric e age))
entry_composite_score airtime_routing e (some ntbl) now_ms =
    let age = sub32 now_ms e.last_seen_ms in
    let (ntbl', found) = find ntbl e.next_hop now_ms in
    if leb expiry_ms age then (some ntbl, 0) else elim found [
      | none ↦ (some ntbl', cap_100 (aged_metric e age))
      | some i ↦
          (some ntbl', cap_100 (penalised airtime_routing (aged_metric e age) (entry_at ntbl' i)))
    ]

-- `e->flags & RCACHE_FLAG_PENDING`
abbrev pub is_pending : Entry → Bool
is_pending e = not (bit_and e.flags flag_pending == 0)

-- What the loop of `route_cache_best_hop` carries.
pub record Search : Type 0 where
  pub ntbl : Option Table
  pub best_entry : Option Entry
  pub best_score : ℕ

-- One round of the loop for an entry that is usable.
unfoldable pub weigh : Bool → Search → Entry → ℕ → Search
weigh airtime_routing s e now_ms =
    let (ntbl, sc) = entry_composite_score airtime_routing e s.ntbl now_ms in
    let better = ltb s.best_score sc in
    record {
      ntbl = ntbl;
      best_entry = if better then some e else s.best_entry;
      best_score = if better then sc else s.best_score;
    }

-- The loop of `route_cache_best_hop`.
unfoldable pub search : Bool → List Entry → Search → ℕ → ℕ → List Entry × Search
search airtime_routing [] s dst_id now_ms = ([], s)
search airtime_routing (e ∷ es) s dst_id now_ms =
    let (e', gone) = expire_entry e now_ms in
    let skip = gone || (not (is_valid e') || is_pending e') in
    let other = not (e.dst_id == dst_id) in
    let s' = if other || skip then s else weigh airtime_routing s e' now_ms in
    let (es', found) = search airtime_routing es s' dst_id now_ms in
    ((if other then e else e') ∷ es', found)

-- The counters of a route that was selected, and of none.
abbrev pub count_selected : Bool → Metrics → Metrics
count_selected airtime_routing m = record m {
  neighbor_route_used_total = inc32 m.neighbor_route_used_total;
  airtime_route_selected_total =
      if airtime_routing
      then inc32 m.airtime_route_selected_total
      else m.airtime_route_selected_total;
}

abbrev pub count_failed : Bool → Metrics → Metrics
count_failed airtime_routing m = record m {
  route_cache_miss_total = inc32 m.route_cache_miss_total;
  neighbor_route_failed_total = inc32 m.neighbor_route_failed_total;
  airtime_route_fallback_total =
      if airtime_routing
      then inc32 m.airtime_route_fallback_total
      else m.airtime_route_fallback_total;
}

-- The neighbour of tier 2, if it may forward.
unfoldable pub forwarder : Bool → Option Table → ℕ → Option Neighbor
forwarder airtime_routing none now_ms = none
forwarder airtime_routing (some ntbl) now_ms = elim (best airtime_routing ntbl now_ms) [
  | none ↦ none
  | some nb ↦
      if not (bit_and nb.flags flag_direct == 0) && leb score_unicast_min (link_score nb now_ms)
      then some nb
      else none
]

-- `route_cache_best_hop`: the cache, the neighbour table, the counters, and what goes through `out`.
unfoldable pub best_hop :
    Bool
    → Cache
    → Option Table
    → Metrics
    → ℕ
    → ℕ
    → Cache × Option Table × Metrics × Option BestRoute
best_hop airtime_routing cache ntbl m dst_id now_ms =
    let start : Search = record { ntbl = ntbl; best_entry = none; best_score = 0 } in
    let (es, s) = search airtime_routing cache.entries start dst_id now_ms in
    let cache' : Cache = record cache { entries = es } in
    if dst_id == 0 then (cache, ntbl, m, none) else elim s.best_entry [
      | some e ↦ (
        cache',
        s.ntbl,
        count_selected airtime_routing
            (record m { route_cache_hit_total = inc32 m.route_cache_hit_total }),
        some (record {
          dest_id = dst_id;
          next_hop_id = e.next_hop;
          metric = u16 s.best_score;
          hop_count = e.hop_count;
          expires_ms = u32 (e.last_seen_ms + expiry_ms);
        }),
      )
      | none ↦ elim (forwarder airtime_routing s.ntbl now_ms) [
        | none ↦ (cache', s.ntbl, count_failed airtime_routing m, none)
        | some nb ↦ (
          cache',
          s.ntbl,
          count_selected airtime_routing m,
          some (record {
            dest_id = dst_id;
            next_hop_id = nb.neighbor_id;
            metric = link_score nb now_ms;
            hop_count = 2;
            expires_ms = u32 (nb.last_seen_ms + 120000);
          }),
        )
      ]
    ]
