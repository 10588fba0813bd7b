-- ===== src/RouteCache.antt =====
-- firmware_core/route_cache.h and route_cache.c: the next hops that the node has learnt.
-- RCACHE_SIZE is a build setting: the size of the table is the length of `entries`.
pub mod Lookup
pub mod Learn
pub mod BestHop
pub mod Usable
pub mod Refreshed
pub mod Forwarder
use rivr.Common.{ℕ, suc, bit_and, bit_or, Bool, true, false, not, Option, none, some}
use rivr.Common.{List, [], ltb, leb, length, set, replicate, count_if, u8, inc32, sub32}
use rivr.Common.{◌+◌, ◌-◌, ◌%◌, ◌&&◌, ◌||◌, ◌∷◌, ◌==◌, if◌then◌else◌}
use rivr.Metrics.{Metrics}

-- RCACHE_EXPIRY_MS, RCACHE_METRIC_HYSTERESIS, RCACHE_REPLY_MIN_METRIC, RCACHE_REPLY_MAX_HOPS
abbrev pub expiry_ms : ℕ
expiry_ms = 120000

abbrev pub metric_hysteresis : ℕ
metric_hysteresis = 10

abbrev pub reply_min_metric : ℕ
reply_min_metric = 30

abbrev pub reply_max_hops : ℕ
reply_max_hops = 6

-- RCACHE_FLAG_VALID, RCACHE_FLAG_PENDING
abbrev pub flag_valid : ℕ
flag_valid = 1

abbrev pub flag_pending : ℕ
flag_pending = 2

-- `route_cache_entry_t`
pub record Entry : Type 0 where
  pub dst_id : ℕ
  pub next_hop : ℕ
  pub last_seen_ms : ℕ
  pub hop_count : ℕ
  pub metric : ℕ
  pub flags : ℕ

-- `route_cache_t`
pub record Cache : Type 0 where
  pub entries : List Entry
  pub count : ℕ
  pub evict_hand : ℕ

abbrev pub empty : Entry
empty = record { dst_id = 0; next_hop = 0; last_seen_ms = 0; hop_count = 0; metric = 0; flags = 0 }

-- `e->flags & RCACHE_FLAG_VALID`
unfoldable pub is_valid : Entry → Bool
is_valid e = not (bit_and e.flags flag_valid == 0)

-- `entry_is_alive`
unfoldable pub entry_is_alive : Entry → ℕ → Bool
entry_is_alive e now_ms =
    if not (is_valid e) then false else leb (sub32 now_ms e.last_seen_ms) expiry_ms

-- `expire_entry`: the entry, and whether it was active and has expired.
unfoldable pub expire_entry : Entry → ℕ → Entry × Bool
expire_entry e now_ms =
    if not (is_valid e)
    then (e, false)
    else if ltb expiry_ms (sub32 now_ms e.last_seen_ms)
    then (empty, true)
    else (e, false)

-- `route_cache_init`
unfoldable pub init : ℕ → Cache
init size = record { entries = replicate size empty; count = 0; evict_hand = 0 }

-- The loop of `route_cache_lookup`.
unfoldable pub lookup_scan : List Entry → ℕ → ℕ → List Entry × Option Entry
lookup_scan [] dst_id now_ms = ([], none)
lookup_scan (e ∷ es) dst_id now_ms =
    let rest = lookup_scan es dst_id now_ms in
    let (e', gone) = expire_entry e now_ms in
    if not (e.dst_id == dst_id)
    then (e ∷ rest.0, rest.1)
    else if gone
    then (e' ∷ es, none)
    else if is_valid e'
    then (e' ∷ es, some e')
    else (e' ∷ rest.0, rest.1)

-- `route_cache_lookup`
unfoldable pub lookup : Cache → Metrics → ℕ → ℕ → Cache × Metrics × Option Entry
lookup cache m dst_id now_ms =
    let (es, found) = lookup_scan cache.entries dst_id now_ms in
    let cache' : Cache = record cache { entries = es } in
    if dst_id == 0 then (cache, m, none) else elim found [
      | none ↦ (cache', record m { route_cache_miss_total = inc32 m.route_cache_miss_total }, none)
      | some e ↦
          (cache', record m { route_cache_hit_total = inc32 m.route_cache_hit_total }, some e)
    ]

-- A route that `route_cache_update` is told.
pub record Route : Type 0 where
  pub dst_id : ℕ
  pub next_hop : ℕ
  pub hop_count : ℕ
  pub metric : ℕ
  pub flags : ℕ

abbrev pub better : Route → Entry → Bool
better r e =
    ltb r.hop_count e.hop_count
    || (r.hop_count == e.hop_count && ltb (e.metric + metric_hysteresis) r.metric)

-- A known route: changed if the new one is better, and refreshed.
unfoldable pub refresh : Route → Entry → ℕ → Entry
refresh r e now_ms =
    if better r e
    then record e {
      next_hop = r.next_hop;
      hop_count = r.hop_count;
      metric = r.metric;
      flags = u8 (bit_or r.flags flag_valid);
      last_seen_ms = now_ms;
    }
    else record e { last_seen_ms = now_ms }

-- An unknown route as it is written.
unfoldable pub write : Route → ℕ → Entry
write r now_ms = record {
  dst_id = r.dst_id;
  next_hop = r.next_hop;
  last_seen_ms = now_ms;
  hop_count = r.hop_count;
  metric = r.metric;
  flags = u8 (bit_or r.flags flag_valid);
}

-- What the loop of `route_cache_update` found: the route, or the first free slot, if there is one.
pub data Scan : Type 0 where
  known : List Entry → Scan
  absent : List Entry → Option ℕ → Scan

-- The scan with an entry in front that was not the route.
abbrev pub behind : Entry → Scan → Scan
behind e (known es) = known (e ∷ es)
behind e (absent es none) = absent (e ∷ es) (if is_valid e then none else some 0)
behind e (absent es (some i)) = absent (e ∷ es) (some (if is_valid e then suc i else 0))

-- The loop of `route_cache_update`.
unfoldable pub update_scan : List Entry → Route → ℕ → Scan
update_scan [] r now_ms = absent [] none
update_scan (e ∷ es) r now_ms =
    let e' = (expire_entry e now_ms).0 in
    let rest = update_scan es r now_ms in
    if e'.dst_id == r.dst_id && is_valid e'
    then known (refresh r e' now_ms ∷ es)
    else behind e' rest

-- `route_cache_update`
unfoldable pub update : Cache → Metrics → Route → ℕ → Cache × Metrics
update cache m r now_ms =
    let size = length cache.entries in
    let idx = cache.evict_hand in
    let stored = elim (update_scan cache.entries r now_ms) as (λ _. Cache × Metrics) [
      | known es ↦ (record cache { entries = es }, m)
      | absent es (some i) ↦ (
        record cache {
          entries = set es i (write r now_ms);
          count = if ltb cache.count size then cache.count + 1 else cache.count;
        },
        m,
      )
      | absent es none ↦ (
        record cache { entries = set es idx (write r now_ms); evict_hand = (idx + 1) % size },
        record m { rcache_evict = inc32 m.rcache_evict },
      )
    ] in
    if r.dst_id == 0 || r.next_hop == 0 then (cache, m) else stored

-- `rcache_tx_decision_t`
pub data TxDecision : Type 0 where
  flood unicast pending : TxDecision

-- `route_cache_tx_decide`; the next hop is what goes through `next_hop_out`.
unfoldable pub tx_decide : Cache → Metrics → ℕ → ℕ → Cache × Metrics × TxDecision × ℕ
tx_decide cache m dst_id now_ms =
    let (cache', m', found) = lookup cache m dst_id now_ms in
    if dst_id == 0
    then (cache, m, flood, 0)
    else elim found [ none ↦ (cache', m', flood, 0) | some e ↦ (cache', m', unicast, e.next_hop) ]

-- The loop of `route_cache_expire`: the entries, the counter and the number evicted.
unfoldable pub expire_all : List Entry → ℕ → ℕ → ℕ → List Entry × ℕ × ℕ
expire_all [] count evicted now_ms = ([], count, evicted)
expire_all (e ∷ es) count evicted now_ms =
    let (e', gone) = expire_entry e now_ms in
    let (es', count', evicted') =
      expire_all es (if gone then count - 1 else count) (if gone then u8 (evicted + 1) else evicted)
        now_ms in
    (e' ∷ es', count', evicted')

-- `route_cache_expire`
unfoldable pub expire : Cache → ℕ → Cache × ℕ
expire cache now_ms =
    let (es, count, evicted) = expire_all cache.entries cache.count 0 now_ms in
    (record cache { entries = es; count = count }, evicted)

-- `route_cache_count`
unfoldable pub count : Cache → ℕ → ℕ
count cache now_ms = u8 (count_if (λ (e : Entry). entry_is_alive e now_ms) cache.entries)

-- `route_cache_can_reply_for_dst`
unfoldable pub can_reply_for_dst : Cache → Metrics → ℕ → ℕ → Cache × Metrics × Bool
can_reply_for_dst cache m dst_id now_ms =
    let (cache', m', found) = lookup cache m dst_id now_ms in
    elim found [
      | none ↦ (cache', m', false)
      | some e ↦ (
        cache',
        m',
        bit_and e.flags flag_pending == 0
            && not (ltb e.metric reply_min_metric)
            && not (ltb reply_max_hops e.hop_count),
      )
    ]
