-- ===== src/RouteCache/Lookup.antt =====
-- A route that is stored is found, and only a live one is.
use rivr.Common.{ℕ, zero, suc, bit_and, bit_or, refl, ap, inl, inr, Bool, true, false}
use rivr.Common.{none, some, List, [], arith, ==→eq, Bool-cases, Option-cases, below}
use rivr.Common.{below_sound, length, set, All, IsU8, IsU32, u8, ◌≤◌, ◌<◌, ◌≡◌, ◌∙◌, ◌&&◌}
use rivr.Common.{◌||◌, ◌∷◌, ◌==◌}
use rivr.Metrics.{Metrics}
use rivr.RouteCache.{
  Entry, Cache, is_valid, entry_is_alive, expire_entry, lookup_scan, lookup, Route, refresh, write,
  Scan, known, absent, behind, update_scan, update, flag_valid,
}

lookup_scan-alive :
    (es : List Entry) (dst now : ℕ) (e : Entry)
    → (lookup_scan es dst now).1 ≡ some e
    → (e.dst_id ≡ dst) × (entry_is_alive e now ≡ true)
unfolding lookup_scan entry_is_alive expire_entry
lookup_scan-alive [] dst now e h = ground arith
lookup_scan-alive (x ∷ es) dst now e h = ground (arith, lookup_scan-alive es dst now e)

-- A route that `route_cache_lookup` returns leads to the destination, is valid and was confirmed at
-- most 120 s ago.
pub lookup-alive :
    (cache : Cache) (m : Metrics) (dst now : ℕ) (e : Entry)
    → (lookup cache m dst now).2 ≡ some e
    → (e.dst_id ≡ dst) × (entry_is_alive e now ≡ true)
unfolding lookup
lookup-alive cache m dst now e h = elim (Option-cases (lookup_scan cache.entries dst now).1) [
  | inl missing ↦ ground (arith, rw (missing, lookup) at h)
  | inr (x, there) ↦
      ground (arith, rw (there, lookup) at h, lookup_scan-alive cache.entries dst now x there)
]

flag_table : below 256 (λ f. bit_and (u8 (bit_or f flag_valid)) flag_valid == 1) ≡ true
unfolding below
flag_table = refl

flag_set : (f : ℕ) → IsU8 f → bit_and (u8 (bit_or f flag_valid)) flag_valid ≡ 1
flag_set f h =
    ==→eq _ 1
      (below_sound 256 (λ f. bit_and (u8 (bit_or f flag_valid)) flag_valid == 1) f flag_table h)

-- An entry that answers for the destination.
abbrev answers : ℕ → Entry → Bool
answers dst e = e.dst_id == dst && is_valid e

-- A live entry is found behind entries that do not answer.
lookup_scan-here :
    (e : Entry) (es : List Entry) (dst now : ℕ)
    → answers dst e ≡ true
    → e.last_seen_ms ≡ now
    → IsU32 now
    → (lookup_scan (e ∷ es) dst now).1 ≡ some e
unfolding lookup_scan expire_entry
lookup_scan-here e es dst now h same hn = ground arith

lookup_scan-further :
    (e : Entry) (es : List Entry) (dst now : ℕ)
    → answers dst e ≡ false
    → (lookup_scan (e ∷ es) dst now).1 ≡ (lookup_scan es dst now).1
unfolding lookup_scan expire_entry
lookup_scan-further e es dst now h = ground arith

lookup_scan-set :
    (es : List Entry) (i dst now : ℕ) (w : Entry)
    → All (λ (e : Entry). answers dst e ≡ false) es
    → i < length es
    → answers dst w ≡ true
    → w.last_seen_ms ≡ now
    → IsU32 now
    → (lookup_scan (set es i w) dst now).1 ≡ some w
lookup_scan-set [] i dst now w none_of hi h same hn = absurd (omega arith)
lookup_scan-set (e ∷ es) zero dst now w none_of hi h same hn =
    lookup_scan-here w es dst now h same hn
lookup_scan-set (e ∷ es) (suc i) dst now w none_of hi h same hn =
    lookup_scan-further e (set es i w) dst now none_of.0
    ∙ lookup_scan-set es i dst now w none_of.1 (omega arith) h same hn

-- What the scan of `route_cache_update` found.
abbrev Found : List Entry → Route → ℕ → Scan → Type 0
Found es r now (known es') =
    (length es' ≡ length es)
    × ((e : Entry) × ((lookup_scan es' r.dst_id now).1 ≡ some e)
        × (e.last_seen_ms ≡ now)
        × (e.hop_count ≤ r.hop_count))
Found es r now (absent es' free) =
    (length es' ≡ length es)
    × All (λ (e : Entry). answers r.dst_id e ≡ false) es'
    × elim free as (λ _. Type 0) [ none ↦ Unit {0} | some i ↦ i < length es ]

refresh-answers :
    (r : Route) (e : Entry) (now : ℕ)
    → IsU8 r.flags
    → answers r.dst_id e ≡ true
    → (answers r.dst_id (refresh r e now) ≡ true)
      × ((refresh r e now).last_seen_ms ≡ now)
      × ((refresh r e now).hop_count ≤ r.hop_count)
unfolding refresh is_valid
refresh-answers r e now hf h = ground (arith, flag_set r.flags hf)

behind-Found :
    (e e' : Entry) (es : List Entry) (r : Route) (now : ℕ) (s : Scan)
    → answers r.dst_id e' ≡ false
    → Found es r now s
    → Found (e ∷ es) r now (behind e' s)
behind-Found e e' es r now (known es') h (len, (x, there, seen, hops)) =
    (omega arith, (x, lookup_scan-further e' es' r.dst_id now h ∙ there, seen, hops))
behind-Found e e' es r now (absent es' none) h (len, all, _) = elim (Bool-cases (is_valid e')) [
  | inl taken ↦ rw taken (omega arith, (rw taken at h, all), tt)
  | inr open_slot ↦ rw open_slot (omega arith, (rw open_slot at h, all), omega arith)
]
behind-Found e e' es r now (absent es' (some i)) h (len, all, inside) =
    elim (Bool-cases (is_valid e')) [
      | inl taken ↦ rw taken (omega arith, (rw taken at h, all), omega arith)
      | inr open_slot ↦ rw open_slot (omega arith, (rw open_slot at h, all), omega arith)
    ]

update_scan-Found :
    (es : List Entry) (r : Route) (now : ℕ)
    → IsU8 r.flags
    → IsU32 now
    → Found es r now (update_scan es r now)
unfolding update_scan
update_scan-Found [] r now hf hn = (refl, tt, tt)
update_scan-Found (e ∷ es) r now hf hn =
    let e' = (expire_entry e now).0 in
    elim (Bool-cases (answers r.dst_id e')) [
      | inl here ↦
          let k = refresh-answers r e' now hf here in
          rw here (
            refl,
            (
              refresh r e' now,
              lookup_scan-here (refresh r e' now) es r.dst_id now k.0 k.1 hn,
              k.1,
              k.2,
            ),
          )
      | inr further ↦ rw further (
          behind-Found e e' es r now (update_scan es r now) further
            (update_scan-Found es r now hf hn))
    ]

lookup-lookup_scan :
    (cache : Cache) (m : Metrics) (dst now : ℕ) (e : Entry)
    → 0 < dst
    → (lookup_scan cache.entries dst now).1 ≡ some e
    → (lookup cache m dst now).2 ≡ some e
unfolding lookup
lookup-lookup_scan cache m dst now e hd h = rw (h, lookup) (ground arith)

write-answers : (r : Route) (now : ℕ) → IsU8 r.flags → answers r.dst_id (write r now) ≡ true
unfolding write is_valid
write-answers r now hf = ground (arith, flag_set r.flags hf)

-- The lookup finds a route that was confirmed just now.
abbrev Answer : Metrics → Route → ℕ → Cache → Type 0
Answer m r now c =
    (e : Entry) × ((lookup c m r.dst_id now).2 ≡ some e)
    × (e.dst_id ≡ r.dst_id)
    × (e.last_seen_ms ≡ now)
    × (e.hop_count ≤ r.hop_count)

found :
    (m : Metrics) (r : Route) (now : ℕ) (c : Cache) (e : Entry)
    → 0 < r.dst_id
    → (lookup_scan c.entries r.dst_id now).1 ≡ some e
    → e.last_seen_ms ≡ now
    → e.hop_count ≤ r.hop_count
    → Answer m r now c
found m r now c e hd there seen hops = (
  e,
  lookup-lookup_scan c m r.dst_id now e hd there,
  (lookup_scan-alive c.entries r.dst_id now e there).0,
  seen,
  hops,
)

written :
    (m : Metrics) (r : Route) (now : ℕ) (c : Cache) (es : List Entry) (i : ℕ)
    → 0 < r.dst_id
    → IsU8 r.flags
    → IsU32 now
    → c.entries ≡ set es i (write r now)
    → All (λ (e : Entry). answers r.dst_id e ≡ false) es
    → i < length es
    → Answer m r now c
unfolding write
written m r now c es i hd hf hn shape all inside =
    let there =
      lookup_scan-set es i r.dst_id now (write r now) all inside (write-answers r now hf) refl hn in
    found m r now c (write r now) hd
      (ap (λ (l : List Entry). (lookup_scan l r.dst_id now).1) shape ∙ there) refl (omega arith)

-- A route that `route_cache_update` is told is found afterwards: the lookup at the same time returns
-- a route to the destination, confirmed just now and with at most as many hops. The destination and
-- the next hop are not 0, the eviction cursor points into the table, and the flags and the time fit
-- their types.
pub lookup-update :
    (cache : Cache) (m m' : Metrics) (r : Route) (now : ℕ)
    → 0 < r.dst_id
    → 0 < r.next_hop
    → IsU8 r.flags
    → IsU32 now
    → cache.evict_hand < length cache.entries
    → (e : Entry) × ((lookup (update cache m r now).0 m' r.dst_id now).2 ≡ some e)
      × (e.dst_id ≡ r.dst_id)
      × (e.last_seen_ms ≡ now)
      × (e.hop_count ≤ r.hop_count)
unfolding update
lookup-update cache m m' r now hd hh hf hn hc =
    go (update_scan cache.entries r now) refl (update_scan-Found cache.entries r now hf hn)
  where
    named : (r.dst_id == 0 || r.next_hop == 0) ≡ false
    named = ground arith

    go :
        (s : Scan)
        → update_scan cache.entries r now ≡ s
        → Found cache.entries r now s
        → Answer m' r now (update cache m r now).0
    go (known es) e (len, (x, there, seen, hops)) =
        rw (e, named, update) (found m' r now (record cache { entries = es }) x hd there seen hops)
    go (absent es none) e (len, all, _) =
        rw (e, named, update)
          (written m' r now _ es cache.evict_hand hd hf hn refl all (omega (arith, len)))
    go (absent es (some i)) e (len, all, inside) =
        rw (e, named, update) (written m' r now _ es i hd hf hn refl all (omega (arith, len)))
