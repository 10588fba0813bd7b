-- ===== src/Airtime/Bounds.antt =====
-- The buckets stay within their capacities.
use rivr.Common.{ℕ, refl, subst, inl, inr, List, [], arith, ltb, Bool-cases, length}
use rivr.Common.{get_or, set, All, length-set, All-set, All-get_or, u32, ◌+◌, ◌-◌, ◌≤◌}
use rivr.Common.{◌<◌, ◌≡◌, ◌∙◌, ◌∷◌, ◌==◌, if◌then◌else◌}
use rivr.Metrics.{Metrics}
use rivr.Protocol.{read32}
use rivr.Airtime.{
  Airtime, Bucket, Scan, found, candidates, PktClass, capacity_us, nb_capacity_us, nb_max,
  zero_bucket, init, global_refill, nb_refill, scan_buckets, nb_get_or_alloc, relay_check, consume,
  relayed,
}

abbrev pub IsBucket : Bucket → Type 0
IsBucket b = b.tokens_us ≤ nb_capacity_us

pub record IsBounded (a : Airtime) : Type 0 where
  pub global : a.tokens_us ≤ capacity_us
  pub slots : length a.nb ≡ nb_max
  pub buckets : All IsBucket a.nb

pub init-IsBounded : IsBounded init
unfolding init
init-IsBounded = omega arith

pub global_refill-IsBounded :
    (a : Airtime) (now : ℕ) → IsBounded a → IsBounded (global_refill a now)
unfolding global_refill
global_refill-IsBounded a now v = ground arith

pub nb_refill-IsBucket : (b : Bucket) (now : ℕ) → IsBucket b → IsBucket (nb_refill b now)
unfolding nb_refill
nb_refill-IsBucket b now h = ground arith

-- The scan names slots of the table.
abbrev InTable : Scan → Type 0
InTable (found k) = k < nb_max
InTable (candidates f l) = (f ≤ nb_max) × (l < nb_max)

scan-InTable :
    (src : ℕ) (bs : List Bucket) (i free lru ts : ℕ)
    → i + length bs ≤ nb_max
    → free ≤ nb_max
    → lru < nb_max
    → InTable (scan_buckets src bs i free lru ts)
unfolding scan_buckets
scan-InTable src [] i free lru ts h hf hl = (hf, hl)
scan-InTable src (b ∷ bs) i free lru ts h hf hl = elim (Bool-cases (b.node_id == src)) [
  | inl e ↦ rw e (omega arith)
  | inr e ↦ rw e (scan-InTable src bs (i + 1) _ _ _ (omega arith) (ground arith) (ground arith))
]

-- What `nb_get_or_alloc` leaves alone, and that its slot is in the table.
pub alloc_keeps :
    (a : Airtime) (src now : ℕ)
    → IsBounded a
    → let (slot, a') = nb_get_or_alloc a src now in
      (slot < nb_max)
      × IsBounded a'
      × (a'.tokens_us ≡ a.tokens_us)
      × (a'.last_refill_ms ≡ a.last_refill_ms)
unfolding nb_get_or_alloc
alloc_keeps a src now v = go _ refl
  where
    start : ℕ
    start = (get_or a.nb 0 zero_bucket).last_refill_ms

    fresh : Bucket
    fresh = record { node_id = src; tokens_us = nb_capacity_us; last_refill_ms = now }

    range : InTable (scan_buckets src a.nb 0 nb_max 0 start)
    range = scan-InTable src a.nb 0 nb_max 0 start (omega arith) (omega arith) (omega arith)

    go :
        (s : Scan)
        → scan_buckets src a.nb 0 nb_max 0 start ≡ s
        → let (slot, a') = nb_get_or_alloc a src now in
          (slot < nb_max)
          × IsBounded a'
          × (a'.tokens_us ≡ a.tokens_us)
          × (a'.last_refill_ms ≡ a.last_refill_ms)
    go (found i) e = rw (e, nb_get_or_alloc) (subst InTable e range, v, refl, refl)
    go (candidates f l) e =
        let r : (f ≤ nb_max) × (l < nb_max) = subst InTable e range in
        let slot = if ltb f nb_max then f else l in
        rw (e, nb_get_or_alloc)
          (
            ground arith,
            record {
              global = v.global;
              slots = length-set a.nb slot fresh ∙ v.slots;
              buckets = All-set IsBucket a.nb slot fresh v.buckets (omega arith);
            },
            refl,
            refl,
          )

-- The relay check gives back what the global check took, or takes it from the source as well.
pub relay_check_lem :
    (a : Airtime) (m : Metrics) (cls : PktClass) (src toa now : ℕ)
    → IsBounded a
    → a.tokens_us + toa ≤ capacity_us
    → let (a', _, passed) = relay_check a m cls src toa now in
      IsBounded a'
      × (a'.tokens_us ≡ (if passed then a.tokens_us else a.tokens_us + toa))
      × (a'.last_refill_ms ≡ a.last_refill_ms)
unfolding relay_check
relay_check_lem a m cls src toa now v h = elim (Bool-cases (ltb b.tokens_us toa)) [
  | inl e ↦
      rw (e, relay_check)
        (
          record { global = omega (arith, restored); slots = filled b; buckets = kept b small },
          omega (arith, restored),
          k.3,
        )
  | inr e ↦
      let b' : Bucket = record b { tokens_us = b.tokens_us - toa } in
      rw (e, relay_check)
        (
          record {
            global = k.1.global;
            slots = filled b';
            buckets = kept b' (omega (arith, small));
          },
          k.2,
          k.3,
        )
]
  where
    a1 : Airtime
    a1 = (nb_get_or_alloc a src now).1

    slot : ℕ
    slot = (nb_get_or_alloc a src now).0

    b : Bucket
    b = nb_refill (get_or a1.nb slot zero_bucket) now

    k :
        (slot < nb_max)
        × IsBounded a1
        × (a1.tokens_us ≡ a.tokens_us)
        × (a1.last_refill_ms ≡ a.last_refill_ms)
    k = alloc_keeps a src now v

    small : IsBucket b
    small =
        nb_refill-IsBucket _ now
          (All-get_or IsBucket a1.nb slot zero_bucket k.1.buckets (omega arith))

    filled : (c : Bucket) → length (set a1.nb slot c) ≡ nb_max
    filled c = length-set a1.nb slot c ∙ k.1.slots

    kept : (c : Bucket) → IsBucket c → All IsBucket (set a1.nb slot c)
    kept c h = All-set IsBucket a1.nb slot c k.1.buckets h

    restored :
        (if ltb capacity_us (u32 (a1.tokens_us + toa))
          then capacity_us
          else u32 (a1.tokens_us + toa))
        ≡ a.tokens_us + toa
    restored = ground (arith, k.2)

-- The charge for a frame: what `airtime_sched_check_consume` takes from the global bucket.
pub consume_lem :
    (a : Airtime) (m : Metrics) (frame : List ℕ) (toa now : ℕ)
    → IsBounded a
    → toa ≤ a.tokens_us
    → let (a', _, passed) = consume a m frame toa now in
      IsBounded a'
      × (a'.tokens_us ≡ (if passed then a.tokens_us - toa else a.tokens_us))
      × (a'.last_refill_ms ≡ a.last_refill_ms)
unfolding consume
consume_lem a m frame toa now v h = elim (Bool-cases (relayed frame)) [
  | inl e ↦ rw (e, consume) (relay _ _)
  | inr e ↦ rw (e, consume) (lower, refl, refl)
]
  where
    taken : Airtime
    taken = record a { tokens_us = a.tokens_us - toa }

    lower : IsBounded taken
    lower = record { global = omega (arith, v.global); slots = v.slots; buckets = v.buckets }

    fits : a.tokens_us - toa + toa ≤ capacity_us
    fits = omega (arith, v.global)

    relay :
        (m' : Metrics) (cls : PktClass)
        → let (a', _, passed) = relay_check taken m' cls (read32 frame 9) toa now in
          IsBounded a'
          × (a'.tokens_us ≡ (if passed then a.tokens_us - toa else a.tokens_us))
          × (a'.last_refill_ms ≡ a.last_refill_ms)
    relay m' cls =
        let back : a.tokens_us - toa + toa ≡ a.tokens_us = omega arith in
        rw back at (relay_check_lem taken m' cls (read32 frame 9) toa now lower fits)
