-- ===== src/Airtime/Accounting.antt =====
-- What a sequence of calls of the airtime gate lets through.
use rivr.Common.{ℕ, refl, inl, inr, Bool, true, false, not, List, [], arith, ltb}
use rivr.Common.{Bool-cases, IsU32, ◌+◌, ◌*◌, ◌≤◌, ◌≡◌, ◌≢◌, ◌⊎◌, ◌&&◌, ◌∷◌}
use rivr.Common.{if◌then◌else◌}
use rivr.Metrics.{Metrics}
use rivr.Airtime.{
  Airtime, PktClass, control, chat, metrics, bulk, beacon, capacity_us, refill_us_per_ms, classify,
  global_refill, record_class_drop, consume, check_consume, frame_type,
}
use rivr.Airtime.Bounds.{IsBounded, global_refill-IsBounded, consume_lem}

-- Control traffic always passes, and costs nothing.
pub control_passes :
    (a : Airtime) (m : Metrics) (frame : List ℕ) (toa now : ℕ)
    → classify (frame_type frame) ≡ control
    → check_consume a m frame toa now ≡ (a, m, true)
unfolding check_consume
control_passes a m frame toa now e = rw (e, check_consume)

-- Any other frame passes the global check or is refused there.
gate_other :
    (a : Airtime) (m : Metrics) (frame : List ℕ) (toa now : ℕ)
    → classify (frame_type frame) ≢ control
    → check_consume a m frame toa now ≡ (
        let a' = global_refill a now in
        if ltb a'.tokens_us toa
        then (a', record_class_drop (classify (frame_type frame)) m, false)
        else consume a' m frame toa now)
unfolding check_consume
gate_other a m frame toa now ne = go (classify (frame_type frame)) refl ne
  where
    go :
        (c : PktClass)
        → classify (frame_type frame) ≡ c
        → c ≢ control
        → check_consume a m frame toa now ≡ (
            let a' = global_refill a now in
            if ltb a'.tokens_us toa
            then (a', record_class_drop (classify (frame_type frame)) m, false)
            else consume a' m frame toa now)
    go control e h = absurd (h refl)
    go chat e h = rw (e, check_consume) (rw e)
    go metrics e h = rw (e, check_consume) (rw e)
    go bulk e h = rw (e, check_consume) (rw e)
    go beacon e h = rw (e, check_consume) (rw e)

-- `airtime_sched_check_consume` keeps every bucket within its capacity and charges exactly what it
-- lets through: a frame that is not control traffic and passes costs its airtime from the refilled
-- global bucket, and a refused one costs nothing, also when the source's own bucket refuses it.
pub check_consume_charge :
    (a : Airtime) (m : Metrics) (frame : List ℕ) (toa now : ℕ)
    → IsBounded a
    → classify (frame_type frame) ≢ control
    → let (a', _, passed) = check_consume a m frame toa now in
      let level = (global_refill a now).tokens_us in
      IsBounded a'
      × (a'.tokens_us + (if passed then toa else 0) ≡ level)
      × (a'.last_refill_ms ≡ (global_refill a now).last_refill_ms)
check_consume_charge a m frame toa now v ne = elim (Bool-cases (ltb full.tokens_us toa)) [
  | inl e ↦ rw (gate_other a m frame toa now ne, e) (fv, omega arith, refl)
  | inr e ↦
      let enough : toa ≤ full.tokens_us = ground arith in
      let c = consume_lem full m frame toa now fv enough in
      rw (gate_other a m frame toa now ne, e) (c.0, ground (arith, c.1), c.2)
]
  where
    full : Airtime
    full = global_refill a now

    fv : IsBounded full
    fv = global_refill-IsBounded a now v

-- A frame offered to the gate, its airtime and the time of the call.
pub record Offer : Type 0 where
  pub frame : List ℕ
  pub toa : ℕ
  pub now : ℕ

abbrev pub is_control_class : PktClass → Bool
is_control_class control = true
is_control_class _ = false

abbrev pub is_control : Offer → Bool
is_control o = is_control_class (classify (frame_type o.frame))

-- Calls in order, and the airtime of the frames let through that are not control traffic.
pub run : Airtime → Metrics → List Offer → Airtime × Metrics × ℕ
run a m [] = (a, m, 0)
run a m (o ∷ os) =
    let (a', m', passed) = check_consume a m o.frame o.toa o.now in
    let (a'', m'', spent) = run a' m' os in
    (a'', m'', spent + (if passed && not (is_control o) then o.toa else 0))

-- Times that do not fall, from a first time on, before the clock wraps.
abbrev pub IsSchedule : ℕ → List Offer → Type 0
IsSchedule t [] = Unit {0}
IsSchedule t (o ∷ os) = (t ≤ o.now) × IsU32 o.now × IsSchedule o.now os

-- A refill adds at most a tenth of the time that has passed.
refill_at_most :
    (a : Airtime) (now : ℕ)
    → IsBounded a
    → a.last_refill_ms ≤ now
    → IsU32 now
    → ((global_refill a now).last_refill_ms ≡ now)
      × ((global_refill a now).tokens_us + refill_us_per_ms * a.last_refill_ms
          ≤ a.tokens_us + refill_us_per_ms * now)
unfolding global_refill
refill_at_most a now v h w = ground arith

control-cases : (c : PktClass) → (c ≡ control) ⊎ ((c ≢ control) × (is_control_class c ≡ false))
control-cases control = inl refl
control-cases chat = inr ((λ e. cc), refl)
control-cases metrics = inr ((λ e. cc), refl)
control-cases bulk = inr ((λ e. cc), refl)
control-cases beacon = inr ((λ e. cc), refl)

-- One call, as a change of the level and of the time of the last refill.
one_call :
    (a : Airtime) (m : Metrics) (o : Offer)
    → IsBounded a
    → a.last_refill_ms ≤ o.now
    → IsU32 o.now
    → let (a', _, passed) = check_consume a m o.frame o.toa o.now in
      IsBounded a'
      × (a'.last_refill_ms ≤ o.now)
      × (a'.tokens_us
            + (if passed && not (is_control o) then o.toa else 0)
            + refill_us_per_ms * a.last_refill_ms
          ≤ a.tokens_us + refill_us_per_ms * a'.last_refill_ms)
one_call a m o v h w = elim (control-cases (classify (frame_type o.frame))) [
  | inl e ↦ rw (control_passes a m o.frame o.toa o.now e, e) (v, h, omega arith)
  | inr (ne, other) ↦
      let c = check_consume_charge a m o.frame o.toa o.now v ne in
      let r = refill_at_most a o.now v h w in
      (c.0, omega (arith, c.2, r.0), rw other (ground (arith, c.1, c.2, r)))
]

-- Over a schedule of calls whose times do not go back, not behind the last refill either, and do
-- not wrap, from buckets within their capacities, the airtime of the frames let through that are not
-- control traffic is at most the initial level plus a tenth of the time between the first and the last
-- refill (100 us for each ms) less the level that is left. Control traffic is not counted: it passes
-- free of charge. The buckets stay within their capacities.
pub run_budget :
    (a : Airtime) (m : Metrics) (t : ℕ) (os : List Offer)
    → IsBounded a
    → a.last_refill_ms ≤ t
    → IsSchedule t os
    → let (a', _, spent) = run a m os in
      IsBounded a'
      × (spent + a'.tokens_us + refill_us_per_ms * a.last_refill_ms
          ≤ a.tokens_us + refill_us_per_ms * a'.last_refill_ms)
unfolding run
run_budget a m t [] v h s = (v, omega arith)
run_budget a m t (o ∷ os) v h (le, w, rest) =
    let first = check_consume a m o.frame o.toa o.now in
    let one = one_call a m o v (omega arith) w in
    let more = run_budget first.0 first.1 o.now os one.0 one.1 rest in
    (more.0, omega (arith, one.2, more.1))

-- The product of `global_refill` is a uint32_t: 42949673 ms after the last refill, almost twelve
-- hours, a bucket that lacks at least 4 us gains 4 us and no more.
pub refill_wraps :
    (a : Airtime) (now : ℕ)
    → IsBounded a
    → IsU32 now
    → a.last_refill_ms + 42949673 ≡ now
    → a.tokens_us + 4 ≤ capacity_us
    → (global_refill a now).tokens_us ≡ a.tokens_us + 4
unfolding global_refill
refill_wraps a now v w h k = ground arith
