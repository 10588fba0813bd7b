-- ===== src/Beacon/Spacing.antt =====
-- firmware_core/beacon_sched.c: the distance between beacons and the length of the startup burst.
use rivr.Common.{ℕ, suc, refl, Bool, true, false, List, [], arith, sub32, ◌+◌, ◌≤◌, ◌≡◌}
use rivr.Common.{◌≢◌, ◌&&◌, ◌∷◌, if◌then◌else◌}
use rivr.Beacon.{
  Sched, Firing, Outcome, tx_startup, tx_scheduled, suppress_neighbors, suppress_interval, gap,
}
unfoldable use rivr.Beacon.{tick}

-- The state after a list of firings.
unfoldable pub run : Sched → List Firing → Sched
run s [] = s
run s (x ∷ xs) = run (tick s x).0 xs

-- No firing of the list transmits.
abbrev pub is_silent : Outcome → Bool
is_silent tx_startup = false
is_silent tx_scheduled = false
is_silent suppress_neighbors = true
is_silent suppress_interval = true

unfoldable pub all_silent : Sched → List Firing → Bool
all_silent s [] = true
all_silent s (x ∷ xs) = is_silent (tick s x).1 && all_silent (tick s x).0 xs

-- The firings of the list that send a startup beacon.
abbrev pub is_startup : Outcome → Bool
is_startup tx_startup = true
is_startup tx_scheduled = false
is_startup suppress_neighbors = false
is_startup suppress_interval = false

unfoldable pub startups : Sched → List Firing → ℕ
startups s [] = 0
startups s (x ∷ xs) =
    let rest = startups (tick s x).0 xs in if is_startup (tick s x).1 then suc rest else rest

-- A silent firing keeps the time of the last beacon and the gap after it.
tick-silent :
    (s : Sched) (x : Firing)
    → is_silent (tick s x).1 ≡ true
    → ((tick s x).0.last_tx_ms ≡ s.last_tx_ms) × ((tick s x).0.next_min_tx_ms ≡ s.next_min_tx_ms)
unfolding tick
tick-silent s x h = ground arith

run-silent :
    (s : Sched) (xs : List Firing)
    → all_silent s xs ≡ true
    → ((run s xs).last_tx_ms ≡ s.last_tx_ms) × ((run s xs).next_min_tx_ms ≡ s.next_min_tx_ms)
unfolding run all_silent
run-silent s [] h = (refl, refl)
run-silent s (x ∷ xs) h = ground (arith, h, tick-silent s x, run-silent (tick s x).0 xs)

-- A beacon that a firing sends at a time other than 0 is not followed by a scheduled one, however
-- many firings without a beacon come between, before the interval of its firing and the jitter
-- drawn there have passed on the uint32_t clock.
pub tick_spaced :
    (s : Sched) (first second : Firing) (between : List Firing)
    → is_silent (tick s first).1 ≡ false
    → first.now_ms ≢ 0
    → all_silent (tick s first).0 between ≡ true
    → (tick (run (tick s first).0 between) second).1 ≡ tx_scheduled
    → gap first ≤ sub32 second.now_ms first.now_ms
unfolding tick
tick_spaced s first second between sent started silent scheduled =
    ground (arith, run-silent (tick s first).0 between silent)

-- From a zeroed state, or any with the burst counted up to `n`, at most two startup beacons less
-- the ones counted are sent by any list of firings.
pub startups_bounded :
    (s : Sched) (xs : List Firing) → s.startup_count ≤ 2 → startups s xs + s.startup_count ≤ 2
unfolding tick startups
startups_bounded s [] h = omega arith
startups_bounded s (x ∷ xs) h = ground (arith, startups_bounded (tick s x).0 xs)
