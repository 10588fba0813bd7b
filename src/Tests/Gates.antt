-- ===== src/Tests/Gates.antt =====
-- The duty cycle and the token buckets at concrete inputs.
use rivr.Common.{ℕ, refl, true, List, [], arith, get_or, replicate, inc32, ◌+◌, ◌*◌, ◌≤◌}
use rivr.Common.{◌≡◌, ◌≢◌, ◌↔◌, ◌∷◌, if◌then◌else◌}
use rivr.Metrics.{zero_metrics}
use rivr.Airtime.{
  Airtime, control, capacity_us, refill_us_per_ms, classify, frame_type, global_refill,
  check_consume,
}
use rivr.Airtime
use rivr.Airtime.Bounds.{init-IsBounded}
use rivr.Airtime.Bounds
use rivr.Airtime.Accounting.{Offer, run, run_budget}
use rivr.Dutycycle.{Dc, TxRecord, unused, history_cap, expire_old, record_tx}
use rivr.Dutycycle
use rivr.Dutycycle.Balance.{IsBalanced, init-IsBalanced, in_window, check_iff}
use rivr.Dutycycle.Window.{allowed_within_budget}

-- A relayed chat frame and an acknowledgement.
abbrev chat_frame : List ℕ
chat_frame = 86 ∷ 82 ∷ 1 ∷ 1 ∷ 2 ∷ 7 ∷ 1 ∷ 0 ∷ 0 ∷ 7 ∷ 0 ∷ 0 ∷ 0 ∷ []

abbrev ack_frame : List ℕ
ack_frame = 86 ∷ 82 ∷ 1 ∷ 5 ∷ 0 ∷ 4 ∷ 0 ∷ 0 ∷ 0 ∷ 7 ∷ 0 ∷ 0 ∷ 0 ∷ []

chat_class : classify (frame_type chat_frame) ≢ control
unfolding classify
chat_class = ground arith

abbrev offers : List Offer
offers =
    record { frame = chat_frame; toa = 60000; now = 1000 }
    ∷ record { frame = ack_frame; toa = 50000; now = 1000 }
    ∷ record { frame = chat_frame; toa = 60000; now = 5000 }
    ∷ []

started : Airtime.init.last_refill_ms ≤ 0
unfolding Airtime.init
started = omega arith

run_budget_example :
    let (a', _, spent) = run Airtime.init zero_metrics offers in
    Bounds.IsBounded a'
    × (spent + a'.tokens_us + refill_us_per_ms * Airtime.init.last_refill_ms
        ≤ Airtime.init.tokens_us + refill_us_per_ms * a'.last_refill_ms)
run_budget_example =
    run_budget Airtime.init zero_metrics 0 offers init-IsBounded started (omega arith)

abbrev drained : Airtime
drained = record { tokens_us = 1000; last_refill_ms = 5; nb = replicate 16 Airtime.zero_bucket }

drained-IsBounded : Bounds.IsBounded drained
drained-IsBounded = omega arith

check_iff_example :
    let (dc', m', allowed) = Dutycycle.check Dutycycle.init zero_metrics 5000 60000 in
    IsBalanced dc'
    × (dc'.used_us ≡ in_window 5000 Dutycycle.init.history)
    × ((allowed ≡ true) ↔ (in_window 5000 Dutycycle.init.history + 60000 ≤ 360000000))
    × (m'.duty_blocked
        ≡ (if allowed then zero_metrics.duty_blocked else inc32 zero_metrics.duty_blocked))
check_iff_example = check_iff Dutycycle.init zero_metrics 5000 60000 init-IsBalanced (omega arith)

empty_slot : (get_or (expire_old Dutycycle.init 5000).history 0 unused).tx_end_ms ≡ 0
unfolding expire_old Dutycycle.init Dutycycle.expire_from
empty_slot = refl

allowed : (Dutycycle.check Dutycycle.init zero_metrics 5000 60000).2 ≡ true
unfolding Dutycycle.check expire_old Dutycycle.init Dutycycle.expire_from
allowed = refl

allowed_within_budget_example :
    (record_tx (Dutycycle.check Dutycycle.init zero_metrics 5000 60000).0 5060 60000).used_us
    ≤ 360000000
allowed_within_budget_example =
    allowed_within_budget Dutycycle.init zero_metrics 5000 5060 60000 init-IsBalanced (omega arith)
      (omega arith) allowed
