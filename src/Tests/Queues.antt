-- ===== src/Tests/Queues.antt =====
-- The ring, the retry table, the pending queue and the fragments at concrete inputs.
use rivr.Common.{ℕ, refl, true, List, [], arith, ltb, replicate}
use rivr.Common.{◌+◌, ◌-◌, ◌≡◌, ◌∷◌}
use rivr.Metrics.{zero_metrics}
use rivr.Radio.{TxRequest, zero_data}
use rivr.Ringbuf.{Rb, try_push, pop}
use rivr.Ringbuf.Refine.{
  enqueue, dequeue, contents, try_push_refines, try_push-IsValid, pop_refines, pop-IsValid,
  available-length,
}
use rivr.Ringbuf.Refine
use rivr.Retry.{Entry, Table, Outside, is_due, tick_entry, tick, ack}
use rivr.Retry
use rivr.Retry.Wait.{
  attempts_left, after, due_ticks, attempts_run_out, enqueue-IsValid, ack-IsValid, tick-IsValid,
  resend_waits,
}
use rivr.Retry.Wait
use rivr.Pending.{Queue, queue_size, expire, drain_for_dst}
use rivr.Pending
use rivr.Pending.Slots.{fresh, waits_for, expire_lem, enqueue_lem, drain_for_dst_lem}
use rivr.Pending.Slots
use rivr.Frag.{Rx, incomplete, complete, zero_slot, send}
use rivr.Frag.RoundTrip.{deliver, send-ingest}
use rivr.Frag.RoundTrip

-- A ring of four slots with two items that goes around the end.
abbrev ring : Rb ℕ
ring = record { buf = λ (i : ℕ). 10 + i; cap = 4; head = 1; tail = 3; drops = 0 }

ring-IsValid : Refine.IsValid ring
ring-IsValid = record {
  bits = 2;
  power = refl;
  width = omega arith;
  small = omega arith;
  head_in = omega arith;
  tail_in = omega arith;
}

try_push_refines_example :
    ((try_push ring 5).0, contents (try_push ring 5).1) ≡ enqueue 3 (contents ring) 5
try_push_refines_example = try_push_refines ring 5 ring-IsValid

pop_refines_example : ((pop ring).0, contents (pop ring).1) ≡ dequeue (contents ring)
pop_refines_example = pop_refines ring ring-IsValid

-- A table with one entry that is due at 5000 and a free slot.
abbrev waiting : Entry
waiting = record {
  ack_src_id = 7;
  cur_pkt_id = 1;
  dst_id = 9;
  next_hop = 9;
  frame = zero_data;
  len = 27;
  toa_us = 60000;
  next_retry_ms = 5000;
  timeout_interval_ms = 4000;
  retries_left = 1;
  valid = true;
}

abbrev table : Table
table = record { entries = waiting ∷ Retry.empty ∷ []; count = 1 }

table-IsValid : Wait.IsValid table
table-IsValid = record { size = omega arith; counted = refl }

abbrev request : TxRequest
request = record { frame = zero_data; len = 0; toa_us = 0; due_ms = 0 }

abbrev radio : Outside
radio = record {
  tx_queue = record { buf = λ (i : ℕ). request; cap = 8; head = 0; tail = 0; drops = 0 };
  pkt_id_counter = 40;
  metrics = zero_metrics;
  pushed = 0;
}

abbrev ticks : List (Outside × ℕ)
ticks = (radio, 4000) ∷ (radio, 5000) ∷ (radio, 20000) ∷ []

attempts_run_out_example :
    (attempts_left (after waiting ticks) ≡ attempts_left waiting - due_ticks waiting ticks)
    × ((after waiting ticks).valid ≡ ltb (due_ticks waiting ticks) (attempts_left waiting))
attempts_run_out_example = attempts_run_out waiting ticks

-- A queue with one message, stored at 1000.
abbrev message : Pending.Entry
message = record {
  dst_id = 9;
  frame = zero_data;
  len = 27;
  toa_us = 60000;
  enqueued_ms = 1000;
  valid = true;
}

abbrev queue : Queue
queue = record { entries = message ∷ replicate 15 Pending.empty; count = 1 }

queue-IsValid : Slots.IsValid queue
queue-IsValid = record { size = refl; counted = refl }

abbrev link : Pending.Outside
link = record { tx_queue = radio.tx_queue; metrics = zero_metrics; sent = 0 }

abbrev receiver : Rx
receiver = record { next_slot = 0; slots = replicate 4 zero_slot }

receiver-IsValid : RoundTrip.IsValid receiver
receiver-IsValid = record { size = refl; widths = (refl, (refl, (refl, (refl, tt)))) }

abbrev long_payload : List ℕ
long_payload = 1 ∷ 2 ∷ 3 ∷ 4 ∷ 5 ∷ 6 ∷ 7 ∷ 8 ∷ 9 ∷ 10 ∷ []

send-ingest_example :
    (rx' : Rx) × (send deliver (receiver, incomplete) long_payload 9 255
      ≡ ((rx', complete long_payload), 1, true))
send-ingest_example =
    send-ingest receiver incomplete long_payload 9 255 receiver-IsValid (omega arith) (omega arith)
      (omega arith)
