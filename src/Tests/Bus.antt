-- ===== src/Tests/Bus.antt =====
-- The outbox, the beacon timer, the serial bridge, the bus and the overheard relays at concrete inputs.
use rivr.Common.{ℕ, refl, true, false, some, List, [], arith, ltb, leb, length, take}
use rivr.Common.{drop, replicate, sub32, ◌≤◌, ◌≡◌, ◌&&◌, ◌∷◌, ◌++◌, ◌==◌, if◌then◌else◌}
use rivr.Metrics.{zero_metrics}
use rivr.Radio.{TxRequest, RxFrame, zero_data}
use rivr.Ringbuf.{Rb, try_push}
unfoldable use rivr.Protocol.{decode, validate_wire_frame, unpack_header_from_wire}
unfoldable use rivr.Protocol.Crc.{crc16}
use rivr.Tests.Wire.{sample, text, sample_bytes}
use rivr.SendQueue
use rivr.SendQueue.{Queue}
use rivr.SendQueue.Expiry
use rivr.SendQueue.Expiry.{contents}
unfoldable use rivr.SendQueue.Expiry.{drop_stale, Taken}
use rivr.SendQueue.Fifo.{message, enqueue_refines, tick_refines}
unfoldable use rivr.SendQueue.Fifo.{hand_over}
use rivr.Beacon.{Sched, Firing, zero_sched, tx_startup, tx_scheduled, gap}
unfoldable use rivr.Beacon.{tick}
use rivr.Beacon.Spacing.{tick_spaced}
unfoldable use rivr.Beacon.Spacing.{run, all_silent}
use rivr.Slip.{SlipRx, Uart}
unfoldable use rivr.Slip.{usb_tick, slip_encode}
use rivr.Slip.RoundTrip.{flushed, frame_of}
use rivr.Slip.Ticks.{IsUart, usb_tick-slip_encode}
use rivr.Slip.RoundTrip
use rivr.Bus
use rivr.Bus.{Links, Cache}
use rivr.Bus.Memory.{header_of, receive-once}
use rivr.Bus.Memory
use rivr.Bus.Fanout.{receive-tx_queue}
use rivr.Opfwd
use rivr.Opfwd.Memory as Overheard
use rivr.Opfwd.Memory.{Heard}

abbrev request : TxRequest
request = record { frame = zero_data; len = 0; toa_us = 0; due_ms = 0 }

abbrev radio_queue : Rb TxRequest
radio_queue = record { buf = λ (i : ℕ). request; cap = 8; head = 0; tail = 0; drops = 0 }

-- An outbox with one frame, written at 1000.
abbrev waiting : SendQueue.Entry
waiting = record { frame = zero_data; len = 27; toa_us = 60000; enqueued_ms = 1000; valid = true }

abbrev outbox : Queue
outbox = record { entries = waiting ∷ replicate 15 SendQueue.empty; head = 0; tail = 1; count = 1 }

outbox-IsValid : Expiry.IsValid outbox
unfolding Taken
outbox-IsValid = record {
  size = refl;
  head_in = omega arith;
  tail_in = refl;
  room = omega arith;
  taken = (refl, tt);
}

enqueue_refines_example :
    let (sq', m', ok) = SendQueue.enqueue outbox zero_metrics (1 ∷ 2 ∷ []) 2 5000 2000 in
    let fresh = drop_stale 2000 (contents outbox) in
    Expiry.IsValid sq'
    × (ok ≡ (ltb 0 2 && ltb (length fresh) 16))
    × (contents sq' ≡ (
        if ok
        then fresh ++ message (1 ∷ 2 ∷ []) 2 5000 2000 ∷ []
        else if 2 == 0
        then contents outbox
        else fresh))
enqueue_refines_example =
    enqueue_refines outbox zero_metrics (1 ∷ 2 ∷ []) 2 5000 2000 outbox-IsValid (omega arith)

tick_refines_example :
    let (sq', m', ring', handed) = SendQueue.tick outbox zero_metrics radio_queue 2000 in
    Expiry.IsValid sq'
    × ((contents sq', ring', handed) ≡ hand_over radio_queue (drop_stale 2000 (contents outbox)))
tick_refines_example = tick_refines outbox zero_metrics radio_queue 2000 outbox-IsValid

abbrev firing : ℕ → ℕ → Firing
firing now_ms live = record {
  now_ms = now_ms;
  interval_ms = 3600000;
  jitter_max_ms = 1000;
  live_neighbor_count = live;
  entropy = 12345;
}

abbrev after_first : Sched
after_first = record {
  last_tx_ms = 60000;
  next_min_tx_ms = 3600345;
  startup_count = 1;
  startup_done = false;
}

first_sent : tick zero_sched (firing 60000 0) ≡ (after_first, tx_startup)
unfolding tick
first_sent = refl

between_silent : all_silent after_first (firing 400000 3 ∷ []) ≡ true
unfolding all_silent tick
between_silent = refl

second_scheduled :
    (tick (run after_first (firing 400000 3 ∷ [])) (firing 4000000 0)).1 ≡ tx_scheduled
unfolding run tick
second_scheduled = refl

tick_spaced_example : gap (firing 60000 0) ≤ sub32 4000000 60000
tick_spaced_example =
    tick_spaced zero_sched (firing 60000 0) (firing 4000000 0) (firing 400000 3 ∷ [])
      (rw first_sent refl) (λ e. omega arith) (rw first_sent between_silent)
      (rw first_sent second_scheduled)

-- An assembler that starts afresh, and a frame with both special bytes.
abbrev idle : SlipRx
idle = record { buf = zero_data; len = 0; esc = false }

abbrev rx_frame : RxFrame
rx_frame = frame_of [] 0

abbrev rx_ring : Rb RxFrame
rx_ring = record { buf = λ (i : ℕ). rx_frame; cap = 8; head = 0; tail = 0; drops = 0 }

-- A driver that holds the bytes that wait.
abbrev line_driver : Uart
line_driver = record { State = List ℕ; read_bytes = λ (d : List ℕ) (n : ℕ). (drop n d, take n d) }

abbrev line_driver_law : IsUart line_driver
line_driver_law = record { waiting = λ (d : List ℕ). d; read = λ d n. refl; kept = λ d n. refl }

-- A frame of 200 bytes whose encoding has 402.
abbrev special_bytes : List ℕ
special_bytes = replicate 200 0xC0

usb_tick-slip_encode_example :
    let (s1, ring1, driver1) =
      usb_tick line_driver true idle rx_ring (slip_encode special_bytes) 5 in
    let (s2, ring2, driver2) = usb_tick line_driver true s1 ring1 driver1 6 in
    let time : ℕ = if leb (length (slip_encode special_bytes)) 256 then 5 else 6 in
    RoundTrip.Holds [] s2
    × (ring2 ≡ (try_push (flushed idle rx_ring 5) (frame_of special_bytes time)).1)
    × (driver2 ≡ [])
usb_tick-slip_encode_example =
    usb_tick-slip_encode line_driver line_driver_law (slip_encode special_bytes) idle rx_ring
      special_bytes 5 6 refl (omega arith) refl (omega arith) (omega arith) refl

-- A bus that has seen nothing, and links that take everything.
abbrev links : Links
links = record {
  ble_connected = true;
  raw_bridge = true;
  notify = λ (bytes : List ℕ). true;
  usb_ready = true;
  uart_write = λ (bytes : List ℕ). length bytes;
  t_sym_us = 4096;
}

abbrev bus : Bus.Bus
bus = record {
  cache = record { entries = replicate 64 Bus.empty; head = 0 };
  metrics = zero_metrics;
  tx_queue = radio_queue;
}

bus-IsValid : Memory.IsValid bus.cache
bus-IsValid = record { slots = refl; head_in = omega arith }

receive-tx_queue_example : (Bus.receive links bus sample_bytes 0).0.tx_queue ≡ bus.tx_queue
receive-tx_queue_example = receive-tx_queue links bus sample_bytes 0 (λ e. omega arith)

sample-header_of : header_of sample_bytes ≡ some (sample, text)
unfolding decode validate_wire_frame unpack_header_from_wire crc16
sample-header_of = refl

sample-taken : (Bus.receive links bus sample_bytes 0).1 ≡ true
unfolding Bus.receive Bus.register Bus.seen Bus.seen_scan decode validate_wire_frame
    unpack_header_from_wire crc16
sample-taken = refl

receive-once_example :
    (Bus.receive links
      (Memory.run links (Bus.receive links bus sample_bytes 0).0 [])
      sample_bytes
      0).1
    ≡ false
receive-once_example =
    receive-once links bus sample_bytes sample_bytes text text 0 0 sample sample [] bus-IsValid
      sample-header_of sample-header_of refl refl (λ e. omega arith) sample-taken (omega arith)

abbrev heard : Heard
heard = record { src = 4; pkt = 9; now = 1100 }
