-- ===== src/SendQueue.antt =====
-- firmware_core/send_queue.h and send_queue.c: the FIFO outbox of frames that this node originates.
-- The data array of an entry is a list of 255 bytes (the field `data`); the null checks are left out.
pub mod Expiry
pub mod Fifo
use rivr.Common.{ℕ, zero, suc, Bool, true, false, not, List, ltb, leb, get_or, set}
use rivr.Common.{replicate, u8, inc32, sub32, ◌+◌, ◌-◌, ◌%◌, ◌==◌, if◌then◌else◌}
use rivr.Metrics.{Metrics}
use rivr.Radio.{TxRequest, zero_data, copy}
use rivr.Ringbuf.{Rb, try_push}

-- SEND_QUEUE_SIZE, SEND_QUEUE_EXPIRY_MS
abbrev pub queue_size : ℕ
queue_size = 16

abbrev pub expiry_ms : ℕ
expiry_ms = 120000

-- `send_entry_t`
pub record Entry : Type 0 where
  pub frame : List ℕ
  pub len : ℕ
  pub toa_us : ℕ
  pub enqueued_ms : ℕ
  pub valid : Bool

-- `send_queue_t`
pub record Queue : Type 0 where
  pub entries : List Entry
  pub head : ℕ
  pub tail : ℕ
  pub count : ℕ

-- An entry after `memset`.
abbrev pub empty : Entry
empty = record { frame = zero_data; len = 0; toa_us = 0; enqueued_ms = 0; valid = false }

abbrev pub entry_at : Queue → ℕ → Entry
entry_at sq i = get_or sq.entries i empty

-- `(i + 1u) % SEND_QUEUE_SIZE`
abbrev pub next : ℕ → ℕ
next i = u8 ((i + 1) % queue_size)

-- `send_queue_init`
unfoldable pub init : Queue
init = record { entries = replicate queue_size empty; head = 0; tail = 0; count = 0 }

-- The entry at the head cleared and left behind.
abbrev pub remove_head : Queue → Queue
remove_head sq = record sq {
  entries = set sq.entries sq.head empty;
  head = next sq.head;
  count = sq.count - 1;
}

-- The loop of `send_queue_expire`, at most `n` rounds of it.
unfoldable pub expire_rounds : ℕ → Queue → Metrics → ℕ → Queue × Metrics
expire_rounds zero sq m now_ms = (sq, m)
expire_rounds (suc n) sq m now_ms =
    let e = entry_at sq sq.head in
    let skip = expire_rounds n (record sq { head = next sq.head; count = sq.count - 1 }) m now_ms in
    let evict =
      expire_rounds n (remove_head sq) (record m { sq_expired = inc32 m.sq_expired }) now_ms in
    if not (ltb 0 sq.count)
    then (sq, m)
    else if not e.valid
    then skip
    else if leb (sub32 now_ms e.enqueued_ms) expiry_ms
    then (sq, m)
    else evict

-- `send_queue_expire`; each round lowers the count.
unfoldable pub expire : Queue → Metrics → ℕ → Queue × Metrics
expire sq m now_ms = expire_rounds sq.count sq m now_ms

-- The writes of `send_queue_enqueue` to the slot at the tail.
unfoldable pub append : Queue → List ℕ → ℕ → ℕ → ℕ → Queue
append sq bytes len toa_us now_ms = record sq {
  entries = set sq.entries sq.tail (record {
    frame = copy (entry_at sq sq.tail).frame bytes len;
    len = len;
    toa_us = toa_us;
    enqueued_ms = now_ms;
    valid = true;
  });
  tail = next sq.tail;
  count = u8 (sq.count + 1);
}

-- `send_queue_enqueue`
unfoldable pub enqueue : Queue → Metrics → List ℕ → ℕ → ℕ → ℕ → Queue × Metrics × Bool
enqueue sq m bytes len toa_us now_ms =
    let (sq1, m1) = expire sq m now_ms in
    let sq2 = append sq1 bytes len toa_us now_ms in
    if len == 0
    then (sq, m, false)
    else if leb queue_size sq1.count
    then (sq1, record m1 { sq_dropped = inc32 m1.sq_dropped }, false)
    else (sq2, (if ltb m1.sq_peak sq2.count then record m1 { sq_peak = sq2.count } else m1), true)

-- The request that `send_queue_tick` makes of an entry.
abbrev pub request_of : Entry → TxRequest
request_of e = record {
  frame = copy zero_data e.frame e.len;
  len = e.len;
  toa_us = e.toa_us;
  due_ms = 0;
}

-- `send_queue_tick`; the last component is the number of frames handed over.
unfoldable pub tick : Queue → Metrics → Rb TxRequest → ℕ → Queue × Metrics × Rb TxRequest × ℕ
tick sq m tx_queue now_ms =
    let (sq1, m1) = expire sq m now_ms in
    let e = entry_at sq1 sq1.head in
    let (ok, ring) = try_push tx_queue (request_of e) in
    if sq1.count == 0
    then (sq1, m1, tx_queue, 0)
    else if not e.valid
    then (remove_head sq1, m1, tx_queue, 0)
    else if not ok
    then (sq1, m1, ring, 0)
    else (remove_head sq1, m1, ring, 1)

-- `send_queue_count`
unfoldable pub count : Queue → ℕ
count sq = sq.count
