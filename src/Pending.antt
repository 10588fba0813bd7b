-- ===== src/Pending.antt =====
-- firmware_core/pending_queue.h and pending_queue.c: messages that wait for a route.
-- The data array of an entry is a list of 255 bytes, of which the first `len` are the wire frame.
pub mod Slots
pub mod Drain
use rivr.Common.{ℕ, Bool, true, false, Option, none, some, List, [], ltb, length}
use rivr.Common.{replicate, count_if, u8, u32, inc32, sub32, place, ◌+◌, ◌-◌, ◌*◌, ◌/◌}
use rivr.Common.{◌&&◌, ◌||◌, ◌∷◌, ◌==◌, if◌then◌else◌}
use rivr.Metrics.{Metrics}
use rivr.Radio.{TxRequest, zero_data, copy, frame_cap}
use rivr.Protocol.{Hdr, decode, encode}
use rivr.Ringbuf.{Rb, try_push}

-- PENDING_QUEUE_SIZE, PENDING_EXPIRY_MS
abbrev pub queue_size : ℕ
queue_size = 16

abbrev pub expiry_ms : ℕ
expiry_ms = 30000

-- `pending_entry_t`
pub record Entry : Type 0 where
  pub dst_id : ℕ
  pub frame : List ℕ
  pub len : ℕ
  pub toa_us : ℕ
  pub enqueued_ms : ℕ
  pub valid : Bool

-- `pending_queue_t`
pub record Queue : Type 0 where
  pub entries : List Entry
  pub count : ℕ

-- An entry after `memset`.
abbrev pub empty : Entry
empty = record {
  dst_id = 0;
  frame = zero_data;
  len = 0;
  toa_us = 0;
  enqueued_ms = 0;
  valid = false;
}

-- An entry that takes its slot.
abbrev pub in_table : Entry → Bool
in_table e = e.valid

-- `pending_queue_init`
unfoldable pub init : Queue
init = record { entries = replicate queue_size empty; count = 0 }

abbrev pub is_expired : ℕ → Entry → Bool
is_expired now_ms e = ltb expiry_ms (sub32 now_ms e.enqueued_ms)

-- The loop of `pending_queue_expire`: the entries, the counter and the number evicted.
unfoldable pub expire_all : List Entry → ℕ → ℕ → ℕ → List Entry × ℕ × ℕ
expire_all [] count evicted now_ms = ([], count, evicted)
expire_all (e ∷ es) count evicted now_ms =
    let gone = e.valid && is_expired now_ms e in
    let (es', count', evicted') =
      expire_all es (if gone then count - 1 else count) (if gone then u8 (evicted + 1) else evicted)
        now_ms in
    ((if gone then empty else e) ∷ es', count', evicted')

-- `pending_queue_expire`
unfoldable pub expire : Queue → Metrics → ℕ → Queue × Metrics × ℕ
expire pq m now_ms =
    let (es, count, evicted) = expire_all pq.entries pq.count 0 now_ms in
    let counted : Metrics = record m {
      pq_expired = u32 (m.pq_expired + evicted);
      pending_queue_expired_total = u32 (m.pending_queue_expired_total + evicted);
    } in
    (record { entries = es; count = count }, if ltb 0 evicted then counted else m, evicted)

-- `pending_queue_enqueue`
unfoldable pub enqueue : Queue → Metrics → ℕ → List ℕ → ℕ → ℕ → ℕ → Queue × Metrics × Bool
enqueue pq m dst_id frame len toa_us now_ms =
    let size = if ltb len frame_cap then len else frame_cap in
    let fill : Entry → Entry = λ (e : Entry). record {
      dst_id = dst_id;
      frame = copy e.frame frame size;
      len = size;
      toa_us = toa_us;
      enqueued_ms = now_ms;
      valid = true;
    } in
    let (pq', m', evicted) = expire pq m now_ms in
    if len == 0 || dst_id == 0 then (pq, m, false) else elim (place in_table pq'.entries fill) [
      | none ↦ (pq', record m' { pq_dropped = inc32 m'.pq_dropped }, false)
      | some es ↦
          let count = if ltb pq'.count queue_size then pq'.count + 1 else pq'.count in
          (
            record { entries = es; count = count },
            if ltb m'.pq_peak count then record m' { pq_peak = count } else m',
            true,
          )
    ]

-- `reencode_as_unicast_hop`; the option is what goes through `out_req`.
unfoldable pub reencode_as_unicast_hop : Metrics → List ℕ → ℕ → ℕ → ℕ → Metrics × Option TxRequest
reencode_as_unicast_hop m frame len next_hop toa_us =
    let (m', read) = decode m frame len in
    elim read [
      | none ↦ (m', none)
      | some (hdr, pl) ↦
          let hop : Hdr = record hdr { dst_id = next_hop; ttl = 1 } in
          elim (encode hop pl frame_cap) [
            | none ↦ (m', none)
            | some enc ↦ (
              m',
              some (record {
                frame = copy zero_data enc (length enc);
                len = u8 (length enc);
                toa_us = toa_us;
                due_ms = 0;
              }),
            )
          ]
    ]

-- What `pending_queue_drain_for_dst` reads and writes next to the queue.
pub record Outside : Type 0 where
  pub tx_queue : Rb TxRequest
  pub metrics : Metrics
  pub sent : ℕ

-- The transmission of one entry.
unfoldable pub send_entry : Outside → Entry → ℕ → ℕ → Outside
send_entry o e next_hop now_ms =
    let (m, req) = reencode_as_unicast_hop o.metrics e.frame e.len next_hop e.toa_us in
    let made : Outside = record o { metrics = m } in
    let pushed : Outside = elim req [
      | none ↦ made
      | some r ↦
          let (ok, queue) = try_push o.tx_queue r in
          record made { tx_queue = queue; sent = if ok then u8 (o.sent + 1) else o.sent }
    ] in
    if is_expired now_ms e then o else pushed

-- The loop of `pending_queue_drain_for_dst`.
unfoldable pub drain_all : Outside → List Entry → ℕ → ℕ → ℕ → ℕ → Outside × List Entry × ℕ
drain_all o [] count dst_id next_hop now_ms = (o, [], count)
drain_all o (e ∷ es) count dst_id next_hop now_ms =
    let hit = e.valid && (e.dst_id == dst_id) in
    let (o', es', count') =
      drain_all (if hit then send_entry o e next_hop now_ms else o) es
        (if hit then count - 1 else count) dst_id next_hop now_ms in
    (o', (if hit then empty else e) ∷ es', count')

-- `pending_queue_drain_for_dst`; the number of frames pushed is `sent` of the result.
unfoldable pub drain_for_dst : Outside → Queue → ℕ → ℕ → ℕ → Outside × Queue
drain_for_dst o pq dst_id next_hop now_ms =
    let start : Outside = record o { sent = 0 } in
    let (o', es, count) = drain_all start pq.entries pq.count dst_id next_hop now_ms in
    if dst_id == 0 || next_hop == 0
    then (start, pq)
    else (o', record { entries = es; count = count })

-- `pending_queue_count`, `pending_queue_pressure`
unfoldable pub count : Queue → ℕ
count pq = u8 (count_if in_table pq.entries)

unfoldable pub pressure : Queue → ℕ
pressure pq = u8 (u32 (pq.count * 100) / queue_size)
