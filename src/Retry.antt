-- ===== src/Retry.antt =====
-- firmware_core/retry_table.h and retry_table.c: frames that wait for an acknowledgement.
-- RETRY_TABLE_SIZE is a build setting: the size of the table is the length of `entries`. The data
-- array of an entry is a list of 255 bytes, of which the first `len` are the wire frame (the field `data`).
pub mod Wait
pub mod Frame
use rivr.Common.{ℕ, bit_and, bit_or, Bool, true, false, not, Option, none, some, List, []}
use rivr.Common.{ltb, leb, length, set, replicate, count_if, u8, u16, u32, inc32, sub32}
use rivr.Common.{keep_first, place, ◌+◌, ◌-◌, ◌*◌, ◌/◌, ◌%◌, ◌^◌, ◌&&◌, ◌∷◌, ◌==◌}
use rivr.Common.{if◌then◌else◌}
use rivr.Metrics.{Metrics}
use rivr.Radio.{TxRequest, zero_data, copy}
use rivr.Protocol.{hdr_len, crc_len, at}
use rivr.Protocol.Crc.{crc16}
use rivr.Ringbuf.{Rb, try_push}

-- RETRY_MAX, RETRY_TIMEOUT_MS, RIVR_FALLBACK_TTL
abbrev pub retry_max : ℕ
retry_max = 3

abbrev pub timeout_ms : ℕ
timeout_ms = 4000

abbrev pub fallback_ttl : ℕ
fallback_ttl = 3

-- PKT_FLAG_ACK_REQ, PKT_FLAG_FALLBACK
abbrev pub flag_ack_req : ℕ
flag_ack_req = 1

abbrev pub flag_fallback : ℕ
flag_fallback = 4

-- `retry_entry_t`
pub record Entry : Type 0 where
  pub ack_src_id : ℕ
  pub cur_pkt_id : ℕ
  pub dst_id : ℕ
  pub next_hop : ℕ
  pub frame : List ℕ
  pub len : ℕ
  pub toa_us : ℕ
  pub next_retry_ms : ℕ
  pub timeout_interval_ms : ℕ
  pub retries_left : ℕ
  pub valid : Bool

-- `retry_table_t`
pub record Table : Type 0 where
  pub entries : List Entry
  pub count : ℕ

-- An entry after `memset`.
abbrev pub empty : Entry
empty = record {
  ack_src_id = 0;
  cur_pkt_id = 0;
  dst_id = 0;
  next_hop = 0;
  frame = zero_data;
  len = 0;
  toa_us = 0;
  next_retry_ms = 0;
  timeout_interval_ms = 0;
  retries_left = 0;
  valid = false;
}

-- `patch_pkt_id_and_crc`
unfoldable pub patch_pkt_id_and_crc : List ℕ → ℕ → ℕ → List ℕ
patch_pkt_id_and_crc frame len new_pkt_id =
    let named = set (set frame 19 (new_pkt_id % 256)) 20 (new_pkt_id / 256) in
    let crc_off = u8 (hdr_len + at named 21) in
    let crc = crc16 named crc_off in
    if leb (u16 (crc_off + crc_len)) len
    then set (set named crc_off (crc % 256)) (crc_off + 1) (crc / 256)
    else named

-- The bytes that a fallback flood changes, before the id and the CRC.
unfoldable pub flood_bytes : List ℕ → List ℕ
flood_bytes d0 =
    let d1 = set d0 4 (u8 (bit_or (bit_and (at d0 4) (255 - flag_ack_req)) flag_fallback)) in
    let d2 = set (set d1 5 fallback_ttl) 6 0 in
    let d3 = set (set (set (set d2 13 0) 14 0) 15 0) 16 0 in set d3 22 0

-- `build_fallback_flood`
unfoldable pub build_fallback_flood : Entry → ℕ → TxRequest
build_fallback_flood e fb_pkt_id = record {
  frame = patch_pkt_id_and_crc (flood_bytes (copy zero_data e.frame e.len)) e.len fb_pkt_id;
  len = e.len;
  toa_us = e.toa_us;
  due_ms = 0;
}

-- An entry that takes its slot.
abbrev pub in_table : Entry → Bool
in_table e = e.valid

-- `retry_table_init`
unfoldable pub init : ℕ → Table
init size = record { entries = replicate size empty; count = 0 }

-- `retry_table_enqueue`
unfoldable pub enqueue :
    Table → Metrics → ℕ → ℕ → ℕ → ℕ → List ℕ → ℕ → ℕ → ℕ → Table × Metrics × Bool
enqueue rt m ack_src_id cur_pkt_id dst_id next_hop frame len toa_us now_ms =
    let fill : Entry → Entry = λ (e : Entry). record {
      ack_src_id = ack_src_id;
      cur_pkt_id = cur_pkt_id;
      dst_id = dst_id;
      next_hop = next_hop;
      frame = copy e.frame frame len;
      len = len;
      toa_us = toa_us;
      next_retry_ms = u32 (now_ms + timeout_ms);
      timeout_interval_ms = timeout_ms;
      retries_left = retry_max;
      valid = true;
    } in
    if len == 0 then (rt, m, false) else elim (place in_table rt.entries fill) [
      | none ↦ (rt, record m { retry_fail_total = inc32 m.retry_fail_total }, false)
      | some es ↦ (
        record {
          entries = es;
          count = if ltb rt.count (length rt.entries) then rt.count + 1 else rt.count;
        },
        m,
        true,
      )
    ]

-- The scan of `retry_table_ack`: the table without the entry, if there is one.
unfoldable pub release : List Entry → ℕ → ℕ → Option (List Entry)
release [] src pkt = none
release (e ∷ es) src pkt =
    let rest = keep_first e (release es src pkt) in
    if e.valid && (e.ack_src_id == src && e.cur_pkt_id == pkt) then some (empty ∷ es) else rest

-- `retry_table_ack`
unfoldable pub ack : Table → ℕ → ℕ → Table × Bool
ack rt src pkt = elim (release rt.entries src pkt) [
  | none ↦ (rt, false)
  | some es ↦ (record { entries = es; count = rt.count - 1 }, true)
]

-- What `retry_table_tick` reads and writes next to the table.
pub record Outside : Type 0 where
  pub tx_queue : Rb TxRequest
  pub pkt_id_counter : ℕ
  pub metrics : Metrics
  pub pushed : ℕ

-- `(int32_t)(now_ms - next_retry_ms) >= 0`
abbrev pub is_due : ℕ → Entry → Bool
is_due now_ms e = ltb (sub32 now_ms e.next_retry_ms) (2 ^ 31)

-- The branch of `retry_table_tick` that sends the frame again.
unfoldable pub resend : Outside → Entry → ℕ → Outside × Entry
resend o e now_ms =
    let counter = inc32 o.pkt_id_counter in
    let new_pkt_id = u16 counter in
    let frame = patch_pkt_id_and_crc e.frame e.len new_pkt_id in
    let req : TxRequest = record {
      frame = copy zero_data frame e.len;
      len = e.len;
      toa_us = e.toa_us;
      due_ms = 0;
    } in
    let (ok, queue) = try_push o.tx_queue req in
    let m = o.metrics in
    let interval = u32 (e.timeout_interval_ms * 2) in
    (
      record {
        tx_queue = queue;
        pkt_id_counter = counter;
        metrics = if ok then record m { retry_attempt_total = inc32 m.retry_attempt_total } else m;
        pushed = if ok then u8 (o.pushed + 1) else o.pushed;
      },
      record e {
        cur_pkt_id = new_pkt_id;
        frame = frame;
        retries_left = e.retries_left - 1;
        timeout_interval_ms = interval;
        next_retry_ms = u32 (now_ms + interval);
      },
    )

-- The branch that gives up and floods the frame.
unfoldable pub give_up : Outside → Entry → Outside × Entry
give_up o e =
    let counter = inc32 o.pkt_id_counter in
    let (ok, queue) = try_push o.tx_queue (build_fallback_flood e (u16 counter)) in
    let m : Metrics = record o.metrics { retry_fail_total = inc32 o.metrics.retry_fail_total } in
    (
      record {
        tx_queue = queue;
        pkt_id_counter = counter;
        metrics =
            if ok then record m { retry_fallback_total = inc32 m.retry_fallback_total } else m;
        pushed = if ok then u8 (o.pushed + 1) else o.pushed;
      },
      empty,
    )

-- One slot of `retry_table_tick`.
unfoldable pub tick_entry : Outside → Entry → ℕ → Outside × Entry
tick_entry o e now_ms =
    if not e.valid
    then (o, e)
    else if not (is_due now_ms e)
    then (o, e)
    else if ltb 0 e.retries_left
    then resend o e now_ms
    else give_up o e

-- The loop, with the number of entries still counted.
unfoldable pub tick_all : Outside → List Entry → ℕ → ℕ → Outside × List Entry × ℕ
tick_all o [] count now_ms = (o, [], count)
tick_all o (e ∷ es) count now_ms =
    let (o1, e1) = tick_entry o e now_ms in
    let count1 = if e.valid && not e1.valid then count - 1 else count in
    let (o2, es2, count2) = tick_all o1 es count1 now_ms in (o2, e1 ∷ es2, count2)

-- `retry_table_tick`; the number of frames pushed is `pushed` of the result.
unfoldable pub tick : Outside → Table → ℕ → Outside × Table
tick o rt now_ms =
    let (o', es, count) = tick_all (record o { pushed = 0 }) rt.entries rt.count now_ms in
    (o', record { entries = es; count = count })

-- `retry_table_count`
unfoldable pub count : Table → ℕ
count rt = u8 (count_if in_table rt.entries)
