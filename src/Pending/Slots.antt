-- ===== src/Pending/Slots.antt =====
-- The slots of the pending queue.
use rivr.Common.{ℕ, refl, inl, inr, Bool, true, not, List, [], arith, ltb, Option-cases}
use rivr.Common.{length, count_if, u8, place, place_none, place_some, ◌+◌, ◌-◌, ◌<◌, ◌≡◌}
use rivr.Common.{◌&&◌, ◌∷◌, ◌==◌, if◌then◌else◌}
use rivr.Metrics.{Metrics}
use rivr.Radio.{copy, frame_cap}
use rivr.Pending.{
  Entry, Queue, queue_size, in_table, is_expired, expire_all, expire, enqueue, Outside, send_entry,
  drain_all, drain_for_dst,
}

abbrev pub in_use : List Entry → ℕ
in_use es = count_if in_table es

-- The counter says how many slots are taken.
pub record IsValid (pq : Queue) : Type 0 where
  pub size : length pq.entries ≡ queue_size
  pub counted : pq.count ≡ in_use pq.entries

-- The entries that expiry leaves.
abbrev pub fresh : ℕ → Entry → Bool
fresh now e = e.valid && not (is_expired now e)

expire_all_lem :
    (es : List Entry) (count evicted extra now : ℕ)
    → count ≡ in_use es + extra
    → evicted + length es < 256
    → let (es', count', evicted') = expire_all es count evicted now in
      (length es' ≡ length es)
      × (in_use es' ≡ count_if (fresh now) es)
      × (count' ≡ in_use es' + extra)
      × (evicted' + in_use es' ≡ evicted + in_use es)
unfolding expire_all
expire_all_lem [] count evicted extra now h hl = ground arith
expire_all_lem (e ∷ es) count evicted extra now h hl =
    let gone = e.valid && is_expired now e in
    let extra' = if fresh now e then extra + 1 else extra in
    let rest =
      expire_all_lem es (if gone then count - 1 else count)
        (if gone then u8 (evicted + 1) else evicted) extra' now (ground arith) (ground arith) in
    ground (arith, rest)

-- `pending_queue_expire` leaves as many entries as are at most 30 s old, returns the number that it
-- removed, and keeps the counter equal to the number of taken slots.
pub expire_lem :
    (pq : Queue) (m : Metrics) (now : ℕ)
    → IsValid pq
    → let (pq', m', evicted) = expire pq m now in
      IsValid pq'
      × (in_use pq'.entries ≡ count_if (fresh now) pq.entries)
      × (evicted + in_use pq'.entries ≡ in_use pq.entries)
unfolding expire
expire_lem pq m now v =
    let k =
      expire_all_lem pq.entries pq.count 0 0 now (omega (arith, v.counted))
        (omega (arith, v.size)) in
    (
      record { size = omega (arith, k, v.size); counted = omega (arith, k) },
      omega (arith, k),
      omega (arith, k),
    )

-- `pending_queue_enqueue` takes a message exactly if it has bytes and a destination and fewer than
-- 16 of the waiting messages are at most 30 s old; it keeps the counter right in any case.
pub enqueue_lem :
    (pq : Queue) (m : Metrics) (dst : ℕ) (frame : List ℕ) (len toa now : ℕ)
    → IsValid pq
    → let (pq', m', ok) = enqueue pq m dst frame len toa now in
      IsValid pq'
      × (ok ≡ (ltb 0 len && ltb 0 dst && ltb (count_if (fresh now) pq.entries) queue_size))
unfolding enqueue
enqueue_lem pq m dst frame len toa now v =
    let size = if ltb len frame_cap then len else frame_cap in
    let fill : Entry → Entry = λ (e : Entry). record {
      dst_id = dst;
      frame = copy e.frame frame size;
      len = size;
      toa_us = toa;
      enqueued_ms = now;
      valid = true;
    } in
    let swept = (expire pq m now).0 in
    let k = expire_lem pq m now v in
    elim (Option-cases (place in_table swept.entries fill)) [
      | inl full ↦ rw full (
          ground (
            arith,
            k.0.size,
            k.0.counted,
            k,
            v.size,
            v.counted,
            place_none in_table swept.entries fill full,
          ))
      | inr (es, free) ↦ rw free (
          ground (
            arith,
            k.0.size,
            k.0.counted,
            k,
            v.size,
            v.counted,
            place_some in_table swept.entries es fill (λ e. refl) free,
          ))
    ]

-- The entries for a destination.
abbrev pub waits_for : ℕ → Entry → Bool
waits_for dst e = e.valid && (e.dst_id == dst)

drain_all_lem :
    (o : Outside) (es : List Entry) (count extra dst hop now : ℕ)
    → count ≡ in_use es + extra
    → let (o', es', count') = drain_all o es count dst hop now in
      (length es' ≡ length es)
      × (count_if (waits_for dst) es' ≡ 0)
      × (in_use es' + count_if (waits_for dst) es ≡ in_use es)
      × (count' ≡ in_use es' + extra)
unfolding drain_all
drain_all_lem o [] count extra dst hop now h = ground arith
drain_all_lem o (e ∷ es) count extra dst hop now h =
    let hit = e.valid && (e.dst_id == dst) in
    let extra' = if e.valid && not hit then extra + 1 else extra in
    let rest =
      drain_all_lem (if hit then send_entry o e hop now else o) es
        (if hit then count - 1 else count) extra' dst hop now (ground arith) in
    ground (arith, rest)

-- `pending_queue_drain_for_dst` leaves no message for the destination, whether it could be sent or
-- not, removes only as many messages as waited for it, and keeps the counter right; the destination
-- and the next hop are not 0.
pub drain_for_dst_lem :
    (o : Outside) (pq : Queue) (dst hop now : ℕ)
    → IsValid pq
    → 0 < dst
    → 0 < hop
    → let (o', pq') = drain_for_dst o pq dst hop now in
      IsValid pq'
      × (count_if (waits_for dst) pq'.entries ≡ 0)
      × (in_use pq'.entries + count_if (waits_for dst) pq.entries ≡ in_use pq.entries)
unfolding drain_for_dst
drain_for_dst_lem o pq dst hop now v hd hh =
    let start : Outside = record o { sent = 0 } in
    let k = drain_all_lem start pq.entries pq.count 0 dst hop now (omega (arith, v.counted)) in
    ground (arith, k, v.size, v.counted)
