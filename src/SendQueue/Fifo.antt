-- ===== src/SendQueue/Fifo.antt =====
-- firmware_core/send_queue.c: the operations of the outbox as those of a bounded FIFO with expiry.
use rivr.Common.{ℕ, suc, refl, sym, ap, inl, inr, true, false, List, [], arith, ltb, leb}
use rivr.Common.{Bool-cases, length, get_or, set, take, drop, length-set, length-take}
use rivr.Common.{take-append, get_or-set_self, u8, ◌+◌, ◌-◌, ◌%◌, ◌≤◌, ◌<◌, ◌≡◌, ◌∙◌}
use rivr.Common.{◌&&◌, ◌∷◌, ◌++◌, ◌==◌, if◌then◌else◌}
use rivr.Metrics.{Metrics}
use rivr.Radio.{TxRequest, zero_data, copy}
use rivr.Ringbuf.{Rb, try_push}
use rivr.SendQueue.{Entry, Queue, empty, next, entry_at, request_of}
unfoldable use rivr.SendQueue.{append, enqueue, tick, expire}
use rivr.SendQueue.Expiry.{
  Message, contents, IsValid, messages-set, Taken-set, messages-snoc, Taken-snoc, expire-IsValid,
  remove_head-IsValid, length-messages,
}
unfoldable use rivr.SendQueue.Expiry.{messages, drop_stale}

take-copy :
    (dst src : List ℕ) (len : ℕ) → len ≤ length src → take len (copy dst src len) ≡ take len src
take-copy dst src len h =
    let n : length (take len src) ≡ len = omega (arith, length-take len src) in
    let whole : take (length (take len src)) (take len src ++ drop len dst) ≡ take len src =
      take-append (take len src) (drop len dst) in
    rw n at whole

append-IsValid :
    (sq : Queue) (bytes : List ℕ) (len toa_us now_ms : ℕ)
    → IsValid sq
    → len ≤ length bytes
    → sq.count < 16
    → IsValid (append sq bytes len toa_us now_ms)
      × (contents (append sq bytes len toa_us now_ms)
          ≡ contents sq
            ++ record { bytes = take len bytes; len = len; toa_us = toa_us; enqueued_ms = now_ms }
              ∷ [])
unfolding append
append-IsValid sq bytes len toa_us now_ms v h room =
    let size = v.size in
    let head_in = v.head_in in
    let tail_in = v.tail_in in
    let e : Entry = record {
      frame = copy (entry_at sq sq.tail).frame bytes len;
      len = len;
      toa_us = toa_us;
      enqueued_ms = now_ms;
      valid = true;
    } in
    let es = set sq.entries sq.tail e in
    let more : u8 (sq.count + 1) ≡ suc sq.count = omega arith in
    let step : next sq.tail ≡ (sq.head + suc sq.count) % 16 = omega arith in
    let free : sq.count ≤ (sq.tail + 16 - sq.head) % 16 = omega arith in
    let tail_lt : sq.tail < 16 = omega arith in
    let written : get_or es sq.tail empty ≡ e =
      get_or-set_self sq.entries sq.tail e empty (omega arith) in
    let there : get_or es ((sq.head + sq.count) % 16) empty ≡ e =
      ap (λ i. get_or es i empty) (sym tail_in) ∙ written in
    let kept = messages-set sq.count sq.entries sq.head sq.tail e head_in tail_lt free in
    let t = Taken-set sq.count sq.entries sq.head sq.tail e head_in tail_lt free v.taken in
    (
      record {
        size = length-set sq.entries sq.tail e ∙ size;
        head_in = head_in;
        tail_in = rw (more, step) refl;
        room = omega arith;
        taken = rw more (Taken-snoc sq.count es sq.head head_in t (ap (λ x. x.valid) there));
      },
      rw
          (
            more,
            messages-snoc sq.count es sq.head head_in,
            there,
            kept,
            take-copy (entry_at sq sq.tail).frame bytes len h,
          )
          refl,
    )

-- The message that an enqueue stores.
abbrev pub message : List ℕ → ℕ → ℕ → ℕ → Message
message bytes len toa_us now_ms = record {
  bytes = take len bytes;
  len = len;
  toa_us = toa_us;
  enqueued_ms = now_ms;
}

-- For a valid queue and a length that the bytes have: send_queue_enqueue keeps the queue valid; it
-- takes the message exactly if its length is not 0 and fewer than 16 messages are left once the
-- stale ones in front are dropped, and then appends it to those; a message of length 0 changes
-- nothing, and one that is refused for want of room leaves the messages without the stale ones.
pub enqueue_refines :
    (sq : Queue) (m : Metrics) (bytes : List ℕ) (len toa_us now_ms : ℕ)
    → IsValid sq
    → len ≤ length bytes
    → let (sq', m', ok) = enqueue sq m bytes len toa_us now_ms in
      let fresh = drop_stale now_ms (contents sq) in
      IsValid sq'
      × (ok ≡ (ltb 0 len && ltb (length fresh) 16))
      × (contents sq' ≡ (
          if ok
          then fresh ++ message bytes len toa_us now_ms ∷ []
          else if len == 0
          then contents sq
          else fresh))
unfolding enqueue
enqueue_refines sq m bytes len toa_us now_ms v h =
    let left = expire-IsValid sq m now_ms v in
    let sq1 = (expire sq m now_ms).0 in
    let size = length-messages sq1.count sq1.entries sq1.head in
    let counted : length (drop_stale now_ms (contents sq)) ≡ sq1.count = rw left.1 at size in
    elim (Bool-cases (len == 0)) [
      | inl e ↦ let no_bytes : ltb 0 len ≡ false = ground arith in rw (e, no_bytes) (v, refl, refl)
      | inr e ↦ elim (Bool-cases (leb 16 sq1.count)) [
        | inl full ↦
            let no_room : ltb sq1.count 16 ≡ false = ground arith in
            let some_bytes : ltb 0 len ≡ true = ground arith in
            rw (e, counted, full, no_room, some_bytes) (left.0, refl, left.1)
        | inr free ↦
            let room : ltb sq1.count 16 ≡ true = ground arith in
            let some_bytes : ltb 0 len ≡ true = ground arith in
            let more = append-IsValid sq1 bytes len toa_us now_ms left.0 h (ground arith) in
            rw (e, counted, free, room, some_bytes) (more.0, refl, rw left.1 at more.1)
      ]
    ]

-- What a FIFO with the messages `xs` hands to the ring: the first message, if the ring takes it.
unfoldable pub hand_over : Rb TxRequest → List Message → List Message × Rb TxRequest × ℕ
hand_over ring [] = ([], ring, 0)
hand_over ring (x ∷ xs) =
    let (ok, ring') = try_push ring (record {
      frame = x.bytes ++ drop x.len zero_data;
      len = x.len;
      toa_us = x.toa_us;
      due_ms = 0;
    }) in
    if ok then (xs, ring', 1) else (x ∷ xs, ring', 0)

-- For a valid queue: send_queue_tick drops the stale messages in front and hands the first message
-- that is left to the transmit ring, with its bytes, length and airtime; the message leaves the
-- queue exactly if the ring took it, the result is the number handed over, and the queue stays
-- valid.
pub tick_refines :
    (sq : Queue) (m : Metrics) (ring : Rb TxRequest) (now_ms : ℕ)
    → IsValid sq
    → let (sq', m', ring', handed) = tick sq m ring now_ms in
      IsValid sq'
      × ((contents sq', ring', handed) ≡ hand_over ring (drop_stale now_ms (contents sq)))
unfolding tick hand_over messages
tick_refines sq m ring now_ms v =
    let left = expire-IsValid sq m now_ms v in
    let sq1 = (expire sq m now_ms).0 in
    elim (Bool-cases (sq1.count == 0)) [
      | inl e ↦
          let none_left : sq1.count ≡ 0 = ground arith in
          let no_messages : contents sq1 ≡ [] = rw none_left refl in
          rw (e, sym left.1, no_messages) (left.0, refl)
      | inr e ↦
          let n = sq1.count - 1 in
          let some_left : sq1.count ≡ suc n = ground arith in
          let removed = remove_head-IsValid sq1 n left.0 some_left in
          let push = try_push ring (request_of (entry_at sq1 sq1.head)) in
          elim (Bool-cases push.0) [
            | inl ok ↦ rw (e, sym left.1, removed.1, removed.2, ok) (removed.0, refl)
            | inr full ↦
                rw (e, sym left.1, removed.1, removed.2, full)
                  (left.0, ap (λ l. (l, push.1, 0)) removed.1)
          ]
    ]
