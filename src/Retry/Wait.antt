-- ===== src/Retry/Wait.antt =====
-- The slots and the waiting times of the retry table.
use rivr.Common.{ℕ, refl, inl, inr, true, false, not, some, List, [], arith, ltb, leb}
use rivr.Common.{Option-cases, length, count_if, IsU32, u32, place, place_none}
use rivr.Common.{place_some, ◌+◌, ◌-◌, ◌*◌, ◌^◌, ◌≤◌, ◌<◌, ◌≡◌, ◌&&◌, ◌∷◌, if◌then◌else◌}
use rivr.Metrics.{Metrics}
use rivr.Radio.{copy}
use rivr.Retry.{
  Entry, Table, in_table, enqueue, release, ack, Outside, is_due, resend, give_up, tick_entry,
  tick_all, tick, retry_max, timeout_ms,
}

abbrev pub in_use : List Entry → ℕ
in_use es = count_if in_table es

-- The counter says how many slots are taken.
pub record IsValid (rt : Table) : Type 0 where
  pub size : length rt.entries < 256
  pub counted : rt.count ≡ in_use rt.entries

release-some :
    (es es' : List Entry) (src pkt : ℕ)
    → release es src pkt ≡ some es'
    → (in_use es ≡ in_use es' + 1) × (length es' ≡ length es)
unfolding release
release-some [] es' src pkt h = ground arith
release-some (e ∷ es) es' src pkt h = elim (Option-cases (release es src pkt)) [
  | inl gone ↦ ground (arith, gone)
  | inr (r, there) ↦ ground (arith, there, release-some es r src pkt there)
]

-- `retry_table_enqueue` takes a frame exactly if it is not empty and a slot is free, takes one
-- slot then and none otherwise, and keeps the counter equal to the number of taken slots.
pub enqueue-IsValid :
    (rt : Table) (m : Metrics) (src pkt dst hop : ℕ) (frame : List ℕ) (len toa now : ℕ)
    → IsValid rt
    → let (rt', m', ok) = enqueue rt m src pkt dst hop frame len toa now in
      IsValid rt'
      × (ok ≡ (ltb 0 len && ltb (in_use rt.entries) (length rt.entries)))
      × (in_use rt'.entries ≡ (if ok then in_use rt.entries + 1 else in_use rt.entries))
unfolding enqueue
enqueue-IsValid rt m src pkt dst hop frame len toa now v =
    let fill : Entry → Entry = λ (e : Entry). record {
      ack_src_id = src;
      cur_pkt_id = pkt;
      dst_id = dst;
      next_hop = hop;
      frame = copy e.frame frame len;
      len = len;
      toa_us = toa;
      next_retry_ms = u32 (now + timeout_ms);
      timeout_interval_ms = timeout_ms;
      retries_left = retry_max;
      valid = true;
    } in
    elim (Option-cases (place in_table rt.entries fill)) [
      | inl full ↦
          rw full (ground (arith, v.size, v.counted, place_none in_table rt.entries fill full))
      | inr (es, free) ↦ rw free (
          ground
            (arith, v.size, v.counted, place_some in_table rt.entries es fill (λ e. refl) free))
    ]

-- `retry_table_ack` frees one slot if it says so and none otherwise, and keeps the counter equal
-- to the number of taken slots.
pub ack-IsValid :
    (rt : Table) (src pkt : ℕ)
    → IsValid rt
    → let (rt', ok) = ack rt src pkt in
      IsValid rt'
      × (in_use rt.entries ≡ (if ok then in_use rt'.entries + 1 else in_use rt'.entries))
unfolding ack
ack-IsValid rt src pkt v = elim (Option-cases (release rt.entries src pkt)) [
  | inl gone ↦ rw (gone, ack) (v, refl)
  | inr (es, there) ↦
      let k = release-some rt.entries es src pkt there in
      rw (there, ack)
        (
          record { size = omega (arith, k, v.size); counted = omega (arith, k, v.counted) },
          omega (arith, k),
        )
]

tick_entry_free :
    (o : Outside) (e : Entry) (now : ℕ) → e.valid ≡ false → (tick_entry o e now).1.valid ≡ false
unfolding tick_entry
tick_entry_free o e now h = ground arith

tick_all-in_use :
    (o : Outside) (es : List Entry) (count extra now : ℕ)
    → count ≡ in_use es + extra
    → ((tick_all o es count now).2 ≡ in_use (tick_all o es count now).1 + extra)
      × (length (tick_all o es count now).1 ≡ length es)
unfolding tick_all
tick_all-in_use o [] count extra now h = ground arith
tick_all-in_use o (e ∷ es) count extra now h =
    let (o1, e1) = tick_entry o e now in
    let count1 = if e.valid && not e1.valid then count - 1 else count in
    let extra1 = if e1.valid then extra + 1 else extra in
    let balanced : count1 ≡ in_use es + extra1 = ground (arith, h, tick_entry_free o e now) in
    let rest = tick_all-in_use o1 es count1 extra1 now balanced in ground (arith, rest)

-- `retry_table_tick` keeps the counter equal to the number of taken slots, and keeps the size of
-- the table below 256.
pub tick-IsValid : (o : Outside) (rt : Table) (now : ℕ) → IsValid rt → IsValid (tick o rt now).1
unfolding tick
tick-IsValid o rt now v =
    let k =
      tick_all-in_use (record o { pushed = 0 }) rt.entries rt.count 0 now
        (omega (arith, v.counted)) in
    record { size = omega (arith, k, v.size); counted = omega (arith, k) }

-- The transmissions an entry still causes: its retries and the fallback flood.
abbrev pub attempts_left : Entry → ℕ
attempts_left e = if e.valid then e.retries_left + 1 else 0

-- An entry that a tick finds due makes one attempt, and one that it does not stays as it is.
tick_entry-attempts :
    (o : Outside) (e : Entry) (now : ℕ)
    → attempts_left (tick_entry o e now).1
      ≡ (if is_due now e then attempts_left e - 1 else attempts_left e)
unfolding tick_entry resend give_up
tick_entry-attempts o e now = ground arith

-- One entry through a sequence of ticks; each comes with what the tick finds next to the table.
pub after : Entry → List (Outside × ℕ) → Entry
after e [] = e
after e (t ∷ ts) = after (tick_entry t.0 e t.1).1 ts

-- The ticks of the sequence that find the entry due.
pub due_ticks : Entry → List (Outside × ℕ) → ℕ
due_ticks e [] = 0
due_ticks e (t ∷ ts) = (if is_due t.1 e then 1 else 0) + due_ticks (tick_entry t.0 e t.1).1 ts

-- Each tick that finds an entry due takes one of its attempts, and other ticks take none. An entry
-- has left the table exactly if it was due at least as often as it had attempts.
pub attempts_run_out :
    (e : Entry) (ticks : List (Outside × ℕ))
    → (attempts_left (after e ticks) ≡ attempts_left e - due_ticks e ticks)
      × ((after e ticks).valid ≡ ltb (due_ticks e ticks) (attempts_left e))
unfolding after due_ticks
attempts_run_out e [] = (omega arith, ground arith)
attempts_run_out e (t ∷ ts) =
    ground (arith, tick_entry-attempts t.0 e t.1, attempts_run_out (tick_entry t.0 e t.1).1 ts)

-- A tick that finds an entry due with a retry left makes it due again after twice the interval it
-- waited before, and not earlier, for times up to 2^30 ms ahead. The interval is below 2^30 ms and
-- the clock fits its type.
pub resend_waits :
    (o : Outside) (e : Entry) (now d : ℕ)
    → 0 < e.retries_left
    → e.valid ≡ true
    → is_due now e ≡ true
    → e.timeout_interval_ms < 2 ^ 30
    → IsU32 now
    → d ≤ 2 ^ 30
    → let e' = (tick_entry o e now).1 in
      is_due (u32 (now + d)) e' ≡ leb (e.timeout_interval_ms * 2) d
unfolding tick_entry resend
resend_waits o e now d h hv due small hn hd = ground arith
