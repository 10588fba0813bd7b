-- ===== src/Fabric/Relay.antt =====
-- firmware_core/rivr_fabric.c: what rivr_fabric_decide_relay answers, by packet type and score.
use rivr.Common.{ℕ, refl, inl, inr, Bool, arith, ltb, leb, Bool-cases, inc32, ◌+◌, ◌-◌}
use rivr.Common.{◌*◌, ◌/◌, ◌^◌, ◌≤◌, ◌<◌, ◌≡◌, ◌&&◌, ◌||◌, ◌==◌, if◌then◌else◌}
use rivr.Metrics.{Metrics}
use rivr.Protocol.{Hdr}
use rivr.Fabric.{Fabric, Decision, send_now, delay, drop_relay}
unfoldable use rivr.Fabric.{advance, score, decide_by_score, decide_relay}
use rivr.Fabric.Window.{IsValid, score-quiet}

-- The extra delay and the verdict that the documentation of the bands gives, over the score.
abbrev pub extra_of : ℕ → ℕ
extra_of s =
    if leb 95 s
    then 1000
    else if leb 80 s
    then 0
    else if leb 50 s
    then 250 + (s - 50) * 10
    else if leb 20 s
    then (s - 20) * 10
    else 0

abbrev pub verdict_of : ℕ → Decision
verdict_of s = if leb 80 s && ltb s 95 then drop_relay else if leb 20 s then delay else send_now

-- Whether a packet is chat or data.
abbrev pub is_traffic : Hdr → Bool
is_traffic pkt = pkt.pkt_type == 1 || pkt.pkt_type == 6

pub score-bound : (f : Fabric) → score f ≤ 100
unfolding score
score-bound f = ground arith

decide_by_score_lem :
    (f : Fabric) (m : Metrics) (s : ℕ)
    → s ≤ 100
    → let (f', m', verdict, extra) = decide_by_score f m s in
      (verdict ≡ verdict_of s) × (extra ≡ extra_of s) × (f'.last_score ≡ f.last_score)
unfolding decide_by_score
decide_by_score_lem f m s h = ground arith

-- The score reads the buckets alone.
score-advance_total :
    (f : Fabric) (now_ms n : ℕ)
    → score (advance (record f { relay_total = n }) now_ms) ≡ score (advance f now_ms)
unfolding advance score
score-advance_total f now_ms n = elim (Bool-cases (now_ms / 1000 == f.last_bucket_sec)) [
  | inl e ↦ rw e refl
  | inr e ↦ rw e refl
]

-- With s the score of the state as advanced to the call: for a chat or data packet
-- rivr_fabric_decide_relay drops if s is from 80 to 94, delays if s is from 20 to 79 or at least
-- 95, and sends now below 20; the extra delay is 1000 ms from 95 on, 250 ms and 10 ms for each
-- point above 50 from 50 to 79, 10 ms for each point above 20 from 20 to 49, and 0 otherwise. Any
-- other packet is sent now without delay. The score is at most 100.
pub decide_relay-verdict :
    (f : Fabric) (m : Metrics) (pkt : Hdr) (now_ms : ℕ)
    → let (f', m', verdict, extra) = decide_relay f m pkt now_ms in
      let s = score (advance f now_ms) in
      (verdict ≡ (if is_traffic pkt then verdict_of s else send_now))
      × (extra ≡ (if is_traffic pkt then extra_of s else 0))
      × (s ≤ 100)
unfolding decide_relay
decide_relay-verdict f m pkt now_ms =
    let f1 = advance (record f { relay_total = inc32 f.relay_total }) now_ms in
    let same = score-advance_total f now_ms (inc32 f.relay_total) in
    let spec =
      decide_by_score_lem (record f1 { last_score = score f1 }) m (score f1) (score-bound f1) in
    ground (arith, spec, same, score-bound (advance f now_ms))

-- For a state of sixty buckets: if no second of the last minute has been reached by a call, a
-- packet of any type is sent now and without extra delay.
pub decide_relay-quiet :
    (f : Fabric) (m : Metrics) (pkt : Hdr) (now_ms : ℕ)
    → IsValid f
    → now_ms < 2 ^ 32
    → f.last_bucket_sec + 60 ≤ now_ms / 1000
    → let (f', m', verdict, extra) = decide_relay f m pkt now_ms in
      (verdict ≡ send_now) × (extra ≡ 0)
decide_relay-quiet f m pkt now_ms v h quiet =
    ground (arith, decide_relay-verdict f m pkt now_ms, score-quiet f now_ms v h quiet)
