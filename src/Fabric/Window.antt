-- ===== src/Fabric/Window.antt =====
-- firmware_core/rivr_fabric.c: the ring of buckets as a window over the last sixty seconds.
use rivr.Common.{ℕ, zero, suc, min, refl, sym, ap, inl, inr, true, false, List, [], arith}
use rivr.Common.{leb, Bool-cases, length, get_or, set, length-set, get_or-set_ne, u32}
use rivr.Common.{sub32, ◌+◌, ◌-◌, ◌/◌, ◌%◌, ◌^◌, ◌≤◌, ◌<◌, ◌≡◌, ◌∙◌, ◌∷◌, ◌==◌}
use rivr.Common.{if◌then◌else◌}
use rivr.Fabric.{Bucket, Fabric}
unfoldable use rivr.Fabric.{zero_bucket, clear_from, advance, total, score}

-- The bucket of a second.
abbrev pub bucket_at : Fabric → ℕ → Bucket
bucket_at f sec = get_or f.buckets (sec % 60) zero_bucket

pub record IsValid (f : Fabric) : Type 0 where
  pub size : length f.buckets ≡ 60
  pub clock : f.last_bucket_sec < 4294968

-- A cleared bucket stays cleared.
get_or-set_zero :
    (bs : List Bucket) (i : ℕ) → get_or (set bs i zero_bucket) i zero_bucket ≡ zero_bucket
get_or-set_zero [] i = refl
get_or-set_zero (b ∷ bs) zero = refl
get_or-set_zero (b ∷ bs) (suc i) = get_or-set_zero bs i

set_zero-keeps :
    (bs : List Bucket) (i j : ℕ)
    → get_or bs j zero_bucket ≡ zero_bucket
    → get_or (set bs i zero_bucket) j zero_bucket ≡ zero_bucket
set_zero-keeps [] i j h = h
set_zero-keeps (b ∷ bs) zero zero h = refl
set_zero-keeps (b ∷ bs) zero (suc j) h = h
set_zero-keeps (b ∷ bs) (suc i) zero h = h
set_zero-keeps (b ∷ bs) (suc i) (suc j) h = set_zero-keeps bs i j h

clear_from-keeps :
    (n : ℕ) (bs : List Bucket) (last d j : ℕ)
    → get_or bs j zero_bucket ≡ zero_bucket
    → get_or (clear_from bs last d n) j zero_bucket ≡ zero_bucket
unfolding clear_from
clear_from-keeps zero bs last d j h = h
clear_from-keeps (suc n) bs last d j h =
    clear_from-keeps n (set bs (u32 (last + d) % 60) zero_bucket) last (d + 1) j
      (set_zero-keeps bs (u32 (last + d) % 60) j h)

length-clear_from :
    (n : ℕ) (bs : List Bucket) (last d : ℕ) → length (clear_from bs last d n) ≡ length bs
unfolding clear_from
length-clear_from zero bs last d = refl
length-clear_from (suc n) bs last d =
    length-clear_from n (set bs (u32 (last + d) % 60) zero_bucket) last (d + 1)
    ∙ length-set bs (u32 (last + d) % 60) zero_bucket

-- The rounds from `d` on clear the buckets of the seconds they visit.
clear_from-clears :
    (n : ℕ) (bs : List Bucket) (last d k : ℕ)
    → d ≤ k
    → k < d + n
    → last + k < 2 ^ 32
    → get_or (clear_from bs last d n) ((last + k) % 60) zero_bucket ≡ zero_bucket
unfolding clear_from
clear_from-clears zero bs last d k h1 h2 h3 = absurd (omega arith)
clear_from-clears (suc n) bs last d k h1 h2 h3 =
    let bs' = set bs (u32 (last + d) % 60) zero_bucket in
    elim (Bool-cases (d == k)) [
      | inl e ↦
          let here : u32 (last + d) % 60 ≡ (last + k) % 60 = ground arith in
          clear_from-keeps n bs' last (d + 1) ((last + k) % 60) (
            ap (λ i. get_or (set bs i zero_bucket) ((last + k) % 60) zero_bucket) here
            ∙ get_or-set_zero bs ((last + k) % 60))
      | inr e ↦ clear_from-clears n bs' last (d + 1) k (ground arith) (omega arith) h3
    ]

-- They leave the bucket of a second less than sixty before them.
clear_from-leaves :
    (n : ℕ) (bs : List Bucket) (last d sec : ℕ)
    → sec < last + d
    → last + d + n ≤ sec + 60
    → last + d + n < 2 ^ 32
    → get_or (clear_from bs last d n) (sec % 60) zero_bucket ≡ get_or bs (sec % 60) zero_bucket
unfolding clear_from
clear_from-leaves zero bs last d sec h1 h2 h3 = refl
clear_from-leaves (suc n) bs last d sec h1 h2 h3 =
    clear_from-leaves n (set bs (u32 (last + d) % 60) zero_bucket) last (d + 1) sec (omega arith)
      (omega arith) (omega arith)
    ∙ get_or-set_ne bs (u32 (last + d) % 60) (sec % 60) zero_bucket zero_bucket
        (λ e. absurd (omega arith))

pub advance-IsValid :
    (f : Fabric) (now_ms : ℕ) → IsValid f → now_ms < 2 ^ 32 → IsValid (advance f now_ms)
unfolding advance
advance-IsValid f now_ms v h = elim (Bool-cases (now_ms / 1000 == f.last_bucket_sec)) [
  | inl e ↦ rw e v
  | inr e ↦ rw e (record {
    size =
        length-clear_from (min (sub32 (now_ms / 1000) f.last_bucket_sec) 60) f.buckets
          f.last_bucket_sec 1
        ∙ v.size;
    clock = omega arith;
  })
]

-- For a state of sixty buckets and a clock that is not behind its last second: after fabric_advance
-- each of the last sixty seconds up to the present one has the bucket it had if the state had
-- reached it, and an empty one if not.
pub advance-bucket_at :
    (f : Fabric) (now_ms sec : ℕ)
    → IsValid f
    → now_ms < 2 ^ 32
    → f.last_bucket_sec ≤ now_ms / 1000
    → sec ≤ now_ms / 1000
    → now_ms / 1000 < sec + 60
    → bucket_at (advance f now_ms) sec
      ≡ (if leb sec f.last_bucket_sec then bucket_at f sec else zero_bucket)
unfolding advance
advance-bucket_at f now_ms sec v h later past recent =
    let last = f.last_bucket_sec in
    let n = min (sub32 (now_ms / 1000) last) 60 in
    elim (Bool-cases (now_ms / 1000 == last)) [
      | inl e ↦ let reached : leb sec last ≡ true = ground arith in rw (e, reached) refl
      | inr e ↦ elim (Bool-cases (leb sec last)) [
        | inl reached ↦
            let clock = v.clock in
            let bound : last + 1 + n ≤ sec + 60 = ground arith in
            rw (e, reached)
              (clear_from-leaves n f.buckets last 1 sec (ground arith) bound (omega arith))
        | inr ahead ↦
            let clock = v.clock in
            let k = (sec - last - 1) % 60 + 1 in
            let there : (last + k) % 60 ≡ sec % 60 = ground arith in
            let visited : k < 1 + n = ground arith in
            rw (e, ahead)
              (ap (λ i. get_or (clear_from f.buckets last 1 n) i zero_bucket) (sym there)
                ∙ clear_from-clears n f.buckets last 1 k (omega arith) visited (omega arith))
      ]
    ]

-- Buckets that are all empty have total 0.
total-zero :
    (field : Bucket → ℕ) (bs : List Bucket)
    → field zero_bucket ≡ 0
    → ((i : ℕ) → i < length bs → get_or bs i zero_bucket ≡ zero_bucket)
    → total field 0 bs ≡ 0
unfolding total
total-zero field [] h all = refl
total-zero field (b ∷ bs) h all =
    let none_here : field b ≡ 0 = ap field (all 0 (omega arith)) ∙ h in
    let keep : u32 (0 + field b) ≡ 0 = omega (arith, none_here) in
    rw keep (total-zero field bs h (λ i lt. all (suc i) (omega arith)))

-- After a minute without a call every bucket is empty.
advance-empties :
    (f : Fabric) (now_ms i : ℕ)
    → IsValid f
    → now_ms < 2 ^ 32
    → f.last_bucket_sec + 60 ≤ now_ms / 1000
    → i < 60
    → get_or (advance f now_ms).buckets i zero_bucket ≡ zero_bucket
advance-empties f now_ms i v h quiet lt =
    let last = f.last_bucket_sec in
    let sec = now_ms / 1000 - (now_ms / 1000 + 60 - i) % 60 in
    let ahead : leb sec last ≡ false = ground arith in
    let there : sec % 60 ≡ i = omega arith in
    ap (λ j. get_or (advance f now_ms).buckets j zero_bucket) (sym there)
    ∙ advance-bucket_at f now_ms sec v h (omega arith) (omega arith) (omega arith)
    ∙ rw ahead refl

pub score-quiet :
    (f : Fabric) (now_ms : ℕ)
    → IsValid f
    → now_ms < 2 ^ 32
    → f.last_bucket_sec + 60 ≤ now_ms / 1000
    → score (advance f now_ms) ≡ 0
unfolding score
score-quiet f now_ms v h quiet =
    let size = (advance-IsValid f now_ms v h).size in
    let all : (i : ℕ)
        → i < length (advance f now_ms).buckets
        → get_or (advance f now_ms).buckets i zero_bucket ≡ zero_bucket =
      λ i lt. advance-empties f now_ms i v h quiet (omega arith) in
    rw
      (
        total-zero (λ b. b.rx_count) (advance f now_ms).buckets refl all,
        total-zero (λ b. b.tx_fail_count) (advance f now_ms).buckets refl all,
        total-zero (λ b. b.tx_blocked_dc) (advance f now_ms).buckets refl all,
      )
      refl
