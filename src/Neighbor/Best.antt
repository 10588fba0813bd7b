-- ===== src/Neighbor/Best.antt =====
-- firmware_core/neighbor_table.c: link scores over time, and the neighbour of the best one.
use rivr.Common.{ℕ, zero, suc, sym, ap, subst, inl, inr, Bool, Option, none, some, List}
use rivr.Common.{[], arith, pos, negsuc, ltb, leb, ltb→lt, Bool-cases, length, get_or}
use rivr.Common.{take, All, sub32, ℤ, clamp_add, ◌+◌, ◌-◌, ◌*◌, ◌≤◌, ◌<◌, ◌≡◌, ◌∙◌, ◌||◌}
use rivr.Common.{◌∷◌, ◌==◌, if◌then◌else◌}
use Prim.Native.Nat.{max}
use native.Mathlib.Nat.{mul-le-mul, mul-le-mul_left}
use rivr.Neighbor.{Neighbor, Table, empty, entry_at, is_expired}
use rivr.Neighbor.Score.{decay, base_quality, after_loss}
unfoldable use rivr.Neighbor.Score.{link_score, link_score_full, best_from, best}

-- The decay is weaker for a younger entry of the same quality.
decay-older :
    (q age older : ℕ) → q ≤ 100 → age ≤ older → older < 120000 → decay q older ≤ decay q age
decay-older q age older hq le lt =
    let product : q * (120000 - older) ≤ q * (120000 - age) = mul-le-mul_left q (omega arith) in
    let top : q * (120000 - age) ≤ 100 * 120000 = mul-le-mul {m₂ = 120000} hq (omega arith) in
    ground arith

clamp_add-bound : (z : ℤ) (offset top : ℕ) → clamp_add z offset top ≤ top
clamp_add-bound (pos n) offset top = omega arith
clamp_add-bound (negsuc n) offset top = omega arith

after_loss-bound : (n : Neighbor) → n.loss_rate ≤ 100 → after_loss n ≤ 100
after_loss-bound n h =
    let base : base_quality n ≤ 100 =
      omega (arith, clamp_add-bound n.rssi_avg 140 80, clamp_add-bound n.snr_avg 10 20) in
    let left : sub32 100 n.loss_rate ≤ 100 = omega arith in
    let product : base_quality n * sub32 100 n.loss_rate ≤ 100 * 100 = mul-le-mul base left in
    omega arith

-- For an estimated loss of at most 100 %: neighbor_link_score is at most 100, is 0 once two minutes
-- have passed since the neighbour was heard, and does not rise as its age grows on the uint32_t
-- clock.
pub link_score-decays :
    (n : Neighbor) (now later : ℕ)
    → n.loss_rate ≤ 100
    → sub32 now n.last_seen_ms ≤ sub32 later n.last_seen_ms
    → (link_score n later ≤ link_score n now)
      × (link_score n now ≤ 100)
      × ((if leb 120000 (sub32 now n.last_seen_ms) then link_score n now else 0) ≡ 0)
unfolding link_score
link_score-decays n now later h le =
    let q = after_loss n in
    elim (Bool-cases (leb 120000 (sub32 later n.last_seen_ms))) [
      | inl gone ↦ ground (arith, gone)
      | inr alive ↦
          let older =
            decay-older q (sub32 now n.last_seen_ms) (sub32 later n.last_seen_ms)
              (after_loss-bound n h) le (ground arith) in
          ground (arith, alive, older)
    ]

-- Whether an entry counts for `neighbor_best`, and its score if so.
abbrev pub offer : Bool → ℕ → Neighbor → ℕ
offer airtime_routing now_ms e =
    if e.neighbor_id == 0 || is_expired now_ms e
    then 0
    else link_score_full airtime_routing e now_ms

-- The best offer of the first `n` entries.
abbrev pub top_offer : Bool → ℕ → List Neighbor → ℕ → ℕ
top_offer airtime_routing now_ms [] n = 0
top_offer airtime_routing now_ms (e ∷ es) zero = 0
top_offer airtime_routing now_ms (e ∷ es) (suc n) =
    max (offer airtime_routing now_ms e) (top_offer airtime_routing now_ms es n)

-- What a choice offers; nothing for none.
abbrev pub offer_of : Bool → ℕ → Option Neighbor → ℕ
offer_of airtime_routing now_ms none = 0
offer_of airtime_routing now_ms (some e) = offer airtime_routing now_ms e

-- A choice that is none or satisfies a predicate.
abbrev pub Chosen : (Neighbor → Type 0) → Option Neighbor → Type 0
Chosen P none = Unit
Chosen P (some e) = P e

best_from-top :
    (P : Neighbor → Type 0) (airtime_routing : Bool) (now_ms : ℕ) (es : List Neighbor) (n : ℕ)
    (found : Option Neighbor)
    → All P (take n es)
    → Chosen P found
    → let found' =
        best_from airtime_routing now_ms es n found (offer_of airtime_routing now_ms found) in
      (offer_of airtime_routing now_ms found'
        ≡ max (offer_of airtime_routing now_ms found) (top_offer airtime_routing now_ms es n))
      × Chosen P found'
unfolding best_from
best_from-top P airtime_routing now_ms [] n found all h = (omega arith, h)
best_from-top P airtime_routing now_ms (e ∷ es) zero found all h = (omega arith, h)
best_from-top P airtime_routing now_ms (e ∷ es) (suc n) found all h =
    let sc = link_score_full airtime_routing e now_ms in
    let sofar = offer_of airtime_routing now_ms found in
    let as_before = best_from-top P airtime_routing now_ms es n found all.1 h in
    let replaced = best_from-top P airtime_routing now_ms es n (some e) all.1 all.0 in
    elim (Bool-cases (e.neighbor_id == 0 || is_expired now_ms e)) [
      | inl skip ↦ rw skip (as_before.0 ∙ omega arith, as_before.1)
      | inr keep ↦ elim (Bool-cases (ltb sofar sc)) [
        | inl more ↦
            let won = ltb→lt sofar sc more in
            let replaced' = rw keep at replaced in
            rw (keep, more) (replaced'.0 ∙ omega (arith, won), replaced'.1)
        | inr less ↦
            let lost : sc ≤ sofar = ground arith in
            rw (keep, less) (as_before.0 ∙ omega (arith, lost), as_before.1)
      ]
    ]

-- The entries of a table stand at their indices.
All-take_at :
    (es whole : List Neighbor) (n offset : ℕ)
    → ((i : ℕ) → i < n → get_or whole (offset + i) empty ≡ get_or es i empty)
    → n ≤ length es
    → All (λ e. (i : ℕ) × (i < offset + n) × (get_or whole i empty ≡ e)) (take n es)
All-take_at es whole zero offset same le = tt
All-take_at [] whole (suc n) offset same le = absurd (omega arith)
All-take_at (e ∷ es) whole (suc n) offset same le =
    let next : All (λ e. (i : ℕ) × (i < suc offset + n) × (get_or whole i empty ≡ e)) (take n es) =
      All-take_at es whole n (suc offset)
        (λ i lt.
          let move : suc offset + i ≡ offset + suc i = omega arith in
          ap (λ k. get_or whole k empty) move ∙ same (suc i) (omega arith))
        (omega arith) in
    let here : offset + 0 ≡ offset = omega arith in
    let bound : suc offset + n ≡ offset + suc n = omega arith in
    (
      (offset, omega arith, ap (λ k. get_or whole k empty) (sym here) ∙ same 0 (omega arith)),
      subst (λ b. All (λ e. (i : ℕ) × (i < b) × (get_or whole i empty ≡ e)) (take n es)) bound next,
    )

-- For a table whose count is at most its size: the score of the neighbour that neighbor_best
-- returns is the greatest of the counted entries that are live, where nothing counts as 0; what it
-- returns stands among the counted entries.
pub best-top :
    (airtime_routing : Bool) (tbl : Table) (now_ms : ℕ)
    → tbl.count ≤ length tbl.entries
    → (offer_of airtime_routing now_ms (best airtime_routing tbl now_ms)
        ≡ top_offer airtime_routing now_ms tbl.entries tbl.count)
      × Chosen
          (λ e. (i : ℕ) × (i < tbl.count) × (entry_at tbl i ≡ e))
          (best airtime_routing tbl now_ms)
unfolding best
best-top airtime_routing tbl now_ms le =
    let same : (i : ℕ)
        → i < tbl.count
        → get_or tbl.entries (0 + i) empty ≡ get_or tbl.entries i empty =
      λ i lt. let e : 0 + i ≡ i = omega arith in ap (λ k. get_or tbl.entries k empty) e in
    let all = All-take_at tbl.entries tbl.entries tbl.count 0 same le in
    let zero_plus : 0 + tbl.count ≡ tbl.count = omega arith in
    let all' =
      subst
        (λ b.
          All (λ e. (i : ℕ) × (i < b) × (get_or tbl.entries i empty ≡ e))
            (take tbl.count tbl.entries))
        zero_plus all in
    let spec =
      best_from-top (λ e. (i : ℕ) × (i < tbl.count) × (entry_at tbl i ≡ e)) airtime_routing now_ms
        tbl.entries tbl.count none all' tt in
    (spec.0 ∙ omega arith, spec.1)
