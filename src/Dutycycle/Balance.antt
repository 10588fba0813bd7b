-- ===== src/Dutycycle/Balance.antt =====
-- `used_us` is the airtime in the history, whatever is checked and recorded.
use rivr.Common.{ℕ, zero, suc, refl, sym, ap, inl, inr, true, List, [], arith, leb}
use rivr.Common.{Bool-cases, length, get_or, set, replicate, All, length-replicate, IsU32}
use rivr.Common.{inc32, ◌+◌, ◌*◌, ◌^◌, ◌≤◌, ◌<◌, ◌≡◌, ◌∙◌, ◌↔◌, ◌∷◌, if◌then◌else◌}
use rivr.Metrics.{Metrics}
use rivr.Dutycycle.{
  Dc, TxRecord, unused, history_cap, sub64, add64, init, is_old, expire_from, expire_old, check,
}

-- The airtime in a list of records.
abbrev pub total : List TxRecord → ℕ
total [] = 0
total (r ∷ rs) = r.toa_us + total rs

-- A record fits its types, and a free slot holds no airtime.
abbrev pub IsRecord : TxRecord → Type 0
IsRecord r = IsU32 r.toa_us × IsU32 r.tx_end_ms × (r.tx_end_ms ≡ 0 → r.toa_us ≡ 0)

pub record IsBalanced (dc : Dc) : Type 0 where
  pub slots : length dc.history ≡ history_cap
  pub records : All IsRecord dc.history
  pub balance : dc.used_us ≡ total dc.history

pub total-le : (rs : List TxRecord) → All IsRecord rs → total rs ≤ length rs * 2 ^ 32
total-le [] h = omega arith
total-le (r ∷ rs) h = omega (arith, h.0.0, total-le rs h.1)

pub total-set :
    (rs : List TxRecord) (i : ℕ) (r : TxRecord)
    → i < length rs
    → total (set rs i r) + (get_or rs i unused).toa_us ≡ total rs + r.toa_us
total-set [] i r h = absurd (omega arith)
total-set (x ∷ xs) zero r h = omega arith
total-set (x ∷ xs) (suc i) r h = omega (arith, total-set xs i r (omega arith))

total-replicate : (n : ℕ) → total (replicate n unused) ≡ 0
total-replicate zero = refl
total-replicate (suc n) = omega (arith, total-replicate n)

unused-IsRecord : IsRecord unused
unused-IsRecord = (omega arith, omega arith, λ _. refl)

All-replicate : (n : ℕ) → All IsRecord (replicate n unused)
All-replicate zero = tt
All-replicate (suc n) = (unused-IsRecord, All-replicate n)

pub init-IsBalanced : IsBalanced init
unfolding init
init-IsBalanced = record {
  slots = length-replicate history_cap unused;
  records = All-replicate history_cap;
  balance = sym (total-replicate history_cap);
}

-- What the window keeps: the airtime of the records that are not old.
abbrev pub in_window : ℕ → List TxRecord → ℕ
in_window now [] = 0
in_window now (r ∷ rs) = (if is_old now r then 0 else r.toa_us) + in_window now rs

pub expire_from_lem :
    (now used rest : ℕ) (rs : List TxRecord)
    → All IsRecord rs
    → used ≡ rest + total rs
    → used < 2 ^ 64
    → let (rs', used') = expire_from now used rs in
      (length rs' ≡ length rs)
      × All IsRecord rs'
      × (used' ≡ rest + total rs')
      × (total rs' ≡ in_window now rs)
unfolding expire_from
expire_from_lem now used rest [] h e w = (refl, tt, e, refl)
expire_from_lem now used rest (r ∷ rs) h e w = elim (Bool-cases (is_old now r)) [
  | inl old ↦
      let left : sub64 used r.toa_us ≡ rest + total rs = omega arith in
      let (len, all, bal, sum) =
        expire_from_lem now (sub64 used r.toa_us) rest rs h.1 left (omega arith) in
      rw old (ap suc len, (unused-IsRecord, all), bal ∙ omega arith, omega (arith, sum))
  | inr new ↦
      let (len, all, bal, sum) =
        expire_from_lem now used (rest + r.toa_us) rs h.1 (omega arith) w in
      rw new (ap suc len, (h.0, all), bal ∙ omega arith, omega (arith, sum))
]

pub history_small : (dc : Dc) → IsBalanced dc → dc.used_us ≤ 2 ^ 41
history_small dc v =
    let t = total-le dc.history v.records in
    let s = v.slots in let b = v.balance in omega (arith, t, s, b, ap (λ k. k * 2 ^ 32) s)

-- `expire_old` keeps the account in balance, and leaves in it exactly the airtime of the
-- transmissions that ended within the last hour.
pub expire_old_lem :
    (dc : Dc) (now : ℕ)
    → IsBalanced dc
    → IsBalanced (expire_old dc now) × ((expire_old dc now).used_us ≡ in_window now dc.history)
unfolding expire_old
expire_old_lem dc now v =
    let small = history_small dc v in
    let (len, all, bal, sum) =
      expire_from_lem now dc.used_us 0 dc.history v.records (v.balance ∙ omega arith)
        (omega arith) in
    let bal' : (expire_from now dc.used_us dc.history).1
        ≡ total (expire_from now dc.used_us dc.history).0 =
      bal ∙ omega arith in
    (record { slots = len ∙ v.slots; records = all; balance = bal' }, bal' ∙ sum)

-- With the account in balance, `dutycycle_check` lets a transmission start exactly if the airtime
-- of the last hour and its own fit the budget of 360 s. It keeps the account in balance and makes
-- it the airtime of the last hour, and counts a refusal. The airtime fits its type.
pub check_iff :
    (dc : Dc) (m : Metrics) (now toa : ℕ)
    → IsBalanced dc
    → IsU32 toa
    → let (dc', m', passed) = check dc m now toa in
      IsBalanced dc'
      × (dc'.used_us ≡ in_window now dc.history)
      × ((passed ≡ true) ↔ (in_window now dc.history + toa ≤ 360000000))
      × (m'.duty_blocked ≡ (if passed then m.duty_blocked else inc32 m.duty_blocked))
unfolding check
check_iff dc m now toa v ht =
    let (v', used) = expire_old_lem dc now v in
    let small = history_small (expire_old dc now) v' in
    elim (Bool-cases (leb (add64 (expire_old dc now).used_us toa) 360000000)) [
      | inl e ↦ rw e (v', used, ((λ _. ground (arith, used)), λ _. refl), refl)
      | inr e ↦ rw e (
        record { slots = v'.slots; records = v'.records; balance = v'.balance },
        used,
        ((λ q. absurd (ground arith)), λ q. absurd (ground (arith, used))),
        refl,
      )
    ]
