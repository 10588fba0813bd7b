-- ===== src/Routing/Budget/Caps.antt =====
-- The forward budget keeps its caps.
use rivr.Common.{ℕ, sym, subst, inl, inr, Bool, true, false, arith, ltb, ltb→lt}
use rivr.Common.{Bool-cases, length, get_or, All, length-set, All-set, u32, ◌+◌, ◌≤◌, ◌<◌}
use rivr.Common.{◌≡◌, ◌∙◌, if◌then◌else◌}
use rivr.Routing.Budget.{
  check, charge, record_fwd, adapt, Role, repeater, gateway, client, generic, Budget, pkt_types,
  max_fwd_role, max_air_role, max_hour_air_us, init, roll_minute, roll_hour, roll_window,
}

-- The counters are within the caps of the role, and the adapted cap is not above the role's.
pub record IsWithin (role : Role) (fb : Budget) : Type 0 where
  pub counts : length fb.fwd_count ≡ pkt_types
  pub airs : length fb.fwd_air_us ≡ pkt_types
  pub cap_fwd : (4 ≤ fb.max_fwd_count) × (fb.max_fwd_count ≤ max_fwd_role role)
  pub cap_air : fb.max_air_us ≡ max_air_role role
  pub cap_hour : fb.max_hour ≡ max_hour_air_us
  pub fwd : All (λ (k : ℕ). k ≤ max_fwd_role role) fb.fwd_count
  pub air : All (λ (k : ℕ). k ≤ max_air_role role) fb.fwd_air_us
  pub hour : fb.hour_total_air_us ≤ max_hour_air_us

pub init-IsWithin : (role : Role) → IsWithin role (init role)
unfolding init
init-IsWithin repeater = omega arith
init-IsWithin gateway = omega arith
init-IsWithin client = omega arith
init-IsWithin generic = omega arith

roll-IsWithin :
    (role : Role) (fb : Budget) (now : ℕ) → IsWithin role fb → IsWithin role (roll_window fb now)
unfolding roll_window roll_minute roll_hour
roll-IsWithin role fb now w =
    ground (arith, w.counts, w.airs, w.cap_fwd, w.cap_air, w.cap_hour, w.fwd, w.air, w.hour)

-- The window rolls once per time.
roll_twice : (fb : Budget) (now : ℕ) → roll_window (roll_window fb now) now ≡ roll_window fb now
unfolding roll_window roll_minute roll_hour
roll_twice fb now = ground arith

charge-IsWithin :
    (role : Role) (fb : Budget) (kind toa : ℕ)
    → IsWithin role fb
    → kind < pkt_types
    → get_or fb.fwd_count kind 0 < fb.max_fwd_count
    → u32 (get_or fb.fwd_air_us kind 0 + toa) ≤ fb.max_air_us
    → u32 (fb.hour_total_air_us + toa) ≤ fb.max_hour
    → IsWithin role (charge fb kind toa)
unfolding charge
charge-IsWithin role fb kind toa w hk hc ha hh = record {
  counts = length-set fb.fwd_count kind _ ∙ w.counts;
  airs = length-set fb.fwd_air_us kind _ ∙ w.airs;
  cap_fwd = w.cap_fwd;
  cap_air = w.cap_air;
  cap_hour = w.cap_hour;
  fwd = All-set _ fb.fwd_count kind _ w.fwd (omega (arith, w.cap_fwd));
  air = All-set _ fb.fwd_air_us kind _ w.air (omega (arith, w.cap_air));
  hour = omega (arith, w.cap_hour);
}

-- What the check found when it allowed a packet of a counted type.
allowed :
    (fb : Budget) (kind toa now : ℕ)
    → kind < pkt_types
    → (check fb kind toa now).1 ≡ true
    → let fb' = roll_window fb now in
      ((check fb kind toa now).0 ≡ fb')
      × (get_or fb'.fwd_count kind 0 < fb'.max_fwd_count)
      × (u32 (get_or fb'.fwd_air_us kind 0 + toa) ≤ fb'.max_air_us)
      × (u32 (fb'.hour_total_air_us + toa) ≤ fb'.max_hour)
unfolding check
allowed fb kind toa now hk h = ground arith

-- A check, and the record that follows it where the packet may go.
abbrev pub checked_record : Budget → ℕ → ℕ → ℕ → Budget
checked_record fb kind toa now =
    let (fb', ok) = check fb kind toa now in if ok then record_fwd fb' kind toa now else fb'

record_allowed :
    (fb : Budget) (kind toa now : ℕ)
    → kind < pkt_types
    → (check fb kind toa now).1 ≡ true
    → checked_record fb kind toa now ≡ charge (roll_window fb now) kind toa
unfolding record_fwd
record_allowed fb kind toa now hk ok =
    let (same, _, _, _) = allowed fb kind toa now hk ok in
    let again = roll_twice fb now in rw (ok, same) (ground (arith, again))

record_refused :
    (fb : Budget) (kind toa now : ℕ)
    → (check fb kind toa now).1 ≡ false
    → checked_record fb kind toa now ≡ roll_window fb now
unfolding check
record_refused fb kind toa now refused = ground arith

record_other :
    (fb : Budget) (kind toa now : ℕ) → pkt_types ≤ kind → checked_record fb kind toa now ≡ fb
unfolding check record_fwd
record_other fb kind toa now h = ground arith

-- `routing_fwdbudget_check` with `routing_fwdbudget_record` after it where it allows the packet
-- keeps every counter within the caps of the role: at most 60 relays (20 for a client, 30 for a
-- generic build) of a type and the air time of the type in a minute, and 360 s in the hour.
pub budget-IsWithin :
    (role : Role) (fb : Budget) (kind toa now : ℕ)
    → IsWithin role fb
    → IsWithin role (checked_record fb kind toa now)
budget-IsWithin role fb kind toa now w = elim (Bool-cases (ltb kind pkt_types)) [
  | inr other ↦ subst (IsWithin role) (sym (record_other fb kind toa now (ground arith))) w
  | inl counted ↦
      let hk = ltb→lt kind pkt_types counted in
      elim (Bool-cases (check fb kind toa now).1) [
        | inl ok ↦
            let (_, hc, ha, hh) = allowed fb kind toa now hk ok in
            subst (IsWithin role) (sym (record_allowed fb kind toa now hk ok)) (
              charge-IsWithin role (roll_window fb now) kind toa (roll-IsWithin role fb now w) hk hc
                ha hh)
        | inr refused ↦
            subst (IsWithin role) (sym (record_refused fb kind toa now refused))
              (roll-IsWithin role fb now w)
      ]
]

role_cap : (role : Role) → 4 ≤ max_fwd_role role
role_cap repeater = omega arith
role_cap gateway = omega arith
role_cap client = omega arith
role_cap generic = omega arith

-- `routing_fwdbudget_adapt` keeps the counters within the caps, and the cap between 4 and the role's.
pub adapt-IsWithin :
    (role : Role) (fb : Budget) (score dc : ℕ) (adaptive : Bool)
    → IsWithin role fb
    → IsWithin role (adapt adaptive role fb score dc)
unfolding adapt
adapt-IsWithin role fb score dc false w = w
adapt-IsWithin role fb score dc true w = record {
  counts = w.counts;
  airs = w.airs;
  cap_fwd = ground (arith, role_cap role);
  cap_air = w.cap_air;
  cap_hour = w.cap_hour;
  fwd = w.fwd;
  air = w.air;
  hour = w.hour;
}
