-- ===== src/Policy/Rate.antt =====
-- firmware_core/policy.c: how many packets of a bucket's sources pass in a time.
use rivr.Common.{ℕ, suc, Bool, true, false, not, List, []}
use rivr.Common.{length}
use rivr.Common.{◌%◌, ◌≤◌, ◌≡◌, ◌&&◌}
use rivr.Common.{◌∷◌, ◌==◌, if◌then◌else◌}
use rivr.Protocol.{Hdr}
use rivr.Policy.{Verdict, pass, ttl_clamp, drop_packet, Policy, bucket_of, is_control, classify}
unfoldable use rivr.Policy.{check}

abbrev pub is_passed : Verdict → Bool
is_passed pass = true
is_passed ttl_clamp = true
is_passed drop_packet = false

-- A packet and the time of its check.
pub record Offer : Type 0 where
  pub hdr : Hdr
  pub now : ℕ

-- Whether an offer is chat or data from a source of bucket `i`.
abbrev pub counts : ℕ → Offer → Bool
counts i x = not (is_control (classify x.hdr.pkt_type)) && x.hdr.src_id % 16 == i

-- How many packets of bucket `i` pass.
unfoldable pub passes : ℕ → Policy → List Offer → ℕ
passes i ps [] = 0
passes i ps (x ∷ xs) =
    let (ps', verdict, clamped) = check ps x.hdr x.now in
    let rest = passes i ps' xs in if counts i x && is_passed verdict then suc rest else rest

-- The times rise from `now` to `last`.
unfoldable pub IsRising : ℕ → List Offer → ℕ → Type 0
IsRising now [] last = now ≤ last
IsRising now (x ∷ xs) last = (now ≤ x.now) × IsRising x.now xs last

pub record IsValid (i now : ℕ) (ps : Policy) : Type 0 where
  pub size : length ps.buckets ≡ 16
  pub level : (bucket_of ps i).tokens ≤ 4
  pub behind : (bucket_of ps i).last_refill ≤ now
