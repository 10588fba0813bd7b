-- ===== src/Policy.antt =====
-- firmware_core/policy.h and policy.c: traffic classes, the TTL cap of each class and the token
-- buckets that limit what a source may flood. What goes through `clamped_ttl_out` is an option.
pub mod Rate
use rivr.Common.{ℕ, Bool, true, false, Option, none, some, List, ltb, leb, get_or, set}
use rivr.Common.{replicate, u8, u32, ◌+◌, ◌-◌, ◌*◌, ◌/◌, ◌%◌, ◌&&◌, ◌==◌, if◌then◌else◌}
use rivr.Protocol.{Hdr}

-- POLICY_TTL_CHAT, POLICY_TTL_METRICS, POLICY_TTL_BULK
abbrev pub ttl_chat : ℕ
ttl_chat = 12

abbrev pub ttl_metrics : ℕ
ttl_metrics = 6

abbrev pub ttl_bulk : ℕ
ttl_bulk = 4

-- POLICY_BUCKET_COUNT, POLICY_BUCKET_INIT_TOKENS, POLICY_REFILL_TOKENS_PER_S, POLICY_MAX_TOKENS
abbrev pub bucket_count : ℕ
bucket_count = 16

abbrev pub bucket_init_tokens : ℕ
bucket_init_tokens = 4

abbrev pub refill_tokens_per_s : ℕ
refill_tokens_per_s = 1

abbrev pub max_tokens : ℕ
max_tokens = 4

-- `rivr_class_t`
pub data Class : Type 0 where
  control chat metrics bulk : Class

-- `rivr_policy_verdict_t`
pub data Verdict : Type 0 where
  pass ttl_clamp drop_packet : Verdict

-- `policy_bucket_t`
pub record Bucket : Type 0 where
  pub tokens : ℕ
  pub last_refill : ℕ

-- `policy_state_t`
pub record Policy : Type 0 where
  pub buckets : List Bucket

abbrev pub full_bucket : Bucket
full_bucket = record { tokens = bucket_init_tokens; last_refill = 0 }

-- `policy_init`
unfoldable pub init : Policy
init = record { buckets = replicate bucket_count full_bucket }

-- `policy_classify`: PKT_CHAT is 1, PKT_DATA is 6.
unfoldable pub classify : ℕ → Class
classify pkt_type = if pkt_type == 1 then chat else if pkt_type == 6 then bulk else control

-- The switch of `policy_check` for the cap; 0 is none.
abbrev pub ttl_cap : Class → ℕ
ttl_cap control = 0
ttl_cap chat = ttl_chat
ttl_cap metrics = ttl_metrics
ttl_cap bulk = ttl_bulk

abbrev pub is_control : Class → Bool
is_control control = true
is_control chat = false
is_control metrics = false
is_control bulk = false

-- The refill in `policy_check`.
unfoldable pub refill : Bucket → ℕ → Bucket
refill b now_ms =
    let elapsed_s = (now_ms - b.last_refill) / 1000 in
    let new_tok = u32 (b.tokens + elapsed_s * refill_tokens_per_s) in
    if leb b.last_refill now_ms
    then if ltb 0 elapsed_s
      then record {
        tokens = u8 (if ltb max_tokens new_tok then max_tokens else new_tok);
        last_refill = u32 (b.last_refill + elapsed_s * 1000);
      }
      else b
    else record b { last_refill = now_ms }

-- The bucket of a source.
abbrev pub bucket_of : Policy → ℕ → Bucket
bucket_of ps i = get_or ps.buckets i full_bucket

-- `policy_check`
unfoldable pub check : Policy → Hdr → ℕ → Policy × Verdict × Option ℕ
check ps hdr now_ms =
    let cls = classify hdr.pkt_type in
    let limit = ttl_cap cls in
    let over = ltb 0 limit && ltb limit hdr.ttl in
    let verdict = if over then ttl_clamp else pass in
    let clamped = if over then some limit else none in
    let idx = hdr.src_id % bucket_count in
    let b = refill (bucket_of ps idx) now_ms in
    let put : Bucket → Policy = λ (x : Bucket). record { buckets = set ps.buckets idx x } in
    if is_control cls
    then (ps, verdict, clamped)
    else if b.tokens == 0
    then (put b, drop_packet, clamped)
    else (put (record b { tokens = b.tokens - 1 }), verdict, clamped)
