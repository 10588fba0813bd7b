-- ===== src/Rml/Seen.antt =====
-- firmware_core/rml/rml_seen.c: the ids of the last 64 messages.
use rivr.Common.{ℕ, Bool, true, false, List, [], set, replicate, u16, ◌+◌, ◌%◌, ◌||◌, ◌∷◌}
use rivr.Common.{◌==◌, if◌then◌else◌}

-- RML_SEEN_CACHE_SIZE
abbrev pub cache_size : ℕ
cache_size = 64

-- `s_seen` and `s_seen_next`
pub record Ids : Type 0 where
  pub slots : List ℕ
  pub next_slot : ℕ

-- `rml_seen_reset`
abbrev pub zero_ids : Ids
zero_ids = record { slots = replicate cache_size 0; next_slot = 0 }

-- The loop of `rml_seen`.
unfoldable pub seen_scan : List ℕ → ℕ → Bool
seen_scan [] msg_id = false
seen_scan (x ∷ xs) msg_id = let rest = seen_scan xs msg_id in if x == msg_id then true else rest

-- `rml_seen`
unfoldable pub seen : Ids → ℕ → Bool
seen c msg_id = if msg_id == 0 then false else seen_scan c.slots msg_id

-- `rml_mark_seen`
unfoldable pub mark_seen : Ids → ℕ → Ids
mark_seen c msg_id = if msg_id == 0 || seen c msg_id then c else record {
  slots = set c.slots c.next_slot msg_id;
  next_slot = u16 ((c.next_slot + 1) % cache_size);
}
