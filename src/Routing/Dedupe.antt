-- ===== src/Routing/Dedupe.antt =====
-- firmware_core/routing.c: the cache of recently seen packets, keyed by source and packet id.
pub mod Memory
use rivr.Common.{ℕ, bit_and, Bool, true, false, List, [], ltb, set, replicate, sub32, ◌+◌}
use rivr.Common.{◌-◌, ◌&&◌, ◌∷◌, ◌==◌, if◌then◌else◌}

-- DEDUPE_CACHE_SIZE, DEDUPE_EXPIRY_MS
abbrev pub cache_size : ℕ
cache_size = 64

abbrev pub expiry_ms : ℕ
expiry_ms = 60000

-- `dedupe_entry_t`
pub record Entry : Type 0 where
  pub src_id : ℕ
  pub pkt_id : ℕ
  pub seen_at_ms : ℕ

-- `dedupe_cache_t`
pub record Cache : Type 0 where
  pub entries : List Entry
  pub head : ℕ

abbrev pub empty : Entry
empty = record { src_id = 0; pkt_id = 0; seen_at_ms = 0 }

-- `routing_dedupe_init`
unfoldable pub init : Cache
init = record { entries = replicate cache_size empty; head = 0 }

-- The scan of `routing_dedupe_check`: the entries that are left, and whether the packet was found.
-- Expired entries are cleared on the way, up to the match.
unfoldable pub scan : List Entry → ℕ → ℕ → ℕ → List Entry × Bool
scan [] src_id pkt_id now_ms = ([], false)
scan (e ∷ es) src_id pkt_id now_ms =
    let rest = scan es src_id pkt_id now_ms in
    if e.src_id == 0
    then (e ∷ rest.0, rest.1)
    else if ltb expiry_ms (sub32 now_ms e.seen_at_ms)
    then (empty ∷ rest.0, rest.1)
    else if e.src_id == src_id && e.pkt_id == pkt_id
    then (e ∷ es, true)
    else (e ∷ rest.0, rest.1)

-- The insertion at the head, which takes the oldest slot.
unfoldable pub insert : Cache → ℕ → ℕ → ℕ → Cache
insert c src_id pkt_id now_ms = record {
  entries = set c.entries c.head (record { src_id = src_id; pkt_id = pkt_id; seen_at_ms = now_ms });
  head = bit_and (c.head + 1) (cache_size - 1);
}

-- `routing_dedupe_check`: true for a new packet.
unfoldable pub check : Cache → ℕ → ℕ → ℕ → Cache × Bool
check c src_id pkt_id now_ms =
    let (entries, found) = scan c.entries src_id pkt_id now_ms in
    let swept : Cache = record c { entries = entries } in
    if found then (swept, false) else (insert swept src_id pkt_id now_ms, true)
