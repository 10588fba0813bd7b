-- ===== src/Opfwd.antt =====
-- firmware_core/opfwd_suppress.h: the table of packets that a neighbour was heard relaying, which
-- cancels this node's own copy. The null checks and the padding are left out.
pub mod Memory
use rivr.Common.{ℕ, Bool, true, false, Option, none, some, List, [], ltb, set, replicate}
use rivr.Common.{u8, u32, sub32, keep_first, ◌+◌, ◌%◌, ◌^◌, ◌&&◌, ◌∷◌, ◌==◌}
use rivr.Common.{if◌then◌else◌}

-- OPFWD_SUPPRESS_SIZE, OPFWD_SUPPRESS_EXPIRY_MS
abbrev pub table_size : ℕ
table_size = 16

abbrev pub expiry_ms : ℕ
expiry_ms = 300

-- `opfwd_entry_t`
pub record Entry : Type 0 where
  pub src_id : ℕ
  pub pkt_id : ℕ
  pub expires_ms : ℕ

-- `opfwd_suppress_t`
pub record Suppress : Type 0 where
  pub entries : List Entry
  pub next_write : ℕ

abbrev pub empty : Entry
empty = record { src_id = 0; pkt_id = 0; expires_ms = 0 }

abbrev pub zero_table : Suppress
zero_table = record { entries = replicate table_size empty; next_write = 0 }

abbrev pub has_key : Entry → ℕ → ℕ → Bool
has_key e src_id pkt_id = e.src_id == src_id && e.pkt_id == pkt_id

-- The loop of `opfwd_suppress_add`: the table with the entry refreshed, if there is one.
unfoldable pub refresh : List Entry → ℕ → ℕ → ℕ → Option (List Entry)
refresh [] src_id pkt_id expires_ms = none
refresh (e ∷ es) src_id pkt_id expires_ms =
    let rest = keep_first e (refresh es src_id pkt_id expires_ms) in
    if has_key e src_id pkt_id then some (record e { expires_ms = expires_ms } ∷ es) else rest

-- `opfwd_suppress_add`
unfoldable pub add : Suppress → ℕ → ℕ → ℕ → Suppress
add tbl src_id pkt_id now_ms =
    let expires_ms = u32 (now_ms + expiry_ms) in
    if src_id == 0 then tbl else elim (refresh tbl.entries src_id pkt_id expires_ms) [
      | some es ↦ record tbl { entries = es }
      | none ↦ record {
        entries =
            set tbl.entries tbl.next_write
              (record { src_id = src_id; pkt_id = pkt_id; expires_ms = expires_ms });
        next_write = u8 ((tbl.next_write + 1) % table_size);
      }
    ]

-- `(int32_t)(e->expires_ms - now_ms) > 0`
abbrev pub is_fresh : Entry → ℕ → Bool
is_fresh e now_ms = ltb 0 (sub32 e.expires_ms now_ms) && ltb (sub32 e.expires_ms now_ms) (2 ^ 31)

-- The loop of `opfwd_suppress_check`.
unfoldable pub check_scan : List Entry → ℕ → ℕ → ℕ → Bool
check_scan [] src_id pkt_id now_ms = false
check_scan (e ∷ es) src_id pkt_id now_ms =
    let rest = check_scan es src_id pkt_id now_ms in
    if has_key e src_id pkt_id && is_fresh e now_ms then true else rest

-- `opfwd_suppress_check`
unfoldable pub check : Suppress → ℕ → ℕ → ℕ → Bool
check tbl src_id pkt_id now_ms =
    if src_id == 0 then false else check_scan tbl.entries src_id pkt_id now_ms
