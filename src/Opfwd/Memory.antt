-- ===== src/Opfwd/Memory.antt =====
-- firmware_core/opfwd_suppress.h: how long a relayed packet stays suppressed.
use rivr.Common.{ℕ, Bool, false, List}
use rivr.Common.{[], length, get_or}
use rivr.Common.{◌+◌, ◌%◌, ◌<◌, ◌≡◌}
use rivr.Common.{◌||◌, ◌∷◌}
use rivr.Opfwd.{Entry, Suppress, empty, has_key}
unfoldable use rivr.Opfwd.{add}

-- Whether the table has an entry for a packet.
abbrev pub is_known : List Entry → ℕ → ℕ → Bool
is_known [] src_id pkt_id = false
is_known (e ∷ es) src_id pkt_id = has_key e src_id pkt_id || is_known es src_id pkt_id

pub record IsValid (tbl : Suppress) : Type 0 where
  pub slots : length tbl.entries ≡ 16
  pub next_in : tbl.next_write < 16

-- The entry `e` stands in slot `i`, and the write index is `d` slots past the one behind it.
record Holds (i d : ℕ) (e : Entry) (tbl : Suppress) : Type 0 where
  valid : IsValid tbl
  place : get_or tbl.entries i empty ≡ e
  slot : i < 16
  ahead : tbl.next_write ≡ (i + 1 + d) % 16

-- A packet that was heard relayed.
pub record Heard : Type 0 where
  pub src : ℕ
  pub pkt : ℕ
  pub now : ℕ

unfoldable pub run : Suppress → List Heard → Suppress
run tbl [] = tbl
run tbl (x ∷ xs) = run (add tbl x.src x.pkt x.now) xs
