-- ===== src/Routing/Neighbors.antt =====
-- firmware_core/routing.h and routing.c: the neighbour table. The null checks and the padding are left
-- out; `routing_neighbor_print` is output.
pub mod Present
use rivr.Common.{ℕ, min, not, Option, none, some, List, [], pos, ltb, leb, length, get_or}
use rivr.Common.{set, take, drop, replicate, u8, u32, inc32, sub32, ℤ, clamp_add, scale}
use rivr.Common.{tdiv, i8, ◌+◌, ◌-◌, ◌*◌, ◌/◌, ◌∷◌, ◌++◌, ◌==◌, if◌then◌else◌, ◌+ℤ◌}
use rivr.Protocol.{Hdr}

-- NEIGHBOR_TABLE_SIZE, NEIGHBOR_EXPIRY_MS, RIVR_PKT_DEFAULT_TTL
abbrev pub table_size : ℕ
table_size = 16

abbrev pub expiry_ms : ℕ
expiry_ms = 120000

abbrev pub default_ttl : ℕ
default_ttl = 15

-- `neighbor_entry_t`; `callsign` is the array of 12 bytes.
pub record Entry : Type 0 where
  pub node_id : ℕ
  pub last_seen_ms : ℕ
  pub rssi_dbm : ℤ
  pub hop_count : ℕ
  pub callsign : List ℕ
  pub rx_ok : ℕ
  pub last_snr_db : ℤ
  pub role : ℕ

-- `neighbor_table_t`
pub record Table : Type 0 where
  pub entries : List Entry
  pub count : ℕ

abbrev pub empty : Entry
empty = record {
  node_id = 0;
  last_seen_ms = 0;
  rssi_dbm = pos 0;
  hop_count = 0;
  callsign = replicate 12 0;
  rx_ok = 0;
  last_snr_db = pos 0;
  role = 0;
}

-- `routing_neighbor_init`
abbrev pub zero_table : Table
zero_table = record { entries = replicate table_size empty; count = 0 }

-- `neighbor_compute_base`
unfoldable pub compute_base : ℤ → ℤ → ℕ
compute_base rssi_dbm snr_db = u8 (clamp_add rssi_dbm 140 80 + clamp_add snr_db 10 20)

-- `routing_neighbor_link_score`
unfoldable pub link_score : Entry → ℕ → ℕ
link_score n now_ms =
    let age = sub32 now_ms n.last_seen_ms in
    let score = u8 (u32 (compute_base n.rssi_dbm n.last_snr_db * (expiry_ms - age)) / expiry_ms) in
    if n.node_id == 0 then 0 else if leb expiry_ms age then 0 else score

-- A received packet: its header, signal, noise and time.
pub record Heard : Type 0 where
  pub pkt : Hdr
  pub rssi_dbm : ℤ
  pub snr_db : ℤ
  pub now_ms : ℕ

-- `neighbor_fill_slot`; callsign and role stay as they are.
abbrev pub fill_slot : Heard → Entry → Entry
fill_slot x n = record n {
  node_id = x.pkt.src_id;
  last_seen_ms = x.now_ms;
  rssi_dbm = x.rssi_dbm;
  last_snr_db = x.snr_db;
  hop_count = u8 (x.pkt.hop + 1);
  rx_ok = 1;
}

-- `neighbor_update_existing`
abbrev pub update_existing : Heard → Entry → Entry
update_existing x n =
    let new_hops = u8 (x.pkt.hop + 1) in
    record n {
      last_seen_ms = x.now_ms;
      rssi_dbm = i8 (tdiv (scale n.rssi_dbm 7 +ℤ x.rssi_dbm) 8);
      last_snr_db = i8 (tdiv (scale n.last_snr_db 7 +ℤ x.snr_db) 8);
      rx_ok = inc32 n.rx_ok;
      hop_count = if ltb new_hops n.hop_count then new_hops else n.hop_count;
    }

-- What the loop of `routing_neighbor_update` ends with: an empty slot, the slot of the sender, or the
-- oldest slot of a full table.
pub data Place : Type 0 where
  vacant known oldest : ℕ → Place
  nowhere : Place

-- Index and age of the oldest entry, after the entry at index `i`.
abbrev pub older : Heard → Entry → ℕ → Option (ℕ × ℕ) → Option (ℕ × ℕ)
older x n i none = some (i, sub32 x.now_ms n.last_seen_ms)
older x n i (some (k, a)) =
    let age = sub32 x.now_ms n.last_seen_ms in if ltb a age then some (i, age) else some (k, a)

-- The loop from index `i` on, with index and age of the oldest entry so far.
unfoldable pub scan : List Entry → Heard → ℕ → Option (ℕ × ℕ) → Place
scan [] x i none = nowhere
scan [] x i (some (k, age)) = oldest k
scan (n ∷ ns) x i old =
    let rest = scan ns x (i + 1) (older x n i old) in
    if n.node_id == 0 then vacant i else if n.node_id == x.pkt.src_id then known i else rest

-- An entry changed in place.
abbrev pub change : Table → ℕ → (Entry → Entry) → Table
change tbl i f = record tbl { entries = set tbl.entries i (f (get_or tbl.entries i empty)) }

-- The table once the slot is chosen.
unfoldable pub settle : Table → Heard → Place → Table
settle tbl x (vacant i) = record (change tbl i (fill_slot x)) {
  count = if ltb tbl.count table_size then tbl.count + 1 else tbl.count;
}
settle tbl x (known i) = change tbl i (update_existing x)
settle tbl x (oldest i) = change tbl i (fill_slot x)
settle tbl x nowhere = tbl

-- `routing_neighbor_update`
unfoldable pub update : Table → Heard → Table
update tbl x =
    let done = settle tbl x (scan tbl.entries x 0 none) in
    if x.pkt.src_id == 0 then tbl else if ltb default_ttl (u8 (x.pkt.hop + 1)) then tbl else done

-- `routing_neighbor_count`
unfoldable pub neighbor_count : List Entry → ℕ → ℕ
neighbor_count [] now_ms = 0
neighbor_count (n ∷ ns) now_ms =
    let rest = neighbor_count ns now_ms in
    if n.node_id == 0
    then rest
    else if leb (sub32 now_ms n.last_seen_ms) expiry_ms
    then u8 (rest + 1)
    else rest

-- `routing_neighbor_get`
unfoldable pub get : Table → ℕ → Option Entry
get tbl idx =
    let n = get_or tbl.entries idx empty in
    if leb table_size idx then none else if not (n.node_id == 0) then some n else none

-- The loop of `routing_neighbor_set_callsign` and `routing_neighbor_set_role`: the first entry of a
-- node is changed.
unfoldable pub change_first : List Entry → ℕ → (Entry → Entry) → List Entry
change_first [] node_id f = []
change_first (n ∷ ns) node_id f =
    let rest = n ∷ change_first ns node_id f in if n.node_id == node_id then f n ∷ ns else rest

-- At most 11 bytes of the string and a zero, over the bytes that stood there; the string is given by
-- its bytes before the zero.
abbrev pub write_callsign : List ℕ → Entry → Entry
write_callsign text n =
    let j = min 11 (length text) in
    record n { callsign = take j text ++ (0 ∷ drop (j + 1) n.callsign) }

-- `routing_neighbor_set_callsign`
unfoldable pub set_callsign : Table → ℕ → List ℕ → Table
set_callsign tbl node_id text =
    if node_id == 0
    then tbl
    else record tbl { entries = change_first tbl.entries node_id (write_callsign text) }

-- `routing_neighbor_set_role`
unfoldable pub set_role : Table → ℕ → ℕ → Table
set_role tbl node_id role =
    if node_id == 0
    then tbl
    else record tbl { entries = change_first tbl.entries node_id (λ n. record n { role = role }) }
