-- ===== src/Neighbor.antt =====
-- firmware_core/neighbor_table.h and neighbor_table.c: the nodes heard of late, with the quality of
-- their links. Signed fields are ℤ, and a pointer to an entry is the index of its slot. The null
-- checks and the printing are left out.
pub mod Score
pub mod Link
pub mod Expiry
pub mod Best
use rivr.Common.{ℕ, zero, suc, bit_and, bit_or, Bool, not, Option, none, some, List, []}
use rivr.Common.{pos, negsuc, ltb, leb, get_or, set, replicate, u8, u16, inc32, sub32, ℤ}
use rivr.Common.{scale, tdiv, i8, i16, ◌+◌, ◌-◌, ◌*◌, ◌/◌, ◌^◌, ◌∷◌, ◌==◌, if◌then◌else◌}
use rivr.Common.{◌+ℤ◌}

-- NTABLE_SIZE, NTABLE_EXPIRY_MS, NTABLE_STALE_MS, NTABLE_LOSS_MAX_GAP, NTABLE_SCORE_UNICAST_MIN
abbrev pub table_size : ℕ
table_size = 16

abbrev pub expiry_ms : ℕ
expiry_ms = 120000

abbrev pub stale_ms : ℕ
stale_ms = 70000

abbrev pub loss_max_gap : ℕ
loss_max_gap = 15

abbrev pub score_unicast_min : ℕ
score_unicast_min = 20

-- NTABLE_FLAG_DIRECT, NTABLE_FLAG_STALE
abbrev pub flag_direct : ℕ
flag_direct = 1

abbrev pub flag_stale : ℕ
flag_stale = 2

-- `rivr_neighbor_t`
pub record Neighbor : Type 0 where
  pub neighbor_id : ℕ
  pub rssi_avg : ℤ
  pub snr_avg : ℤ
  pub loss_rate : ℕ
  pub last_seen_ms : ℕ
  pub flags : ℕ
  pub hop_count : ℕ
  pub last_seq : ℕ
  pub rx_ok : ℕ
  pub etx_x8 : ℕ
  pub avg_frame_len : ℕ
  pub lat_e7 : ℤ
  pub lon_e7 : ℤ

-- `rivr_neighbor_table_t`
pub record Table : Type 0 where
  pub entries : List Neighbor
  pub count : ℕ

-- INT32_MIN
abbrev pub unknown_position : ℤ
unknown_position = negsuc 2147483647

-- A slot after `memset`.
abbrev pub empty : Neighbor
empty = record {
  neighbor_id = 0;
  rssi_avg = pos 0;
  snr_avg = pos 0;
  loss_rate = 0;
  last_seen_ms = 0;
  flags = 0;
  hop_count = 0;
  last_seq = 0;
  rx_ok = 0;
  etx_x8 = 0;
  avg_frame_len = 0;
  lat_e7 = pos 0;
  lon_e7 = pos 0;
}

abbrev pub entry_at : Table → ℕ → Neighbor
entry_at tbl i = get_or tbl.entries i empty

-- `neighbor_table_init`
unfoldable pub init : Table
init = record {
  entries =
      replicate table_size (record empty { lat_e7 = unknown_position; lon_e7 = unknown_position });
  count = 0;
}

-- The loop of `find_slot` over `n` slots from index `i` on.
unfoldable pub find_from : List Neighbor → ℕ → ℕ → ℕ → Option ℕ
find_from [] node_id n i = none
find_from (e ∷ es) node_id zero i = none
find_from (e ∷ es) node_id (suc n) i =
    let rest = find_from es node_id n (i + 1) in if e.neighbor_id == node_id then some i else rest

-- `find_slot`; none for -1.
unfoldable pub find_slot : Table → ℕ → Option ℕ
find_slot tbl node_id = find_from tbl.entries node_id tbl.count 0

-- The loop of `oldest_slot` with `n` rounds left, from index `i` on.
unfoldable pub oldest_from : List Neighbor → ℕ → ℕ → ℕ → ℕ → ℕ
oldest_from es zero i oldest min_ts = oldest
oldest_from es (suc n) i oldest min_ts =
    let ts = (get_or es i empty).last_seen_ms in
    let older = ltb ts min_ts in
    oldest_from es n (i + 1) (if older then i else oldest) (if older then ts else min_ts)

-- `oldest_slot`
unfoldable pub oldest_slot : Table → ℕ
oldest_slot tbl =
    oldest_from tbl.entries (tbl.count - 1) 1 0 (get_or tbl.entries 0 empty).last_seen_ms

-- The loop of `update_loss_rate_ewma` over the missed frames.
unfoldable pub miss : ℕ → ℕ → ℕ
miss zero loss = loss
miss (suc n) loss = miss n (u8 ((loss * 7 + 100) / 8))

-- `update_loss_rate_ewma`
unfoldable pub update_loss_rate_ewma : Neighbor → ℕ → Neighbor
update_loss_rate_ewma n seq =
    let gap = u16 (seq + 2 ^ 32 - n.last_seq - 1) in
    let missed = miss (if ltb loss_max_gap gap then loss_max_gap else gap) n.loss_rate in
    record n { loss_rate = u8 (missed * 7 / 8) }

-- `recompute_etx`
unfoldable pub recompute_etx : Neighbor → Neighbor
recompute_etx n =
    let delivery_pct = sub32 100 n.loss_rate in
    let etx = 800 / delivery_pct in
    record n {
      etx_x8 =
          if delivery_pct == 0
          then 255
          else if ltb 255 etx
          then 255
          else if ltb etx 8
          then 8
          else u8 etx;
    }

-- The mean with weight 1/8, rounded to zero; both casts in one.
abbrev pub ewma : ℤ → ℤ → ℤ
ewma avg sample = tdiv (scale avg 7 +ℤ sample) 8

-- What a received frame says of its sender.
pub record Observation : Type 0 where
  pub node_id : ℕ
  pub rssi_dbm : ℤ
  pub snr_db : ℤ
  pub hop_count : ℕ
  pub seq : ℕ
  pub frame_len : ℕ
  pub now_ms : ℕ

-- The branch of `neighbor_update` for a known neighbour.
unfoldable pub update_known : Neighbor → Observation → Neighbor
update_known n o =
    let heard : Neighbor = record n {
      rssi_avg = i16 (ewma n.rssi_avg o.rssi_dbm);
      snr_avg = i8 (ewma n.snr_avg o.snr_db);
    } in
    let lossy = if ltb 0 heard.rx_ok then update_loss_rate_ewma heard o.seq else heard in
    recompute_etx (record lossy {
      hop_count = if ltb o.hop_count lossy.hop_count then o.hop_count else lossy.hop_count;
    })

-- The entry of a new one.
abbrev pub fresh_entry : Observation → Neighbor
fresh_entry o = record empty {
  neighbor_id = o.node_id;
  rssi_avg = o.rssi_dbm;
  snr_avg = o.snr_db;
  hop_count = o.hop_count;
  etx_x8 = 8;
}

-- The end of `neighbor_update`, for both.
unfoldable pub observe : Neighbor → Observation → Neighbor
observe n o =
    let kept = bit_and n.flags (255 - flag_stale) in
    record n {
      avg_frame_len =
          if ltb 0 o.frame_len
          then if n.avg_frame_len == 0
            then o.frame_len
            else u8 ((n.avg_frame_len * 7 + o.frame_len) / 8)
          else n.avg_frame_len;
      last_seq = o.seq;
      last_seen_ms = o.now_ms;
      rx_ok = inc32 n.rx_ok;
      flags = if o.hop_count == 0 then bit_or kept flag_direct else kept;
    }

-- A new entry in slot `slot`.
abbrev pub insert_at : Table → ℕ → Observation → Table
insert_at tbl slot o = record tbl { entries = set tbl.entries slot (observe (fresh_entry o) o) }

-- `neighbor_update`; the option is the slot that the returned pointer names.
unfoldable pub update : Table → Observation → Table × Option ℕ
update tbl o =
    let old = oldest_slot tbl in
    if o.node_id == 0 then (tbl, none) else elim (find_slot tbl o.node_id) [
      | some i ↦ (
        record tbl { entries = set tbl.entries i (observe (update_known (entry_at tbl i) o) o) },
        some i,
      )
      | none ↦
          if ltb tbl.count table_size
          then (insert_at (record tbl { count = tbl.count + 1 }) tbl.count o, some tbl.count)
          else (insert_at tbl old o, some old)
    ]

-- The entry that `neighbor_find` returns, with its flag brought up to date.
abbrev pub mark_stale : Neighbor → ℕ → Neighbor
mark_stale n age = record n {
  flags =
      if leb stale_ms age then bit_or n.flags flag_stale else bit_and n.flags (255 - flag_stale);
}

-- `neighbor_find`: the first entry of the node, unless it has expired.
unfoldable pub find : Table → ℕ → ℕ → Table × Option ℕ
find tbl node_id now_ms = if node_id == 0 then (tbl, none) else elim (find_slot tbl node_id) [
  | none ↦ (tbl, none)
  | some i ↦
      let n = entry_at tbl i in
      let age = sub32 now_ms n.last_seen_ms in
      if leb expiry_ms age
      then (tbl, none)
      else (record tbl { entries = set tbl.entries i (mark_stale n age) }, some i)
]

-- `neighbor_set_flag`
unfoldable pub set_flag : Table → ℕ → ℕ → Table
set_flag tbl node_id flag = if node_id == 0 then tbl else elim (find_slot tbl node_id) [
  | none ↦ tbl
  | some i ↦
      let n = entry_at tbl i in
      record tbl { entries = set tbl.entries i (record n { flags = bit_or n.flags flag }) }
]

-- `neighbor_set_position`
unfoldable pub set_position : Table → ℕ → ℤ → ℤ → Table
set_position tbl node_id lat_e7 lon_e7 =
    if node_id == 0 then tbl else elim (find_slot tbl node_id) [
      | none ↦ tbl
      | some i ↦ record tbl {
        entries = set tbl.entries i (record (entry_at tbl i) { lat_e7 = lat_e7; lon_e7 = lon_e7 });
      }
    ]

-- `age >= NTABLE_EXPIRY_MS`
abbrev pub is_expired : ℕ → Neighbor → Bool
is_expired now_ms n = leb expiry_ms (sub32 now_ms n.last_seen_ms)

-- The loop of `neighbor_table_expire`, at most `fuel` rounds of it, at index `i`.
unfoldable pub expire_rounds : ℕ → Table → ℕ → ℕ → ℕ → Table × ℕ
expire_rounds zero tbl i removed now_ms = (tbl, removed)
expire_rounds (suc fuel) tbl i removed now_ms =
    let n = entry_at tbl i in
    let last = tbl.count - 1 in
    let moved = if i == last then tbl.entries else set tbl.entries i (entry_at tbl last) in
    let shrunk : Table = record { entries = set moved last empty; count = last } in
    let removing = expire_rounds fuel shrunk i (u8 (removed + 1)) now_ms in
    let keeping = expire_rounds fuel tbl (u8 (i + 1)) removed now_ms in
    if not (ltb i tbl.count)
    then (tbl, removed)
    else if is_expired now_ms n
    then removing
    else keeping

-- `neighbor_table_expire`; each round visits an entry or takes one away.
unfoldable pub expire : Table → ℕ → Table × ℕ
expire tbl now_ms = expire_rounds tbl.count tbl 0 0 now_ms
