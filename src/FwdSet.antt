-- ===== src/FwdSet.antt =====
-- firmware_core/fwd_set.h: the best relay candidates of the neighbour table, and what they say of this
-- node's own relaying. The argument `airtime_routing` is the build flag of the link score; the
-- printing is left out.
pub mod Ranking
use rivr.Common.{ℕ, zero, suc, bit_and, Bool, false, not, List, [], ltb, leb, get_or, set}
use rivr.Common.{replicate, u8, u32, sub32, ◌+◌, ◌-◌, ◌||◌, ◌∷◌, ◌==◌, if◌then◌else◌}
use rivr.Neighbor.{Neighbor, Table, stale_ms, flag_direct}
use rivr.Neighbor.Score.{link_score_full}

-- FWDSET_MAX, FWDSET_MIN_RELAY_SCORE, FWDSET_HOLDOFF_MID_MS, FWDSET_HOLDOFF_LOW_MS,
-- FWDSET_DENSITY_DENSE_MS, FWDSET_DENSITY_MED_MS
abbrev pub max_candidates : ℕ
max_candidates = 3

abbrev pub min_relay_score : ℕ
min_relay_score = 20

abbrev pub holdoff_mid_ms : ℕ
holdoff_mid_ms = 50

abbrev pub holdoff_low_ms : ℕ
holdoff_low_ms = 120

abbrev pub density_dense_ms : ℕ
density_dense_ms = 80

abbrev pub density_med_ms : ℕ
density_med_ms = 40

-- `fwd_candidate_t`
pub record Candidate : Type 0 where
  pub node_id : ℕ
  pub score : ℕ

-- `fwd_set_t`
pub record FwdSet : Type 0 where
  pub candidates : List Candidate
  pub count : ℕ
  pub best_direct_score : ℕ
  pub direct_count : ℕ
  pub viable_count : ℕ

abbrev pub no_candidate : Candidate
no_candidate = record { node_id = 0; score = 0 }

abbrev pub zero_set : FwdSet
zero_set = record {
  candidates = replicate max_candidates no_candidate;
  count = 0;
  best_direct_score = 0;
  direct_count = 0;
  viable_count = 0;
}

-- The loop that moves the candidate at `k` up past weaker ones.
unfoldable pub bubble_up : List Candidate → ℕ → List Candidate
bubble_up cs zero = cs
bubble_up cs (suc k) =
    let here = get_or cs (suc k) no_candidate in
    let above = get_or cs k no_candidate in
    let rest = bubble_up (set (set cs (suc k) above) k here) k in
    if ltb above.score here.score then rest else cs

-- The insertion into `candidates` in `fwdset_build`.
unfoldable pub insert : FwdSet → ℕ → ℕ → FwdSet
insert fs node_id sc =
    let c : Candidate = record { node_id = node_id; score = sc } in
    let last = max_candidates - 1 in
    if ltb fs.count max_candidates
    then record fs {
      candidates = bubble_up (set fs.candidates fs.count c) fs.count;
      count = fs.count + 1;
    }
    else if ltb (get_or fs.candidates last no_candidate).score sc
    then record fs { candidates = bubble_up (set fs.candidates last c) last }
    else fs

-- Whether an entry is skipped.
abbrev pub is_skipped : ℕ → Neighbor → Bool
is_skipped now_ms n = n.neighbor_id == 0 || ltb stale_ms (sub32 now_ms n.last_seen_ms)

abbrev pub is_direct : Neighbor → Bool
is_direct n = not (bit_and n.flags flag_direct == 0)

-- The counts of `fwdset_build` for an entry that is not skipped, with its score.
unfoldable pub tally : FwdSet → Neighbor → ℕ → FwdSet
tally fs n sc =
    let fs1 =
      if is_direct n
      then record fs {
        direct_count = u8 (fs.direct_count + 1);
        best_direct_score = if ltb fs.best_direct_score sc then sc else fs.best_direct_score;
      }
      else fs in
    if leb min_relay_score sc then record fs1 { viable_count = u8 (fs1.viable_count + 1) } else fs1

-- One round of `fwdset_build` for an entry that is not skipped.
unfoldable pub add_entry : FwdSet → Neighbor → ℕ → FwdSet
add_entry fs n sc = insert (tally fs n sc) n.neighbor_id sc

-- The loop of `fwdset_build`.
unfoldable pub build_from : Bool → ℕ → FwdSet → List Neighbor → FwdSet
build_from airtime_routing now_ms fs [] = fs
build_from airtime_routing now_ms fs (n ∷ ns) =
    build_from airtime_routing now_ms
      (if is_skipped now_ms n
        then fs
        else add_entry fs n (link_score_full airtime_routing n now_ms))
      ns

-- `fwdset_build`
unfoldable pub build : Bool → Table → ℕ → FwdSet
build airtime_routing ntbl now_ms = build_from airtime_routing now_ms zero_set ntbl.entries

-- `fwdset_suppress_relay`
unfoldable pub suppress_relay : FwdSet → Bool
suppress_relay fs = if fs.viable_count == 0 then false else ltb fs.best_direct_score min_relay_score

-- `fwdset_extra_holdoff_ms`
unfoldable pub extra_holdoff_ms : FwdSet → ℕ
extra_holdoff_ms fs =
    let quality_ms =
      if leb 70 fs.best_direct_score
      then 0
      else if leb 40 fs.best_direct_score
      then holdoff_mid_ms
      else if leb min_relay_score fs.best_direct_score
      then holdoff_low_ms
      else 0 in
    let density_ms =
      if leb 4 fs.viable_count
      then density_dense_ms
      else if leb 2 fs.viable_count
      then density_med_ms
      else 0 in
    u32 (quality_ms + density_ms)
