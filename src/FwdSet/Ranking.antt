-- ===== src/FwdSet/Ranking.antt =====
-- firmware_core/fwd_set.h: the order of the candidates, and when this node leaves a relay to others.
use rivr.Common.{ℕ, zero, suc, refl, ap, inl, inr, Bool, true, false, not, List, []}
use rivr.Common.{arith, ltb, leb, Bool-cases, length, ◌+◌, ◌≤◌, ◌<◌, ◌≡◌, ◌∙◌, ◌&&◌, ◌||◌}
use rivr.Common.{◌∷◌, ◌==◌, if◌then◌else◌}
use rivr.Neighbor.{Neighbor, Table}
use rivr.Neighbor.Score.{link_score_full}
use rivr.FwdSet.{Candidate, FwdSet, is_skipped, is_direct, zero_set}
unfoldable use rivr.FwdSet.{bubble_up, insert, tally, add_entry, build_from, build, suppress_relay}

-- Some neighbour that is not skipped has a score of at least 20; some direct one has.
abbrev pub any_viable : Bool → ℕ → List Neighbor → Bool
any_viable airtime_routing now_ms [] = false
any_viable airtime_routing now_ms (n ∷ ns) =
    not (is_skipped now_ms n) && leb 20 (link_score_full airtime_routing n now_ms)
    || any_viable airtime_routing now_ms ns

abbrev pub any_direct_viable : Bool → ℕ → List Neighbor → Bool
any_direct_viable airtime_routing now_ms [] = false
any_direct_viable airtime_routing now_ms (n ∷ ns) =
    not (is_skipped now_ms n) && (is_direct n && leb 20 (link_score_full airtime_routing n now_ms))
    || any_direct_viable airtime_routing now_ms ns

-- An insertion touches the candidates alone.
insert-others :
    (fs : FwdSet) (node_id sc : ℕ)
    → ((insert fs node_id sc).viable_count ≡ fs.viable_count)
      × ((insert fs node_id sc).best_direct_score ≡ fs.best_direct_score)
unfolding insert
insert-others fs node_id sc = ground arith

tally-others :
    (fs : FwdSet) (n : Neighbor) (sc : ℕ)
    → fs.viable_count < 255
    → ((tally fs n sc).viable_count ≡ (if leb 20 sc then fs.viable_count + 1 else fs.viable_count))
      × (leb 20 (tally fs n sc).best_direct_score
          ≡ (leb 20 fs.best_direct_score || (is_direct n && leb 20 sc)))
unfolding tally
tally-others fs n sc room = elim (Bool-cases (is_direct n)) [
  | inl d ↦ rw d (ground arith)
  | inr d ↦ rw d (ground arith)
]

add_entry-others :
    (fs : FwdSet) (n : Neighbor) (sc : ℕ)
    → fs.viable_count < 255
    → ((add_entry fs n sc).viable_count
        ≡ (if leb 20 sc then fs.viable_count + 1 else fs.viable_count))
      × (leb 20 (add_entry fs n sc).best_direct_score
          ≡ (leb 20 fs.best_direct_score || (is_direct n && leb 20 sc)))
unfolding add_entry
add_entry-others fs n sc room =
    let kept = insert-others (tally fs n sc) n.neighbor_id sc in
    let counted = tally-others fs n sc room in (kept.0 ∙ counted.0, ap (leb 20) kept.1 ∙ counted.1)

build_from-viable :
    (airtime_routing : Bool) (now_ms : ℕ) (fs : FwdSet) (ns : List Neighbor)
    → fs.viable_count + length ns ≤ 255
    → let fs' = build_from airtime_routing now_ms fs ns in
      (ltb 0 fs'.viable_count ≡ (ltb 0 fs.viable_count || any_viable airtime_routing now_ms ns))
      × (leb 20 fs'.best_direct_score
          ≡ (leb 20 fs.best_direct_score || any_direct_viable airtime_routing now_ms ns))
unfolding build_from
build_from-viable airtime_routing now_ms fs [] room = ground arith
build_from-viable airtime_routing now_ms fs (n ∷ ns) room =
    let sc = link_score_full airtime_routing n now_ms in
    let counted = add_entry-others fs n sc (omega arith) in
    elim (Bool-cases (is_skipped now_ms n)) [
      | inl skip ↦
          rw (skip, build_from) (build_from-viable airtime_routing now_ms fs ns (omega arith))
      | inr keep ↦
          let rest =
            build_from-viable airtime_routing now_ms (add_entry fs n sc) ns
              (ground (arith, counted.0)) in
          rw (keep, build_from)
            (rest.0 ∙ ground (arith, counted.0), rest.1 ∙ ground (arith, counted.1))
    ]

-- For a table of at most 255 slots: fwdset_suppress_relay, on the set that fwdset_build makes of
-- the table, gives up the relay exactly if some neighbour that is not stale has a score of at least
-- 20 and no direct one has.
pub suppress_relay-build :
    (airtime_routing : Bool) (ntbl : Table) (now_ms : ℕ)
    → length ntbl.entries ≤ 255
    → suppress_relay (build airtime_routing ntbl now_ms) ≡ (
        any_viable airtime_routing now_ms ntbl.entries
        && not (any_direct_viable airtime_routing now_ms ntbl.entries))
unfolding build suppress_relay
suppress_relay-build airtime_routing ntbl now_ms small =
    let spec = build_from-viable airtime_routing now_ms zero_set ntbl.entries (omega arith) in
    ground (arith, spec)

-- Three candidates with falling scores, of which the ones from `count` on are empty.
abbrev pub falling : ℕ → List Candidate → Bool
falling count (a ∷ b ∷ c ∷ []) =
    leb b.score a.score
    && leb c.score b.score
    && (leb 2 count || b.score == 0)
    && (leb 3 count || c.score == 0)
    && leb count 3
falling count cs = false

insert_three :
    (a b c : Candidate) (count d e v node_id sc : ℕ)
    → falling count (a ∷ b ∷ c ∷ []) ≡ true
    → let fs' =
        insert
          (record {
            candidates = a ∷ b ∷ c ∷ [];
            count = count;
            best_direct_score = d;
            direct_count = e;
            viable_count = v;
          })
          node_id
          sc in
      falling fs'.count fs'.candidates ≡ true
unfolding insert bubble_up
insert_three a b c zero d e v node_id sc h = ground arith
insert_three a b c (suc zero) d e v node_id sc h = ground arith
insert_three a b c (suc (suc zero)) d e v node_id sc h = ground arith
insert_three a b c (suc (suc (suc n))) d e v node_id sc h = ground arith

insert-falling :
    (fs : FwdSet) (node_id sc : ℕ)
    → falling fs.count fs.candidates ≡ true
    → falling (insert fs node_id sc).count (insert fs node_id sc).candidates ≡ true
insert-falling fs node_id sc h =
    go fs.candidates fs.count fs.best_direct_score fs.direct_count fs.viable_count h
  where
    go :
        (cs : List Candidate) (count d e v : ℕ)
        → falling count cs ≡ true
        → let fs' =
            insert
              (record {
                candidates = cs;
                count = count;
                best_direct_score = d;
                direct_count = e;
                viable_count = v;
              })
              node_id
              sc in
          falling fs'.count fs'.candidates ≡ true
    go [] count d e v h = ground (arith, h)
    go (a ∷ []) count d e v h = ground (arith, h)
    go (a ∷ b ∷ []) count d e v h = ground (arith, h)
    go (a ∷ b ∷ c ∷ []) count d e v h = insert_three a b c count d e v node_id sc h
    go (a ∷ b ∷ c ∷ x ∷ xs) count d e v h = ground (arith, h)

tally-falling :
    (fs : FwdSet) (n : Neighbor) (sc : ℕ)
    → ((tally fs n sc).count ≡ fs.count) × ((tally fs n sc).candidates ≡ fs.candidates)
unfolding tally
tally-falling fs n sc = elim (Bool-cases (is_direct n)) [
  | inl d ↦ elim (Bool-cases (leb 20 sc)) [
    | inl e ↦ rw (d, e) (refl, refl)
    | inr e ↦ rw (d, e) (refl, refl)
  ]
  | inr d ↦ elim (Bool-cases (leb 20 sc)) [
    | inl e ↦ rw (d, e) (refl, refl)
    | inr e ↦ rw (d, e) (refl, refl)
  ]
]

build_from-falling :
    (airtime_routing : Bool) (now_ms : ℕ) (fs : FwdSet) (ns : List Neighbor)
    → falling fs.count fs.candidates ≡ true
    → let fs' = build_from airtime_routing now_ms fs ns in falling fs'.count fs'.candidates ≡ true
unfolding build_from add_entry
build_from-falling airtime_routing now_ms fs [] h = h
build_from-falling airtime_routing now_ms fs (n ∷ ns) h =
    let sc = link_score_full airtime_routing n now_ms in
    let same = tally-falling fs n sc in
    let ranked : falling (tally fs n sc).count (tally fs n sc).candidates ≡ true =
      rw (same.0, same.1) h in
    elim (Bool-cases (is_skipped now_ms n)) [
      | inl skip ↦ rw (skip, build_from) (build_from-falling airtime_routing now_ms fs ns h)
      | inr keep ↦
          rw (keep, build_from)
            (build_from-falling airtime_routing now_ms (add_entry fs n sc) ns
              (insert-falling (tally fs n sc) n.neighbor_id sc ranked))
    ]

-- fwdset_build ranks at most three candidates by falling score, and leaves the places behind its
-- count empty.
pub build-falling :
    (airtime_routing : Bool) (ntbl : Table) (now_ms : ℕ)
    → let fs = build airtime_routing ntbl now_ms in falling fs.count fs.candidates ≡ true
unfolding build
build-falling airtime_routing ntbl now_ms =
    build_from-falling airtime_routing now_ms zero_set ntbl.entries refl
