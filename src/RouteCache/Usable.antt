-- ===== src/RouteCache/Usable.antt =====
-- firmware_core/route_cache.c: what a next hop that route_cache_best_hop selects can rely on.
use rivr.Common.{ℕ, suc, refl, sym, ap, subst, inl, inr, Bool, true, false, not, Option}
use rivr.Common.{none, some, List, [], arith, ltb, leb, ltb→lt, Bool-cases, Option-cases}
use rivr.Common.{length, get_or, All, sub32, ◌+◌, ◌<◌, ◌≡◌, ◌∙◌, ◌≢◌, ◌⊎◌, ◌||◌, ◌∷◌}
use rivr.Common.{◌==◌}
use rivr.Metrics.{Metrics}
use rivr.Neighbor.{Table}
use rivr.RouteCache.Forwarder.{IsSized, IsForwarder, forwarder-IsForwarder}
use rivr.RouteCache.Refreshed.{search-IsRefresh}
use rivr.RouteCache.{Entry, Cache, empty, is_valid}
unfoldable use rivr.RouteCache.{expire_entry}
use rivr.RouteCache.BestHop.{BestRoute, Search, is_pending}
unfoldable use rivr.RouteCache.BestHop.{entry_composite_score, weigh, search, forwarder, best_hop}

-- An entry of the cache is a valid route to the destination, settled and less than two minutes old.
pub record IsUsable (entries : List Entry) (dst_id now_ms : ℕ) (e : Entry) : Type 0 where
  pub slot : ℕ
  pub slot_in : slot < length entries
  pub stands : get_or entries slot empty ≡ e
  pub destination : e.dst_id ≡ dst_id
  pub valid : is_valid e ≡ true
  pub settled : is_pending e ≡ false
  pub fresh : sub32 now_ms e.last_seen_ms < 120000

abbrev pub Chosen : {A : Type 0} → (A → Type 0) → Option A → Type 0
Chosen P none = Unit
Chosen P (some a) = P a

-- An entry of the table at some place.
abbrev pub Member : List Entry → Entry → Type 0
Member whole e = (i : ℕ) × (i < length whole) × (get_or whole i empty ≡ e)

composite_score-fresh :
    (airtime_routing : Bool) (e : Entry) (ntbl : Option Table) (now_ms : ℕ)
    → 0 < (entry_composite_score airtime_routing e ntbl now_ms).1
    → sub32 now_ms e.last_seen_ms < 120000
unfolding entry_composite_score
composite_score-fresh airtime_routing e none now_ms h =
    elim (Bool-cases (leb 120000 (sub32 now_ms e.last_seen_ms))) [
      | inl old ↦ absurd (ground (arith, old, h))
      | inr young ↦ ground (arith, young)
    ]
composite_score-fresh airtime_routing e (some ntbl) now_ms h =
    elim (Bool-cases (leb 120000 (sub32 now_ms e.last_seen_ms))) [
      | inl old ↦ absurd (ground (arith, old, h))
      | inr young ↦ ground (arith, young)
    ]

weigh-Chosen :
    (airtime_routing : Bool) (whole : List Entry) (s : Search) (e : Entry) (dst_id now_ms : ℕ)
    → Member whole e
    → e.dst_id ≡ dst_id
    → is_valid e ≡ true
    → is_pending e ≡ false
    → Chosen (IsUsable whole dst_id now_ms) s.best_entry
    → Chosen (IsUsable whole dst_id now_ms) (weigh airtime_routing s e now_ms).best_entry
unfolding weigh
weigh-Chosen airtime_routing whole s e dst_id now_ms (i, lt, there) dst valid settled h =
    let sc = (entry_composite_score airtime_routing e s.ntbl now_ms).1 in
    elim (Bool-cases (ltb s.best_score sc)) [
      | inl more ↦
          let won = ltb→lt s.best_score sc more in
          rw more (record {
            slot = i;
            slot_in = lt;
            stands = there;
            destination = dst;
            valid = valid;
            settled = settled;
            fresh = composite_score-fresh airtime_routing e s.ntbl now_ms (omega arith);
          })
      | inr less ↦ rw less h
    ]

-- An entry that has not expired is left as it is.
expire_entry-stays :
    (e : Entry) (now_ms : ℕ) → (expire_entry e now_ms).1 ≡ false → (expire_entry e now_ms).0 ≡ e
unfolding expire_entry
expire_entry-stays e now_ms h = elim (Bool-cases (is_valid e)) [
  | inl v ↦ elim (Bool-cases (ltb 120000 (sub32 now_ms e.last_seen_ms))) [
    | inl old ↦ absurd (ground (arith, v, old, h))
    | inr young ↦ rw (v, young) refl
  ]
  | inr v ↦ rw v refl
]

search-Chosen :
    (airtime_routing : Bool) (whole es : List Entry) (s : Search) (dst_id now_ms : ℕ)
    → All (Member whole) es
    → Chosen (IsUsable whole dst_id now_ms) s.best_entry
    → Chosen (IsUsable whole dst_id now_ms) (search airtime_routing es s dst_id now_ms).1.best_entry
unfolding search
search-Chosen airtime_routing whole [] s dst_id now_ms all h = h
search-Chosen airtime_routing whole (e ∷ es) s dst_id now_ms all h =
    let e' = (expire_entry e now_ms).0 in
    let gone = (expire_entry e now_ms).1 in
    let passed = search-Chosen airtime_routing whole es s dst_id now_ms all.1 h in
    elim (Bool-cases (not (e.dst_id == dst_id) || (gone || (not (is_valid e') || is_pending e')))) [
      | inl skip ↦ rw skip passed
      | inr keep ↦
          let stayed : gone ≡ false = ground (arith, keep) in
          let same = expire_entry-stays e now_ms stayed in
          let valid : is_valid e' ≡ true = ground (arith, keep) in
          let settled : is_pending e' ≡ false = ground (arith, keep) in
          let dst : e.dst_id ≡ dst_id = ground (arith, keep) in
          let usable =
            weigh-Chosen airtime_routing whole s e' dst_id now_ms
              (subst (Member whole) (sym same) all.0) (ap (λ x. x.dst_id) same ∙ dst) valid settled
              h in
          rw keep (
            search-Chosen airtime_routing whole es (weigh airtime_routing s e' now_ms) dst_id now_ms
              all.1 usable)
    ]

All-Member :
    (es whole : List Entry) (offset : ℕ)
    → ((i : ℕ) → get_or whole (offset + i) empty ≡ get_or es i empty)
    → offset + length es ≡ length whole
    → All (Member whole) es
All-Member [] whole offset same size = tt
All-Member (e ∷ es) whole offset same size =
    let here : offset + 0 ≡ offset = omega arith in
    (
      (offset, omega arith, ap (λ k. get_or whole k empty) (sym here) ∙ same 0),
      All-Member es whole (suc offset)
          (λ i.
            let move : suc offset + i ≡ offset + suc i = omega arith in
            ap (λ k. get_or whole k empty) move ∙ same (suc i))
          (omega arith),
    )

-- What a selected route goes by: a usable entry, or a direct neighbour of sufficient score.
abbrev pub Basis : Bool → List Entry → Option Table → Option Table → ℕ → ℕ → BestRoute → Type 0
Basis airtime_routing entries ntbl ntbl' dst_id now_ms r =
    ((e : Entry) × IsUsable entries dst_id now_ms e
      × (r.next_hop_id ≡ e.next_hop)
      × (r.hop_count ≡ e.hop_count))
    ⊎ ((before : Table) × (after : Table) × (i : ℕ) × (ntbl ≡ some before)
        × (ntbl' ≡ some after)
        × IsForwarder airtime_routing now_ms before after r.next_hop_id i
        × (r.hop_count ≡ 2))

-- A route that route_cache_best_hop selects leads to the destination that was asked for, which is
-- not 0. Its next hop and hop count are those of a cache entry for the destination that is valid,
-- not pending and less than two minutes old; or its hop count is 2 and its next hop is a neighbour
-- that stands among the counted entries of the table that was passed, with a link score of at least
-- 20. In that case the table that is left differs from the one passed in flags only, and there the
-- neighbour is the one that neighbor_best returns and is marked as direct. The entries of the neighbour
-- table are at least as many as its count, if there is a table.
pub best_hop-Basis :
    (airtime_routing : Bool) (cache : Cache) (ntbl : Option Table) (m : Metrics) (dst_id now_ms : ℕ)
    → IsSized ntbl
    → let (cache', ntbl', m', found) = best_hop airtime_routing cache ntbl m dst_id now_ms in
      Chosen
        (λ r.
          (dst_id ≢ 0)
          × (r.dest_id ≡ dst_id)
          × Basis airtime_routing cache.entries ntbl ntbl' dst_id now_ms r)
        found
unfolding best_hop
best_hop-Basis airtime_routing cache ntbl m dst_id now_ms sized =
    let start : Search = record { ntbl = ntbl; best_entry = none; best_score = 0 } in
    let s = (search airtime_routing cache.entries start dst_id now_ms).1 in
    let all =
      All-Member cache.entries cache.entries 0
        (λ i. let e : 0 + i ≡ i = omega arith in ap (λ k. get_or cache.entries k empty) e)
        (omega arith) in
    let chosen =
      search-Chosen airtime_routing cache.entries cache.entries start dst_id now_ms all tt in
    let fresh = search-IsRefresh airtime_routing cache.entries start dst_id now_ms in
    elim (Bool-cases (dst_id == 0)) [
      | inl z ↦ rw z tt
      | inr nz ↦
          let some_dst : dst_id ≢ 0 = ground (arith, nz) in
          elim (Option-cases s.best_entry) [
            | inr (e, there) ↦
                let usable : IsUsable cache.entries dst_id now_ms e = rw there at chosen in
                rw (nz, there) (some_dst, refl, inl (e, usable, refl, refl))
            | inl gone ↦ elim (Option-cases (forwarder airtime_routing s.ntbl now_ms)) [
              | inl nothing ↦ rw (nz, gone, nothing) tt
              | inr (nb, there) ↦
                  let (t0, t, i, was, is, ok) =
                    forwarder-IsForwarder airtime_routing ntbl s.ntbl now_ms nb sized fresh there in
                  rw (nz, gone, there) (some_dst, refl, inr (t0, t, i, was, is, ok, refl))
            ]
          ]
    ]
