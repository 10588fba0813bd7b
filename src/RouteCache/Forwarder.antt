-- ===== src/RouteCache/Forwarder.antt =====
-- firmware_core/route_cache.c: what a neighbour that route_cache_best_hop falls back to can rely on.
use rivr.Common.{ℕ, bit_and, refl, sym, ap, subst, inl, inr, Bool, not, Option, none}
use rivr.Common.{some, arith, leb, Bool-cases, Option-cases, length, ◌≤◌, ◌<◌, ◌≡◌, ◌∙◌}
use rivr.Common.{◌≢◌, ◌&&◌, ◌==◌}
use rivr.Neighbor.{Neighbor, Table, entry_at}
use rivr.Neighbor.Best.{best-top}
unfoldable use rivr.Neighbor.Score.{link_score}
use rivr.Neighbor.Score.{best}
use rivr.RouteCache.Refreshed.{IsRefreshed, IsRefresh, erase}
unfoldable use rivr.RouteCache.BestHop.{forwarder}

-- The neighbour of tier 2 is the best one, direct and of sufficient score.
forwarder-best :
    (airtime_routing : Bool) (t : Table) (now_ms : ℕ) (nb : Neighbor)
    → forwarder airtime_routing (some t) now_ms ≡ some nb
    → (best airtime_routing t now_ms ≡ some nb)
      × (bit_and nb.flags 1 ≢ 0)
      × (20 ≤ link_score nb now_ms)
unfolding forwarder
forwarder-best airtime_routing t now_ms nb h = elim (Option-cases (best airtime_routing t now_ms)) [
  | inl gone ↦ absurd (ground (arith, rw (gone, forwarder) at h))
  | inr (n, there) ↦
      elim (Bool-cases (not (bit_and n.flags 1 == 0) && leb 20 (link_score n now_ms))) [
        | inl ok ↦
            let same : n ≡ nb = ground (arith, rw (there, ok, forwarder) at h) in
            (
              there ∙ ap some same,
              subst (λ (x : Neighbor). bit_and x.flags 1 ≢ 0) same (ground (arith, ok)),
              subst (λ x. 20 ≤ link_score x now_ms) same (ground (arith, ok)),
            )
        | inr less ↦ absurd (ground (arith, rw (there, less, forwarder) at h))
      ]
]

-- A neighbour table whose counted entries are all there; it may be missing.
abbrev pub IsSized : Option Table → Type 0
IsSized none = Unit
IsSized (some t) = t.count ≤ length t.entries

-- The counted entry `i` of the table `before` is the neighbour that a route leads to. The table `after`
-- differs from `before` in flags only; there the entry is direct, and the choice of `neighbor_best`.
pub record IsForwarder (airtime_routing : Bool) (now_ms : ℕ) (before after : Table)
    (next_hop_id : ℕ) (i : ℕ) : Type 0 where
  pub counted : i < before.count
  pub named : next_hop_id ≡ (entry_at before i).neighbor_id
  pub strong : 20 ≤ link_score (entry_at before i) now_ms
  pub refreshed : IsRefreshed before after
  pub direct : bit_and (entry_at after i).flags 1 ≢ 0
  pub chosen : best airtime_routing after now_ms ≡ some (entry_at after i)

link_score-erase : (n : Neighbor) (now_ms : ℕ) → link_score (erase n) now_ms ≡ link_score n now_ms
unfolding link_score
link_score-erase n now_ms = refl

forwarder-none :
    (airtime_routing : Bool) (now_ms : ℕ) → forwarder airtime_routing none now_ms ≡ none
unfolding forwarder
forwarder-none airtime_routing now_ms = refl

-- The neighbour of tier 2 stands in the table that was passed.
pub forwarder-IsForwarder :
    (airtime_routing : Bool) (ntbl after : Option Table) (now_ms : ℕ) (nb : Neighbor)
    → IsSized ntbl
    → IsRefresh ntbl after
    → forwarder airtime_routing after now_ms ≡ some nb
    → (t0 : Table) × (t : Table) × (i : ℕ) × (ntbl ≡ some t0)
      × (after ≡ some t)
      × IsForwarder airtime_routing now_ms t0 t nb.neighbor_id i
forwarder-IsForwarder airtime_routing none none now_ms nb sized fresh h =
    absurd (ground (arith, sym (forwarder-none airtime_routing now_ms) ∙ h))
forwarder-IsForwarder airtime_routing none (some t) now_ms nb sized fresh h = absurd fresh
forwarder-IsForwarder airtime_routing (some t0) none now_ms nb sized fresh h = absurd fresh
forwarder-IsForwarder airtime_routing (some t0) (some t) now_ms nb sized fresh h =
    let (chosen, direct, strong) = forwarder-best airtime_routing t now_ms nb h in
    let sized' : t.count ≤ length t.entries = omega (arith, fresh.counts, fresh.sizes) in
    let (i, lt, here) = rw chosen at ((best-top airtime_routing t now_ms sized').1) in
    let same : erase nb ≡ erase (entry_at t0 i) = ap erase (sym here) ∙ fresh.same i in
    (
      t0,
      t,
      i,
      refl,
      refl,
      record {
        counted = omega (arith, fresh.counts);
        named = ap (λ (n : Neighbor). n.neighbor_id) same;
        strong =
            subst (λ k. 20 ≤ k)
              (sym (link_score-erase nb now_ms)
                ∙ ap (λ n. link_score n now_ms) same
                ∙ link_score-erase (entry_at t0 i) now_ms)
              strong;
        refreshed = fresh;
        direct = subst (λ (n : Neighbor). bit_and n.flags 1 ≢ 0) (sym here) direct;
        chosen = chosen ∙ ap some (sym here);
      },
    )
