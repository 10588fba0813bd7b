-- ===== src/RouteCache/Refreshed.antt =====
-- firmware_core/route_cache.c: what the search for a route changes in the neighbour table.
use rivr.Common.{ℕ, zero, suc, refl, inl, inr, Bool, not, Option, none, some, List, []}
use rivr.Common.{leb, Bool-cases, Option-cases, length, get_or, set, length-set, sub32}
use rivr.Common.{◌≡◌, ◌∙◌, ◌||◌, ◌∷◌, ◌==◌}
use rivr.Neighbor.{Neighbor, Table, empty, entry_at, mark_stale, find_slot}
unfoldable use rivr.Neighbor.{find}
use rivr.RouteCache.{Entry, is_valid, expire_entry}
use rivr.RouteCache.BestHop.{Search, is_pending}
unfoldable use rivr.RouteCache.BestHop.{entry_composite_score, weigh, search}

-- An entry without its flags.
abbrev pub erase : Neighbor → Neighbor
erase n = record n { flags = 0 }

-- The table `t` differs from `t0` at most in the flags of its entries.
pub record IsRefreshed (t0 t : Table) : Type 0 where
  pub counts : t.count ≡ t0.count
  pub sizes : length t.entries ≡ length t0.entries
  pub same : (i : ℕ) → erase (entry_at t i) ≡ erase (entry_at t0 i)

-- The same for a table that may be missing.
abbrev pub IsRefresh : Option Table → Option Table → Type 0
IsRefresh none none = Unit
IsRefresh (some t0) (some t) = IsRefreshed t0 t
IsRefresh none (some t) = ⊥
IsRefresh (some t0) none = ⊥

IsRefresh-refl : (t : Option Table) → IsRefresh t t
IsRefresh-refl none = tt
IsRefresh-refl (some t) = record { counts = refl; sizes = refl; same = λ i. refl }

IsRefresh-trans : (t0 t1 t2 : Option Table) → IsRefresh t0 t1 → IsRefresh t1 t2 → IsRefresh t0 t2
IsRefresh-trans none none none h k = tt
IsRefresh-trans none none (some t) h k = k
IsRefresh-trans none (some t1) t2 h k = absurd h
IsRefresh-trans (some t0) none t2 h k = absurd h
IsRefresh-trans (some t0) (some t1) none h k = k
IsRefresh-trans (some t0) (some t1) (some t2) h k = record {
  counts = k.counts ∙ h.counts;
  sizes = k.sizes ∙ h.sizes;
  same = λ i. k.same i ∙ h.same i;
}

erase-set :
    (es : List Neighbor) (i j : ℕ) (n : Neighbor)
    → erase n ≡ erase (get_or es i empty)
    → erase (get_or (set es i n) j empty) ≡ erase (get_or es j empty)
erase-set [] i j n h = refl
erase-set (e ∷ es) zero zero n h = h
erase-set (e ∷ es) zero (suc j) n h = refl
erase-set (e ∷ es) (suc i) zero n h = refl
erase-set (e ∷ es) (suc i) (suc j) n h = erase-set es i j n h

find-IsRefreshed : (t : Table) (node_id now_ms : ℕ) → IsRefreshed t (find t node_id now_ms).0
unfolding find
find-IsRefreshed t node_id now_ms =
    let stays : IsRefreshed t t = IsRefresh-refl (some t) in
    elim (Bool-cases (node_id == 0)) [
      | inl e ↦ rw e stays
      | inr e ↦ elim (Option-cases (find_slot t node_id)) [
        | inl gone ↦ rw (e, gone) stays
        | inr (i, there) ↦
            let age = sub32 now_ms (entry_at t i).last_seen_ms in
            elim (Bool-cases (leb 120000 age)) [
              | inl old ↦ rw (e, there, old) stays
              | inr young ↦
                  rw (e, there, young)
                    (record {
                      counts = refl;
                      sizes = length-set t.entries i (mark_stale (entry_at t i) age);
                      same = λ j. erase-set t.entries i j (mark_stale (entry_at t i) age) refl;
                    })
            ]
      ]
    ]

score-IsRefresh :
    (airtime_routing : Bool) (e : Entry) (t : Option Table) (now_ms : ℕ)
    → IsRefresh t (entry_composite_score airtime_routing e t now_ms).0
unfolding entry_composite_score
score-IsRefresh airtime_routing e none now_ms =
    elim (Bool-cases (leb 120000 (sub32 now_ms e.last_seen_ms))) [
      | inl old ↦ rw old tt
      | inr young ↦ rw young tt
    ]
score-IsRefresh airtime_routing e (some t) now_ms =
    elim (Bool-cases (leb 120000 (sub32 now_ms e.last_seen_ms))) [
      | inl old ↦ rw old (IsRefresh-refl (some t))
      | inr young ↦ elim (Option-cases (find t e.next_hop now_ms).1) [
        | inl gone ↦ rw (young, gone) (find-IsRefreshed t e.next_hop now_ms)
        | inr (i, there) ↦ rw (young, there) (find-IsRefreshed t e.next_hop now_ms)
      ]
    ]

pub search-IsRefresh :
    (airtime_routing : Bool) (es : List Entry) (s : Search) (dst_id now_ms : ℕ)
    → IsRefresh s.ntbl (search airtime_routing es s dst_id now_ms).1.ntbl
unfolding search weigh
search-IsRefresh airtime_routing [] s dst_id now_ms = IsRefresh-refl s.ntbl
search-IsRefresh airtime_routing (e ∷ es) s dst_id now_ms =
    let e' = (expire_entry e now_ms).0 in
    let gone = (expire_entry e now_ms).1 in
    let next = weigh airtime_routing s e' now_ms in
    elim (Bool-cases (not (e.dst_id == dst_id) || (gone || (not (is_valid e') || is_pending e')))) [
      | inl skip ↦ rw skip (search-IsRefresh airtime_routing es s dst_id now_ms)
      | inr keep ↦ rw keep (
          IsRefresh-trans s.ntbl next.ntbl (search airtime_routing es next dst_id now_ms).1.ntbl
            (score-IsRefresh airtime_routing e' s.ntbl now_ms)
            (search-IsRefresh airtime_routing es next dst_id now_ms))
    ]
