-- ===== src/Routing/Neighbors/Present.antt =====
-- firmware_core/routing.c: a sender that was heard stands in the neighbour table.
use mathlib.Core.List.{append-nil, append_assoc}
use rivr.Common.{ℕ, refl, sym, ap, subst, inl, inr, false, Option, none, some, List, []}
use rivr.Common.{arith, ltb, ==→eq, Bool-cases, length, get_or, length-append}
use rivr.Common.{get_or-set_self, get_or-append, u8, sub32, ◌+◌, ◌≤◌, ◌<◌, ◌≡◌, ◌∙◌, ◌≢◌}
use rivr.Common.{◌∷◌, ◌++◌, ◌==◌}
use rivr.Routing.Neighbors.{
  Entry, Table, Heard, Place, vacant, known, oldest, nowhere, empty, fill_slot, update_existing,
  older,
}
unfoldable use rivr.Routing.Neighbors.{scan, settle, update}

-- What the chosen slot is like.
abbrev Fits : List Entry → Heard → Place → Type 0
Fits es x (vacant k) = k < length es
Fits es x (known k) = (k < length es) × ((get_or es k empty).node_id ≡ x.pkt.src_id)
Fits es x (oldest k) = k < length es
Fits es x nowhere = length es ≡ 0

abbrev IsIndex : ℕ → Option (ℕ × ℕ) → Type 0
IsIndex n none = n ≡ 0
IsIndex n (some (k, age)) = k < n

length-snoc : (seen : List Entry) (n : Entry) → length (seen ++ (n ∷ [])) ≡ length seen + 1
length-snoc seen n = length-append seen (n ∷ [])

length-more : (seen ns : List Entry) (n : Entry) → length seen < length (seen ++ (n ∷ ns))
length-more seen ns n = omega (arith, length-append seen (n ∷ ns))

older-IsIndex :
    (x : Heard) (n : Entry) (i : ℕ) (old : Option (ℕ × ℕ))
    → IsIndex i old
    → IsIndex (i + 1) (older x n i old)
older-IsIndex x n i none h = omega arith
older-IsIndex x n i (some (k, a)) h = elim (Bool-cases (ltb a (sub32 x.now_ms n.last_seen_ms))) [
  | inl e ↦ rw e (omega arith)
  | inr e ↦ rw e (omega arith)
]

scan-Fits :
    (seen es : List Entry) (x : Heard) (old : Option (ℕ × ℕ))
    → IsIndex (length seen) old
    → Fits (seen ++ es) x (scan es x (length seen) old)
unfolding scan
scan-Fits seen [] x none h = ap length (append-nil seen) ∙ h
scan-Fits seen [] x (some (k, age)) h = subst (λ l. k < length l) (sym (append-nil seen)) h
scan-Fits seen (n ∷ ns) x old h =
    let here = length-more seen ns n in
    let mine : get_or (seen ++ (n ∷ ns)) (length seen) empty ≡ n =
      let e : length seen ≡ length seen + 0 = omega arith in
      ap (λ k. get_or (seen ++ (n ∷ ns)) k empty) e ∙ get_or-append seen (n ∷ ns) 0 empty in
    let go : (met : Option (ℕ × ℕ))
        → IsIndex (length seen + 1) met
        → Fits (seen ++ (n ∷ ns)) x (scan ns x (length seen + 1) met) =
      λ met ok.
        let grown =
          scan-Fits (seen ++ (n ∷ [])) ns x met
            (subst (λ k. IsIndex k met) (sym (length-snoc seen n)) ok) in
        subst (λ k. Fits (seen ++ (n ∷ ns)) x (scan ns x k met)) (length-snoc seen n)
          (subst (λ l. Fits l x (scan ns x (length (seen ++ (n ∷ []))) met))
            (append_assoc seen (n ∷ []) ns) grown) in
    elim (Bool-cases (n.node_id == 0)) [
      | inl e ↦ rw e here
      | inr e ↦ elim (Bool-cases (n.node_id == x.pkt.src_id)) [
        | inl f ↦
            rw (e, f) (here, ap (λ (y : Entry). y.node_id) mine ∙ ==→eq n.node_id x.pkt.src_id f)
        | inr f ↦
            rw (e, f) (go (older x n (length seen) old) (older-IsIndex x n (length seen) old h))
      ]
    ]

-- The entry of a sender that was just heard.
pub record IsHeard (x : Heard) (e : Entry) : Type 0 where
  pub sender : e.node_id ≡ x.pkt.src_id
  pub now : e.last_seen_ms ≡ x.now_ms
  pub near : e.hop_count ≤ x.pkt.hop + 1

fill-IsHeard : (x : Heard) (e : Entry) → IsHeard x (fill_slot x e)
fill-IsHeard x e = record { sender = refl; now = refl; near = omega arith }

known-IsHeard : (x : Heard) (e : Entry) → e.node_id ≡ x.pkt.src_id → IsHeard x (update_existing x e)
known-IsHeard x e h = record { sender = h; now = refl; near = ground arith }

settle-IsHeard :
    (tbl : Table) (x : Heard) (p : Place)
    → length tbl.entries ≡ 16
    → Fits tbl.entries x p
    → (i : ℕ) × (i < 16) × IsHeard x (get_or (settle tbl x p).entries i empty)
unfolding settle
settle-IsHeard tbl x (vacant k) len h = (
  k,
  omega arith,
  subst (IsHeard x) (sym (get_or-set_self tbl.entries k _ empty h))
      (fill-IsHeard x (get_or tbl.entries k empty)),
)
settle-IsHeard tbl x (known k) len h = (
  k,
  omega arith,
  subst (IsHeard x) (sym (get_or-set_self tbl.entries k _ empty h.0))
      (known-IsHeard x (get_or tbl.entries k empty) h.1),
)
settle-IsHeard tbl x (oldest k) len h = (
  k,
  omega arith,
  subst (IsHeard x) (sym (get_or-set_self tbl.entries k _ empty h))
      (fill-IsHeard x (get_or tbl.entries k empty)),
)
settle-IsHeard tbl x nowhere len h = absurd (omega arith)

-- After routing_neighbor_update on a table of 16 slots, for a packet whose source is not 0 and that
-- made less than 15 hops, some slot holds the sender, seen at the time of the packet, at no more hops
-- than the packet made and one. This holds for a full table too.
pub update-IsHeard :
    (tbl : Table) (x : Heard)
    → length tbl.entries ≡ 16
    → x.pkt.src_id ≢ 0
    → x.pkt.hop < 15
    → (i : ℕ) × (i < 16) × IsHeard x (get_or (update tbl x).entries i empty)
unfolding update
update-IsHeard tbl x len ne near =
    let sent : (x.pkt.src_id == 0) ≡ false = ground (arith, ne) in
    let close : ltb 15 (u8 (x.pkt.hop + 1)) ≡ false = ground arith in
    rw (sent, close)
      (settle-IsHeard tbl x (scan tbl.entries x 0 none) len (scan-Fits [] tbl.entries x none refl))
