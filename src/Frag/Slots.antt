-- ===== src/Frag/Slots.antt =====
-- The slots of the receiver: how they are found, and what a packet leaves in one.
use mathlib.Core.List.{append_assoc}
use rivr.Common.{ℕ, zero, suc, refl, sym, ap, inl, inr, Bool, true, none, some, List, []}
use rivr.Common.{arith, Bool-cases, length, get_or, set, take, drop, length-append}
use rivr.Common.{length-drop, length-take, take-append, take_all, take_add, u8, ◌+◌, ◌-◌}
use rivr.Common.{◌≤◌, ◌<◌, ◌≡◌, ◌∙◌, ◌∷◌, ◌++◌}
use rivr.Radio.{frame_cap}
use rivr.Frag.{
  Slot, Rx, zero_slot, incomplete, complete, is_packet, find_from, copy_at, ingest_at,
  ingest_fragment, ingest, fragment,
}

-- A search finds a slot of the table that satisfies the test, and finds it again when it has been
-- overwritten by another such slot.
find_from-some :
    (test : Slot → Bool) (ss : List Slot) (k i : ℕ) (v : Slot)
    → find_from test ss k ≡ some i
    → test v ≡ true
    → (k ≤ i) × (i < k + length ss) × (find_from test (set ss (i - k) v) k ≡ some i)
unfolding find_from
find_from-some test [] k i v h hv = ground arith
find_from-some test (s ∷ ss) k i v h hv = elim (Bool-cases (test s)) [
  | inl here ↦
      let same : i ≡ k = ground (arith, h, here) in
      let first : i - k ≡ 0 = omega arith in (omega arith, omega arith, rw (first, same, hv) refl)
  | inr further ↦
      let rest = find_from-some test ss (k + 1) i v (ground (arith, h, further)) hv in
      let next : i - k ≡ suc (i - (k + 1)) = omega (arith, rest.0) in
      (omega (arith, rest.0), omega (arith, rest.1), rw (next, further) rest.2)
]

find_from-holds :
    (test : Slot → Bool) (ss : List Slot) (k i : ℕ)
    → find_from test ss k ≡ some i
    → (k ≤ i) × (i < k + length ss) × (test (get_or ss (i - k) zero_slot) ≡ true)
unfolding find_from
find_from-holds test [] k i h = ground arith
find_from-holds test (s ∷ ss) k i h = elim (Bool-cases (test s)) [
  | inl here ↦
      let same : i ≡ k = ground (arith, h, here) in
      let first : i - k ≡ 0 = omega arith in (omega arith, omega arith, rw first here)
  | inr further ↦
      let rest = find_from-holds test ss (k + 1) i (ground (arith, h, further)) in
      let next : i - k ≡ suc (i - (k + 1)) = omega (arith, rest.0) in
      (omega (arith, rest.0), omega (arith, rest.1), rw next rest.2)
]

find_from-none :
    (test : Slot → Bool) (ss : List Slot) (k j : ℕ) (v : Slot)
    → find_from test ss k ≡ none
    → j < length ss
    → test v ≡ true
    → find_from test (set ss j v) k ≡ some (k + j)
unfolding find_from
find_from-none test [] k j v h hj hv = ground arith
find_from-none test (s ∷ ss) k zero v h hj hv = let e : k + 0 ≡ k = omega arith in rw (hv, e) refl
find_from-none test (s ∷ ss) k (suc j) v h hj hv =
    let rest = find_from-none test ss (k + 1) j v (ground (arith, h)) (omega arith) hv in
    ground (arith, h, rest)

-- The same from the first slot on.
pub find_again :
    (test : Slot → Bool) (ss : List Slot) (i : ℕ) (v : Slot)
    → find_from test ss 0 ≡ some i
    → test v ≡ true
    → (i < length ss) × (find_from test (set ss i v) 0 ≡ some i)
find_again test ss i v h hv =
    let k = find_from-some test ss 0 i v h hv in
    let same : i - 0 ≡ i = omega arith in
    (omega (arith, k.1), ap (λ j. find_from test (set ss j v) 0) (sym same) ∙ k.2)

pub find_holds :
    (test : Slot → Bool) (ss : List Slot) (i : ℕ)
    → find_from test ss 0 ≡ some i
    → (i < length ss) × (test (get_or ss i zero_slot) ≡ true)
find_holds test ss i h =
    let k = find_from-holds test ss 0 i h in
    let same : i - 0 ≡ i = omega arith in
    (omega (arith, k.1), ap (λ j. test (get_or ss j zero_slot)) (sym same) ∙ k.2)

pub find_new :
    (test : Slot → Bool) (ss : List Slot) (j : ℕ) (v : Slot)
    → find_from test ss 0 ≡ none
    → j < length ss
    → test v ≡ true
    → find_from test (set ss j v) 0 ≡ some j
find_new test ss j v h hj hv =
    let same : 0 + j ≡ j = omega arith in
    find_from-none test ss 0 j v h hj hv ∙ ap (λ k. some k) same

pub take-copy_at :
    (dst src : List ℕ) (o : ℕ)
    → o ≤ length dst
    → take (o + length src) (copy_at dst o src) ≡ take o dst ++ src
take-copy_at dst src o h =
    let whole = append_assoc (take o dst) src (drop (o + length src) dst) in
    let len : o + length src ≡ length (take o dst ++ src) =
      omega (arith, length-append (take o dst) src, length-take o dst) in
    ap (λ l. take (o + length src) l) (sym whole)
    ∙ ap (λ k. take k ((take o dst ++ src) ++ drop (o + length src) dst)) len
    ∙ take-append (take o dst ++ src) (drop (o + length src) dst)

pub length-copy_at :
    (dst src : List ℕ) (o : ℕ)
    → o + length src ≤ length dst
    → length (copy_at dst o src) ≡ length dst
length-copy_at dst src o h = omega (
  arith,
  length-append (take o dst) (src ++ drop (o + length src) dst),
  length-append src (drop (o + length src) dst),
  length-take o dst,
  length-drop (o + length src) dst,
)

-- A packet of a message is taken for one.
pub ingest-fragment :
    (rx : Rx) (payload : List ℕ) (id o c : ℕ)
    → 0 < c
    → o + c ≤ length payload
    → length payload ≤ frame_cap
    → ingest rx (fragment payload id o c)
      ≡ ingest_fragment rx id o (length payload) (take c (drop o payload))
unfolding ingest is_packet
ingest-fragment rx payload id o c hc ho hn =
    let len : length (take c (drop o payload)) ≡ c =
      omega (arith, length-take c (drop o payload), length-drop o payload) in
    ground (arith, len)

-- The length of the next packet's payload.
pub length-chunk :
    (payload : List ℕ) (o c : ℕ) → o + c ≤ length payload → length (take c (drop o payload)) ≡ c
length-chunk payload o c h = omega (arith, length-take c (drop o payload), length-drop o payload)

-- A slot that holds the first `o` bytes of the payload.
pub record Filled (s : Slot) (payload : List ℕ) (o : ℕ) : Type 0 where
  pub total : s.total_len ≡ length payload
  pub received : s.received_len ≡ o
  pub width : length s.bytes ≡ frame_cap
  pub prefix : take o s.bytes ≡ take o payload

-- The slot after the next packet.
abbrev pub filled : Slot → List ℕ → ℕ → ℕ → Slot
filled s payload o c =
    let chunk = take c (drop o payload) in
    record s { bytes = copy_at s.bytes o chunk; received_len = u8 (o + length chunk) }

pub filled-Filled :
    (s : Slot) (payload : List ℕ) (o c : ℕ)
    → Filled s payload o
    → o + c ≤ length payload
    → length payload ≤ frame_cap
    → Filled (filled s payload o c) payload (o + c)
filled-Filled s payload o c f h hn =
    let len = length-chunk payload o c h in
    record {
      total = f.total;
      received = omega (arith, len);
      width = length-copy_at s.bytes _ o (omega (arith, len, f.width)) ∙ f.width;
      prefix =
          ap (λ k. take (o + k) (copy_at s.bytes o (take c (drop o payload)))) (sym len)
          ∙ take-copy_at s.bytes (take c (drop o payload)) o (omega (arith, f.width))
          ∙ ap (λ l. l ++ take c (drop o payload)) f.prefix
          ∙ sym (take_add o c payload);
    }

-- What a packet does to the table: one in the middle is stored, the last one completes the payload.
pub ingest_at_more :
    (rx : Rx) (i : ℕ) (s : Slot) (payload : List ℕ) (o c : ℕ)
    → Filled s payload o
    → o + c < length payload
    → length payload ≤ frame_cap
    → ingest_at rx i s o (take c (drop o payload))
      ≡ (record rx { slots = set rx.slots i (filled s payload o c) }, incomplete)
unfolding ingest_at
ingest_at_more rx i s payload o c f h hn =
    let f' = filled-Filled s payload o c f (omega arith) hn in
    ground (arith, f.received, f.total, f'.received)

pub ingest_at_last :
    (rx : Rx) (i : ℕ) (s : Slot) (payload : List ℕ) (o c : ℕ)
    → Filled s payload o
    → o + c ≡ length payload
    → length payload ≤ frame_cap
    → (ingest_at rx i s o (take c (drop o payload))).1 ≡ complete payload
unfolding ingest_at
ingest_at_last rx i s payload o c f h hn =
    let f' = filled-Filled s payload o c f (omega arith) hn in
    let whole : take s.total_len (filled s payload o c).bytes ≡ payload =
      ap (λ k. take k (filled s payload o c).bytes) (f.total ∙ sym h)
      ∙ f'.prefix
      ∙ ap (λ k. take k payload) h
      ∙ take_all payload in
    ground (arith, f.received, f.total, f'.received, whole)
