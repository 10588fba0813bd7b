-- ===== src/Routing/Dedupe/Memory.antt =====
-- What the cache remembers.
use rivr.Common.{ℕ, zero, suc, bit_and, refl, inl, inr, Bool, true, false, not, List, []}
use rivr.Common.{arith, ltb, Bool-cases, bit_and_mask, length, get_or, All, length-set}
use rivr.Common.{get_or-set_self, get_or-set_ne, sub32, ◌+◌, ◌%◌, ◌≤◌, ◌<◌, ◌≡◌, ◌∙◌, ◌≢◌}
use rivr.Common.{◌⊎◌, ◌&&◌, ◌||◌, ◌∷◌, ◌==◌}
use rivr.Routing.Dedupe.{Entry, Cache, empty, cache_size, expiry_ms, scan, insert, check}

-- An entry that suppresses a packet with this key at this time.
abbrev pub matches : ℕ → ℕ → ℕ → Entry → Bool
matches src pkt now e =
    not (e.src_id == 0)
    && not (ltb expiry_ms (sub32 now e.seen_at_ms))
    && (e.src_id == src && e.pkt_id == pkt)

abbrev pub remembered : List Entry → ℕ → ℕ → ℕ → Bool
remembered [] src pkt now = false
remembered (e ∷ es) src pkt now = matches src pkt now e || remembered es src pkt now

scan-remembered :
    (es : List Entry) (src pkt now : ℕ)
    → ((scan es src pkt now).1 ≡ remembered es src pkt now)
      × (length (scan es src pkt now).0 ≡ length es)
unfolding scan
scan-remembered [] src pkt now = (refl, refl)
scan-remembered (e ∷ es) src pkt now = ground (arith, scan-remembered es src pkt now)

pub record IsValid (c : Cache) : Type 0 where
  pub slots : length c.entries ≡ cache_size
  pub head_in : c.head < cache_size

next_head : (h : ℕ) → bit_and (h + 1) 63 ≡ (h + 1) % 64
next_head h = (bit_and_mask 6 (h + 1)).1

-- With a well-formed cache, `routing_dedupe_check` suppresses a packet exactly if the cache holds
-- its key, stored under a source other than 0 at most 60 s before, and keeps the cache well
-- formed.
pub check-remembered :
    (c : Cache) (src pkt now : ℕ)
    → IsValid c
    → ((check c src pkt now).1 ≡ not (remembered c.entries src pkt now))
      × IsValid (check c src pkt now).0
unfolding check insert
check-remembered c src pkt now v =
    let (found, len) = scan-remembered c.entries src pkt now in
    ground (
      arith,
      found,
      len,
      next_head c.head,
      length-set (scan c.entries src pkt now).0 c.head
          (record { src_id = src; pkt_id = pkt; seen_at_ms = now }),
    )

-- A slot that holds a live entry keeps it through a scan.
scan_keeps :
    (es : List Entry) (src pkt now i : ℕ) (e : Entry)
    → get_or es i empty ≡ e
    → e.src_id ≢ 0
    → sub32 now e.seen_at_ms ≤ expiry_ms
    → get_or (scan es src pkt now).0 i empty ≡ e
unfolding scan
scan_keeps [] src pkt now i e h ne live = h
scan_keeps (x ∷ es) src pkt now zero e h ne live = ground arith
scan_keeps (x ∷ es) src pkt now (suc i) e h ne live =
    ground (arith, scan_keeps es src pkt now i e h ne live)

remembered_at :
    (es : List Entry) (src pkt now i : ℕ)
    → matches src pkt now (get_or es i empty) ≡ true
    → remembered es src pkt now ≡ true
remembered_at [] src pkt now i h = h
remembered_at (x ∷ es) src pkt now zero h = rw h
remembered_at (x ∷ es) src pkt now (suc i) h = ground (arith, remembered_at es src pkt now i h)

-- Packets that arrive one after the other.
pub record Arrival : Type 0 where
  pub src : ℕ
  pub pkt : ℕ
  pub now : ℕ

pub run : Cache → List Arrival → Cache
run c [] = c
run c (a ∷ later) = run (check c a.src a.pkt a.now).0 later

-- The entry `e` stands in slot `i`, and the head is `d` slots past the one behind it.
record Holds (i d : ℕ) (e : Entry) (c : Cache) : Type 0 where
  valid : IsValid c
  place : get_or c.entries i empty ≡ e
  slot : i < cache_size
  ahead : c.head ≡ (i + 1 + d) % 64

-- A check moves the head by one slot at most, and does not touch the entry.
check-Holds :
    (i d : ℕ) (e : Entry) (c : Cache) (src pkt now : ℕ)
    → Holds i d e c
    → e.src_id ≢ 0
    → sub32 now e.seen_at_ms ≤ expiry_ms
    → d < 63
    → Holds i d e (check c src pkt now).0 ⊎ Holds i (suc d) e (check c src pkt now).0
unfolding check insert
check-Holds i d e c src pkt now h ne live hd = elim (Bool-cases (scan c.entries src pkt now).1) [
  | inl dup ↦ inl (record {
    valid = valid;
    place = rw (dup, check) kept;
    slot = h.slot;
    ahead = rw (dup, check) h.ahead;
  })
  | inr new ↦
      let away : c.head ≢ i = omega (arith, h.ahead, h.slot) in
      inr (record {
        valid = valid;
        place =
            rw (new, check)
              (get_or-set_ne (scan c.entries src pkt now).0 c.head i _ empty away ∙ kept);
        slot = h.slot;
        ahead = rw (new, check) (next_head c.head ∙ omega (arith, h.ahead, h.slot));
      })
]
  where
    valid : IsValid (check c src pkt now).0
    valid = (check-remembered c src pkt now h.valid).1

    kept : get_or (scan c.entries src pkt now).0 i empty ≡ e
    kept = scan_keeps c.entries src pkt now i e h.place ne live

run-Holds :
    (i d : ℕ) (e : Entry) (c : Cache) (later : List Arrival)
    → Holds i d e c
    → e.src_id ≢ 0
    → All (λ (a : Arrival). sub32 a.now e.seen_at_ms ≤ expiry_ms) later
    → d + length later ≤ 63
    → (k : ℕ) × Holds i k e (run c later)
unfolding run
run-Holds i d e c [] h ne live hd = (d, h)
run-Holds i d e c (a ∷ later) h ne (now, live) hd =
    elim (check-Holds i d e c a.src a.pkt a.now h ne now (omega arith)) [
      | inl h' ↦ run-Holds i d e (check c a.src a.pkt a.now).0 later h' ne live (omega arith)
      | inr h' ↦ run-Holds i (suc d) e (check c a.src a.pkt a.now).0 later h' ne live (omega arith)
    ]

-- A packet that `routing_dedupe_check` accepted with a well-formed cache is suppressed when it
-- comes again within 60 s and with at most 63 packets in between, whatever those are, which also
-- come within the 60 s. Its source is not 0.
pub accepted_once :
    (c : Cache) (src pkt t now : ℕ) (later : List Arrival)
    → IsValid c
    → src ≢ 0
    → (check c src pkt t).1 ≡ true
    → length later ≤ 63
    → All (λ (a : Arrival). sub32 a.now t ≤ expiry_ms) later
    → sub32 now t ≤ expiry_ms
    → (check (run (check c src pkt t).0 later) src pkt now).1 ≡ false
accepted_once c src pkt t now later v ne accepted few live last =
    let e : Entry = record { src_id = src; pkt_id = pkt; seen_at_ms = t } in
    let (k, h) = run-Holds c.head 0 e (check c src pkt t).0 later start ne live (omega arith) in
    let hit : matches src pkt now e ≡ true = ground arith in
    let found =
      remembered_at (run (check c src pkt t).0 later).entries src pkt now c.head (rw h.place hit) in
    ground (arith, found, check-remembered (run (check c src pkt t).0 later) src pkt now h.valid)
  where
    new : (scan c.entries src pkt t).1 ≡ false
    new = unfold check in ground arith

    start :
        Holds c.head 0 (record { src_id = src; pkt_id = pkt; seen_at_ms = t }) (check c src pkt t).0
    start =
        unfold check insert in
        record {
          valid = (check-remembered c src pkt t v).1;
          place = rw new (
              get_or-set_self (scan c.entries src pkt t).0 c.head _ empty
                (omega (arith, (scan-remembered c.entries src pkt t).1, v.slots, v.head_in)));
          slot = v.head_in;
          ahead = rw new (next_head c.head ∙ omega arith);
        }
