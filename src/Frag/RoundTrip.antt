-- ===== src/Frag/RoundTrip.antt =====
-- A payload that the sender cuts into packets is put together by the receiver.
use rivr.Common.{ℕ, zero, suc, refl, ap, inl, inr, Bool, true, false, not, none, some}
use rivr.Common.{List, arith, ltb, leb, ltb→lt, eq→==, Bool-cases, Option-cases, length}
use rivr.Common.{get_or, set, take, drop, All, All-get_or, get_or-set_self, ◌+◌, ◌-◌, ◌≤◌}
use rivr.Common.{◌<◌, ◌≡◌, ◌∙◌, ◌&&◌, ◌==◌}
use rivr.Radio.{frame_cap}
use rivr.Frag.{
  Slot, Rx, Result, incomplete, complete, rx_slots, zero_slot, start_slot, find_from, find_slot,
  alloc_slot, ingest_at, ingest_fragment, ingest, fragment, hdr_len, next_id, send_from, send,
}
use rivr.Frag.Slots.{
  find_again, find_holds, find_new, Filled, filled, filled-Filled, ingest-fragment, ingest_at_more,
  ingest_at_last,
}

-- The receiver as the sender's link: each packet is delivered, and the last result is kept.
abbrev pub deliver : Rx × Result → List ℕ → (Rx × Result) × Bool
deliver s packet = (ingest s.0 packet, true)

-- The table has its four slots, each with an array of 255 bytes.
pub record IsValid (rx : Rx) : Type 0 where
  pub size : length rx.slots ≡ rx_slots
  pub widths : All (λ (s : Slot). length s.bytes ≡ frame_cap) rx.slots

-- The test that `rivr_ble_frag_find_slot` makes.
abbrev of_message : ℕ → Slot → Bool
of_message id s = s.active && (s.msg_id == id)

-- The table holds the first `o` bytes of the message.
record Holds (rx : Rx) (payload : List ℕ) (id o : ℕ) : Type 0 where
  slot : ℕ
  place : find_slot rx id ≡ some slot
  content : Filled (get_or rx.slots slot zero_slot) payload o

-- The packet at `o` goes to a slot that has the bytes before it.
record Ready (rx : Rx) (payload : List ℕ) (id o c : ℕ) : Type 0 where
  table : Rx
  slot : ℕ
  was : Slot
  step : ingest rx (fragment payload id o c) ≡ ingest_at table slot was o (take c (drop o payload))
  content : Filled was payload o
  inside : slot < length table.slots
  found : find_from (of_message id) (set table.slots slot (filled was payload o c)) 0 ≡ some slot

module _ (payload : List ℕ) (id : ℕ) (hn : length payload ≤ frame_cap) where
  Ready-more :
      (rx : Rx) (o c : ℕ)
      → Ready rx payload id o c
      → o + c < length payload
      → Holds (ingest rx (fragment payload id o c)).0 payload id (o + c)
  unfolding find_slot
  Ready-more rx o c k h =
      let s' = filled k.was payload o c in
      let after : ingest rx (fragment payload id o c)
          ≡ (record k.table { slots = set k.table.slots k.slot s' }, incomplete) =
        k.step ∙ ingest_at_more k.table k.slot k.was payload o c k.content h hn in
      rw after (record {
        slot = k.slot;
        place = k.found;
        content =
            rw (get_or-set_self k.table.slots k.slot s' zero_slot k.inside)
              (filled-Filled k.was payload o c k.content (omega arith) hn);
      })

  Ready-last :
      (rx : Rx) (o c : ℕ)
      → Ready rx payload id o c
      → o + c ≡ length payload
      → (ingest rx (fragment payload id o c)).1 ≡ complete payload
  Ready-last rx o c k h =
      ap (λ (r : Rx × Result). r.1) k.step
      ∙ ingest_at_last k.table k.slot k.was payload o c k.content h hn

  next-Ready :
      (rx : Rx) (o c : ℕ)
      → Holds rx payload id o
      → 0 < o
      → 0 < c
      → o + c ≤ length payload
      → Ready rx payload id o c
  unfolding find_slot ingest_fragment
  next-Ready rx o c h ho hc hl =
      let s = get_or rx.slots h.slot zero_slot in
      let seen = find_holds (of_message id) rx.slots h.slot h.place in
      let k = find_again (of_message id) rx.slots h.slot (filled s payload o c) h.place seen.1 in
      record {
        table = rx;
        slot = h.slot;
        was = s;
        step = ingest-fragment rx payload id o c hc hl hn ∙ continues;
        content = h.content;
        inside = k.0;
        found = k.1;
      }
    where
      continues :
          ingest_fragment rx id o (length payload) (take c (drop o payload))
          ≡ ingest_at rx h.slot (get_or rx.slots h.slot zero_slot) o (take c (drop o payload))
      continues = rw (h.place, ingest_fragment) (ground (arith, h.content.total))

  started :
      (rx : Rx) (i : ℕ)
      → IsValid rx
      → Filled (start_slot (get_or rx.slots i zero_slot) id (length payload)) payload 0
  started rx i v = record {
    total = refl;
    received = refl;
    width =
        All-get_or (λ (s : Slot). length s.bytes ≡ frame_cap) rx.slots i zero_slot v.widths refl;
    prefix = refl;
  }

  open-Ready :
      (rx table : Rx) (i c : ℕ)
      → IsValid table
      → find_from (of_message id) table.slots 0 ≡ none
      → i < rx_slots
      → ingest rx (fragment payload id 0 c)
        ≡ ingest_at table i
            (start_slot (get_or table.slots i zero_slot) id (length payload))
            0
            (take c (drop 0 payload))
      → Ready rx payload id 0 c
  open-Ready rx table i c v unknown hi e =
      let s = start_slot (get_or table.slots i zero_slot) id (length payload) in
      let inside : i < length table.slots = omega (arith, v.size) in
      record {
        table = table;
        slot = i;
        was = s;
        step = e;
        content = started table i v;
        inside = inside;
        found =
            find_new (of_message id) table.slots i (filled s payload 0 c) unknown inside
              (eq→== id id refl);
      }

  alloc_slot_lem :
      (rx : Rx) → IsValid rx → ((alloc_slot rx).0 < rx_slots) × ((alloc_slot rx).1.slots ≡ rx.slots)
  unfolding alloc_slot
  alloc_slot_lem rx v = elim (Option-cases (find_from (λ (s : Slot). not s.active) rx.slots 0)) [
    | inl full ↦ rw (full, alloc_slot) (ground arith, refl)
    | inr (i, free) ↦
        rw (free, alloc_slot)
          (omega (arith, v.size, find_holds (λ (s : Slot). not s.active) rx.slots i free), refl)
  ]

  first-Ready :
      (rx : Rx) (c : ℕ) → IsValid rx → 0 < c → c ≤ length payload → Ready rx payload id 0 c
  unfolding find_slot ingest_fragment
  first-Ready rx c v hc hl =
      let sized : 0 + c ≤ length payload = omega arith in
      let packet = ingest-fragment rx payload id 0 c hc sized hn in
      elim (Option-cases (find_slot rx id)) [
        | inl unknown ↦
            let a = alloc_slot_lem rx v in
            let valid : IsValid (alloc_slot rx).1 = record {
              size = ap (λ (l : List Slot). length l) a.1 ∙ v.size;
              widths = rw a.1 v.widths;
            } in
            open-Ready rx (alloc_slot rx).1 (alloc_slot rx).0 c valid (rw a.1 unknown) a.0
              (packet ∙ rw (unknown, ingest_fragment) refl)
        | inr (i, known) ↦
            let s = start_slot (get_or rx.slots i zero_slot) id (length payload) in
            let k =
              find_again (of_message id) rx.slots i (filled s payload 0 c) known
                (eq→== id id refl) in
            record {
              table = rx;
              slot = i;
              was = s;
              step = packet ∙ rw (known, ingest_fragment) refl;
              content = started rx i v;
              inside = k.0;
              found = k.1;
            }
      ]

  -- Past the end of the payload the loop stops.
  send_done :
      (fuel : ℕ) (s : Rx × Result) (o frag : ℕ)
      → length payload ≤ o
      → send_from deliver fuel s payload id o frag ≡ (s, true)
  unfolding send_from
  send_done zero s o frag h = refl
  send_done (suc fuel) s o frag h = ground arith

  deliver_rest :
      (fuel : ℕ) (s : Rx × Result) (o frag : ℕ)
      → ((c : ℕ) → 0 < c → o + c ≤ length payload → Ready s.0 payload id o c)
      → o < length payload
      → length payload ≤ o + fuel
      → 0 < frag
      → (rx : Rx) × (send_from deliver fuel s payload id o frag ≡ ((rx, complete payload), true))
  unfolding send_from
  deliver_rest zero s o frag ready ho hf hp = absurd (omega arith)
  deliver_rest (suc fuel) s o frag ready ho hf hp =
      let left = length payload - o in
      let past : leb (length payload) o ≡ false = ground arith in
      elim (Bool-cases (ltb frag left)) [
        | inl more ↦
            let fits : o + frag < length payload = omega (arith, ltb→lt frag left more) in
            let s' = ingest s.0 (fragment payload id o frag) in
            let held = Ready-more s.0 o frag (ready frag hp (omega arith)) fits in
            let (rx, done) =
              deliver_rest fuel s' (o + frag) frag
                (λ c hc hl. next-Ready s'.0 (o + frag) c held (omega arith) hc hl) fits
                (omega arith) hp in
            (rx, rw (past, more) done)
        | inr last ↦
            let end : o + left ≡ length payload = omega arith in
            let s' = ingest s.0 (fragment payload id o left) in
            let done = Ready-last s.0 o left (ready left (omega arith) (omega arith)) end in
            let stop = send_done fuel s' (o + frag) frag (ground (arith, last)) in
            (s'.0, rw (past, last) (stop ∙ ap (λ (r : Result). ((s'.0, r), true)) done))
      ]

-- A payload of at most 255 bytes that is longer than the link's limit, which is more than the 6
-- bytes of a packet's header, arrives whole: when the packets of `rivr_ble_frag_send` are handed to
-- `rivr_ble_frag_ingest` one after the other, the last one completes the payload and the send
-- succeeds. The receiver may hold anything before, also a part of a message with the same id.
pub send-ingest :
    (rx : Rx) (before : Result) (payload : List ℕ) (limit next_msg_id : ℕ)
    → IsValid rx
    → length payload ≤ frame_cap
    → hdr_len < limit
    → limit < length payload
    → (rx' : Rx) × (send deliver (rx, before) payload limit next_msg_id
        ≡ ((rx', complete payload), next_id next_msg_id, true))
unfolding send
send-ingest rx before payload limit next_msg_id v hn hl hp =
    let id = next_id next_msg_id in
    let (rx', done) =
      deliver_rest payload id hn (length payload) (rx, before) 0 (limit - hdr_len)
        (λ c hc hl. first-Ready payload id hn rx c v hc (omega arith)) (omega arith) (omega arith)
        (omega arith) in
    (rx', ground (arith, done))
