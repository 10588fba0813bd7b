-- ===== src/Bus/Memory.antt =====
-- firmware_core/rivr_bus: what the cache of duplicates keeps from one frame to the next.
use rivr.Common.{ℕ, zero, suc, bit_and, refl, sym, subst, inl, inr, Bool, true, false}
use rivr.Common.{not, Option, none, some, List, [], arith, leb, Bool-cases, Option-cases}
use rivr.Common.{bit_and_mask, length, get_or, length-set, get_or-set_self, get_or-set_ne}
use rivr.Common.{u32, inc32, ◌+◌, ◌%◌, ◌^◌, ◌≤◌, ◌<◌, ◌≡◌, ◌∙◌, ◌≢◌, ◌&&◌, ◌||◌, ◌∷◌}
use rivr.Common.{◌==◌, if◌then◌else◌}
use rivr.Metrics.{Metrics, zero_metrics}
use rivr.Protocol.{Hdr}
unfoldable use rivr.Protocol.{decode, validate_wire_frame}
use rivr.Bus.{Entry, Cache, Links, Bus, empty, has_key, count_rx_iface, select}
unfoldable use rivr.Bus.{seen_scan, seen, add, send_on, dispatch_from, dispatch, register, receive}

pub record IsValid (c : Cache) : Type 0 where
  pub slots : length c.entries ≡ 64
  pub head_in : c.head < 64

-- The key `e` stands in slot `i`, and the head is `d` slots past the one behind it.
record Holds (i d : ℕ) (e : Entry) (c : Cache) : Type 0 where
  valid : IsValid c
  place : get_or c.entries i empty ≡ e
  slot : i < 64
  ahead : c.head ≡ (i + 1 + d) % 64

mask_64 : (h : ℕ) → bit_and h 63 ≡ h % 64
mask_64 h = (bit_and_mask 6 h).1

pub add-IsValid : (c : Cache) (src pkt : ℕ) → IsValid c → IsValid (add c src pkt)
unfolding add
add-IsValid c src pkt v =
    let slots = v.slots in
    record {
      slots =
          length-set c.entries (bit_and c.head 63) (record { src_id = src; pkt_id = pkt }) ∙ slots;
      head_in = omega (arith, mask_64 (bit_and c.head 63 + 1));
    }

add-Holds :
    (c : Cache) (src pkt : ℕ)
    → IsValid c
    → Holds c.head 0 (record { src_id = src; pkt_id = pkt }) (add c src pkt)
unfolding add
add-Holds c src pkt v =
    let head_in = v.head_in in
    let slots = v.slots in
    let e : Entry = record { src_id = src; pkt_id = pkt } in
    let here : bit_and c.head 63 ≡ c.head = mask_64 c.head ∙ omega arith in
    record {
      valid = add-IsValid c src pkt v;
      place = rw here (get_or-set_self c.entries c.head e empty (omega arith));
      slot = head_in;
      ahead = rw here (mask_64 (c.head + 1) ∙ omega arith);
    }

add-keeps :
    (i d : ℕ) (e : Entry) (c : Cache) (src pkt : ℕ)
    → Holds i d e c
    → d < 63
    → Holds i (suc d) e (add c src pkt)
unfolding add
add-keeps i d e c src pkt h hd =
    let head_in = h.valid.head_in in
    let slot = h.slot in
    let ahead = h.ahead in
    let here : bit_and c.head 63 ≡ c.head = mask_64 c.head ∙ omega arith in
    let away : c.head ≢ i = λ e. omega arith in
    record {
      valid = add-IsValid c src pkt h.valid;
      place = rw here (get_or-set_ne c.entries c.head i _ empty away ∙ h.place);
      slot = slot;
      ahead = rw here (mask_64 (c.head + 1) ∙ omega arith);
    }

seen_at :
    (es : List Entry) (src pkt i : ℕ)
    → i < length es
    → has_key (get_or es i empty) src pkt ≡ true
    → seen_scan es src pkt ≡ true
unfolding seen_scan
seen_at [] src pkt i lt h = absurd (omega arith)
seen_at (x ∷ es) src pkt zero lt h = rw (h, seen_scan) refl
seen_at (x ∷ es) src pkt (suc i) lt h = ground (arith, seen_at es src pkt i (omega arith) h)

Holds-seen :
    (i d src pkt : ℕ) (c : Cache)
    → Holds i d (record { src_id = src; pkt_id = pkt }) c
    → src ≢ 0
    → seen c src pkt ≡ true
unfolding seen
Holds-seen i d src pkt c h ne =
    let place = h.place in
    let slots = h.valid.slots in
    let slot = h.slot in
    let same : has_key (get_or c.entries i empty) src pkt ≡ true = rw place (ground arith) in
    let found = seen_at c.entries src pkt i (omega arith) same in ground (arith, found)

-- Sending leaves the cache alone.
send_on-cache :
    (links : Links) (bus : Bus) (bytes : List ℕ) (bit : ℕ)
    → (send_on links bus bytes bit).0.cache ≡ bus.cache
unfolding send_on
send_on-cache links bus bytes bit = ground arith

dispatch_from-cache :
    (n : ℕ) (links : Links) (bus : Bus) (bytes : List ℕ) (targets source bit : ℕ)
    → (dispatch_from links bus bytes targets source n bit).0.cache ≡ bus.cache
unfolding dispatch_from
dispatch_from-cache zero links bus bytes targets source bit = refl
dispatch_from-cache (suc n) links bus bytes targets source bit =
    elim (Bool-cases (bit_and targets (2 ^ bit) == 0 || 2 ^ bit == u32 (2 ^ source))) [
      | inl e ↦ rw e (dispatch_from-cache n links bus bytes targets source (bit + 1))
      | inr e ↦ rw e (
          dispatch_from-cache n links (send_on links bus bytes bit).0 bytes targets source (bit + 1)
          ∙ send_on-cache links bus bytes bit)
    ]

dispatch-cache :
    (links : Links) (bus : Bus) (bytes : List ℕ) (targets source : ℕ)
    → (dispatch links bus bytes targets source).0.cache ≡ bus.cache
unfolding dispatch
dispatch-cache links bus bytes targets source =
    ground (arith, dispatch_from-cache 5 links bus bytes targets source 0)

-- Decoding does not look at the counters.
decode-metrics :
    (m n : Metrics) (bytes : List ℕ) (len : ℕ) → (decode m bytes len).1 ≡ (decode n bytes len).1
unfolding decode validate_wire_frame
decode-metrics m n bytes len = ground arith

-- The header that decoding finds.
abbrev pub header_of : List ℕ → Option (Hdr × List ℕ)
header_of bytes = (decode zero_metrics bytes (length bytes)).1

-- Whether the cache does not know the packet of a header, and the cache that knows it.
abbrev pub is_new : Cache → Option (Hdr × List ℕ) → Bool
is_new c none = false
is_new c (some found) = not (seen c found.0.src_id found.0.pkt_id)

abbrev pub learnt : Cache → Option (Hdr × List ℕ) → Cache
learnt c none = c
learnt c (some found) = add c found.0.src_id found.0.pkt_id

-- Whether the bus takes a frame.
abbrev pub takes : Cache → List ℕ → Bool
takes c bytes = leb 25 (length bytes) && leb (length bytes) 255 && is_new c (header_of bytes)

register-cache :
    (links : Links) (bus : Bus) (bytes rest : List ℕ) (iface : ℕ) (hdr : Hdr)
    → ((register links bus bytes iface hdr).1 ≡ is_new bus.cache (some (hdr, rest)))
      × ((register links bus bytes iface hdr).0.cache ≡ (
          if is_new bus.cache (some (hdr, rest))
          then learnt bus.cache (some (hdr, rest))
          else bus.cache))
unfolding register
register-cache links bus bytes rest iface hdr =
    let counted = count_rx_iface bus.metrics iface in
    let bus1 : Bus = record bus {
      cache = add bus.cache hdr.src_id hdr.pkt_id;
      metrics = record counted { bus_rx_total = inc32 counted.bus_rx_total };
    } in
    ground (arith, dispatch-cache links bus1 bytes (select hdr.pkt_type iface) iface)

-- rivr_bus_receive returns true exactly if the frame has 25 to 255 bytes, decodes, and has a source
-- and packet id that the cache of duplicates does not hold; then it stores them, and otherwise
-- leaves the cache alone.
pub receive-takes :
    (links : Links) (bus : Bus) (bytes : List ℕ) (iface : ℕ)
    → let (bus', ok) = receive links bus bytes iface in
      (ok ≡ takes bus.cache bytes)
      × (bus'.cache ≡ (if ok then learnt bus.cache (header_of bytes) else bus.cache))
unfolding receive
receive-takes links bus bytes iface =
    let m = bus.metrics in
    let m' = (decode m bytes (length bytes)).0 in
    let same : (decode m bytes (length bytes)).1 ≡ header_of bytes =
      decode-metrics m zero_metrics bytes (length bytes) in
    elim (Option-cases (header_of bytes)) [
      | inl gone ↦ let bad = same ∙ gone in rw (gone, bad) (ground arith)
      | inr (found, there) ↦
          let good = same ∙ there in
          let spec =
            register-cache links (record bus { metrics = m' }) bytes found.1 iface found.0 in
          rw (there, good) (ground (arith, spec))
    ]

-- Frames that arrive one after the other, each with its transport.
unfoldable pub run : Links → Bus → List (List ℕ × ℕ) → Bus
run links bus [] = bus
run links bus (x ∷ xs) = run links (receive links bus x.0 x.1).0 xs

learnt-Holds :
    (i d : ℕ) (e : Entry) (c : Cache) (found : Option (Hdr × List ℕ))
    → Holds i d e c
    → d < 63
    → (k : ℕ) × (k ≤ suc d) × Holds i k e (learnt c found)
learnt-Holds i d e c none h hd = (d, omega arith, h)
learnt-Holds i d e c (some found) h hd =
    (suc d, omega arith, add-keeps i d e c found.0.src_id found.0.pkt_id h hd)

receive-Holds :
    (i d : ℕ) (e : Entry) (links : Links) (bus : Bus) (bytes : List ℕ) (iface : ℕ)
    → Holds i d e bus.cache
    → d < 63
    → (k : ℕ) × (k ≤ suc d) × Holds i k e (receive links bus bytes iface).0.cache
receive-Holds i d e links bus bytes iface h hd =
    let after = (receive-takes links bus bytes iface).1 in
    elim (Bool-cases (receive links bus bytes iface).1) [
      | inl ok ↦
          let (k, le, held) = learnt-Holds i d e bus.cache (header_of bytes) h hd in
          (k, le, subst (λ c. Holds i k e c) (sym (rw ok at after)) held)
      | inr no_more ↦ (d, omega arith, subst (λ c. Holds i d e c) (sym (rw no_more at after)) h)
    ]

run-Holds :
    (i d : ℕ) (e : Entry) (links : Links) (bus : Bus) (xs : List (List ℕ × ℕ))
    → Holds i d e bus.cache
    → d + length xs ≤ 63
    → (k : ℕ) × Holds i k e (run links bus xs).cache
unfolding run
run-Holds i d e links bus [] h hd = (d, h)
run-Holds i d e links bus (x ∷ xs) h hd =
    let (k, le, held) = receive-Holds i d e links bus x.0 x.1 h (omega arith) in
    run-Holds i k e links (receive links bus x.0 x.1).0 xs held (omega arith)

-- With a well-formed cache of duplicates: once rivr_bus_receive has taken a frame that decodes to a
-- header with a source other than 0, it refuses every frame that decodes to the same source and
-- packet id, whichever transport either came over, as long as at most 63 other frames have arrived
-- in between.
pub receive-once :
    (links : Links) (bus : Bus) (bytes again rest rest' : List ℕ) (iface iface' : ℕ) (h h' : Hdr)
    (between : List (List ℕ × ℕ))
    → IsValid bus.cache
    → header_of bytes ≡ some (h, rest)
    → header_of again ≡ some (h', rest')
    → h'.src_id ≡ h.src_id
    → h'.pkt_id ≡ h.pkt_id
    → h.src_id ≢ 0
    → (receive links bus bytes iface).1 ≡ true
    → length between ≤ 63
    → (receive links (run links (receive links bus bytes iface).0 between) again iface').1 ≡ false
receive-once links bus bytes again rest rest' iface iface' h h' between v dec dec' src pkt ne ok
      few =
    let bus1 = (receive links bus bytes iface).0 in
    let bus2 = run links bus1 between in
    let after = (receive-takes links bus bytes iface).1 in
    let stored : bus1.cache ≡ add bus.cache h.src_id h.pkt_id = rw (ok, dec) at after in
    let e : Entry = record { src_id = h.src_id; pkt_id = h.pkt_id } in
    let held =
      subst (λ c. Holds bus.cache.head 0 e c) (sym stored)
        (add-Holds bus.cache h.src_id h.pkt_id v) in
    let (k, held') = run-Holds bus.cache.head 0 e links bus1 between held (omega arith) in
    let known = Holds-seen bus.cache.head k h.src_id h.pkt_id bus2.cache held' ne in
    let known' : seen bus2.cache h'.src_id h'.pkt_id ≡ true = rw (src, pkt) known in
    let verdict = (receive-takes links bus2 again iface').0 in ground (arith, verdict, dec', known')
