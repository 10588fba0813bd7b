-- ===== src/Protocol/Accept.antt =====
-- Which buffers `protocol_decode` accepts.
use rivr.Common.{ℕ, zero, suc, refl, sym, ap, subst, Option, none, some, List, [], arith}
use rivr.Common.{length, take, drop, All, length-drop, length-take, All-get_or, take_add}
use rivr.Common.{take-drop_two, IsU8, ◌+◌, ◌/◌, ◌%◌, ◌≤◌, ◌<◌, ◌≡◌, ◌∙◌, ◌∷◌, ◌++◌}
use mathlib.Core.Path.{ap₂}
use rivr.Metrics.{Metrics}
use rivr.Protocol.Crc.{crc16, crc16_from}
use rivr.Protocol.{Hdr, IsHdr, magic_word, proto_ver, pkt_metrics, hdr_len}
use rivr.Protocol.{header_bytes, encode, at, read16, validate_wire_frame, unpack_header_from_wire}
use rivr.Protocol.{decode, read32}
use rivr.Protocol.Wire.{encode-eq-frame_of, frame_of}

-- `n` bytes from index `i` on, each by its index.
listing : ℕ → ℕ → List ℕ → List ℕ
listing zero i buf = []
listing (suc n) i buf = at buf i ∷ listing n (i + 1) buf

get_or-suc : (x : ℕ) (xs : List ℕ) (i : ℕ) → at (x ∷ xs) (i + 1) ≡ at xs i
get_or-suc x xs i = let e : i + 1 ≡ suc i = omega arith in ap (λ k. at (x ∷ xs) k) e

listing-cons : (n i x : ℕ) (xs : List ℕ) → listing n (i + 1) (x ∷ xs) ≡ listing n i xs
unfolding listing
listing-cons zero i x xs = refl
listing-cons (suc n) i x xs = ap₂ ◌∷◌ (get_or-suc x xs i) (listing-cons n (i + 1) x xs)

take-listing : (n : ℕ) (buf : List ℕ) → n ≤ length buf → take n buf ≡ listing n 0 buf
unfolding listing
take-listing zero buf h = refl
take-listing (suc n) [] h = absurd (omega arith)
take-listing (suc n) (x ∷ xs) h =
    ap (λ l. x ∷ l) (take-listing n xs (omega arith) ∙ sym (listing-cons n 0 x xs))

at-IsU8 : (buf : List ℕ) (i : ℕ) → All IsU8 buf → IsU8 (at buf i)
at-IsU8 buf i h = All-get_or IsU8 buf i 0 h (omega arith)

module _ (buf : List ℕ) (bytes : All IsU8 buf) where
  unpack-IsHdr : (n : ℕ) → IsHdr (unpack_header_from_wire buf n)
  unfolding unpack_header_from_wire
  unpack-IsHdr n = record {
    pkt_type_fits = at-IsU8 buf 3 bytes;
    flags_fits = at-IsU8 buf 4 bytes;
    ttl_fits = at-IsU8 buf 5 bytes;
    hop_fits = at-IsU8 buf 6 bytes;
    net_id_fits = omega (arith, at-IsU8 buf 7 bytes, at-IsU8 buf 8 bytes);
    src_id_fits = omega (
      arith,
      at-IsU8 buf 9 bytes,
      at-IsU8 buf 10 bytes,
      at-IsU8 buf 11 bytes,
      at-IsU8 buf 12 bytes,
    );
    dst_id_fits = omega (
      arith,
      at-IsU8 buf 13 bytes,
      at-IsU8 buf 14 bytes,
      at-IsU8 buf 15 bytes,
      at-IsU8 buf 16 bytes,
    );
    seq_fits = omega (arith, at-IsU8 buf 17 bytes, at-IsU8 buf 18 bytes);
    pkt_id_fits = omega (arith, at-IsU8 buf 19 bytes, at-IsU8 buf 20 bytes);
    loop_guard_fits = at-IsU8 buf 22 bytes;
  }

  low16 : (i : ℕ) → (read16 buf i % 256 ≡ at buf i) × (read16 buf i / 256 ≡ at buf (i + 1))
  low16 i = omega (arith, at-IsU8 buf i bytes, at-IsU8 buf (i + 1) bytes)

  low32 :
      (i : ℕ)
      → (read32 buf i % 256 ≡ at buf i)
        × (read32 buf i / 256 % 256 ≡ at buf (i + 1))
        × (read32 buf i / 65536 % 256 ≡ at buf (i + 2))
        × (read32 buf i / 16777216 % 256 ≡ at buf (i + 3))
  low32 i = omega (
    arith,
    at-IsU8 buf i bytes,
    at-IsU8 buf (i + 1) bytes,
    at-IsU8 buf (i + 2) bytes,
    at-IsU8 buf (i + 3) bytes,
  )

  header-unpack :
      (n : ℕ)
      → n ≡ at buf 21
      → read16 buf 0 ≡ magic_word
      → at buf 2 ≡ proto_ver
      → header_bytes (unpack_header_from_wire buf n) n ≡ listing 23 0 buf
  unfolding header_bytes unpack_header_from_wire listing
  header-unpack n e em ev = ground (
    arith,
    low16 0,
    low16 7,
    low16 17,
    low16 19,
    low32 9,
    low32 13,
    at-IsU8 buf 18 bytes,
    at-IsU8 buf 20 bytes,
  )

  -- What the checks of `validate_wire_frame` establish, one for each early return.
  validate_checks :
      (m m' : Metrics) (len n : ℕ)
      → validate_wire_frame m buf len ≡ (m', some n)
      → (m' ≡ m)
        × (n ≡ at buf 21)
        × (n ≤ 230)
        × (25 + n ≤ len)
        × (read16 buf 0 ≡ magic_word)
        × (at buf 2 ≡ proto_ver)
        × (0 < at buf 3)
        × (at buf 3 ≤ pkt_metrics)
        × (crc16 buf (23 + n) ≡ read16 buf (23 + n))
  unfolding validate_wire_frame
  validate_checks m m' len n e = ground arith

  payload_of : ℕ → List ℕ
  payload_of n = take n (drop hdr_len buf)

  length-payload : (n : ℕ) → 23 + n ≤ length buf → length (payload_of n) ≡ n
  unfolding payload_of
  length-payload n h = omega (arith, length-take n (drop hdr_len buf), length-drop hdr_len buf)

  -- The first bytes of an accepted buffer are a frame.
  prefix-frame :
      (m m' : Metrics) (len n : ℕ)
      → len ≤ length buf
      → validate_wire_frame m buf len ≡ (m', some n)
      → take (25 + n) buf ≡ frame_of (unpack_header_from_wire buf n) (payload_of n)
  unfolding frame_of crc16 payload_of
  prefix-frame m m' len n hl e =
      let c = validate_checks m m' len n e in
      let pl : length (payload_of n) ≡ n = length-payload n (omega arith) in
      let head : take 23 buf ≡ header_bytes (unpack_header_from_wire buf n) n =
        take-listing 23 buf (omega arith) ∙ sym (header-unpack n c.1 c.4 c.5) in
      let body : take (23 + n) buf
          ≡ header_bytes (unpack_header_from_wire buf n) n ++ payload_of n =
        take_add 23 n buf ∙ ap (λ l. l ++ payload_of n) head in
      let crc : crc16_from 0xffff (take (23 + n) buf) ≡ read16 buf (23 + n) = c.8 in
      let sum : 25 + n ≡ 23 + n + 2 = omega arith in
      let next : suc (23 + n) ≡ 23 + n + 1 = omega arith in
      ap (λ k. take k buf) sum
      ∙ take_add (23 + n) 2 buf
      ∙ rw (pl, ← body, crc, (low16 (23 + n)).0, (low16 (23 + n)).1)
          (ap (λ l. take (23 + n) buf ++ l)
            (take-drop_two (23 + n) buf 0 (omega arith)
              ∙ ap (λ k. at buf (23 + n) ∷ at buf k ∷ []) next))

decode_inversion :
    (m m' : Metrics) (buf : List ℕ) (len : ℕ) (h : Hdr) (p : List ℕ)
    → decode m buf len ≡ (m', some (h, p))
    → (n : ℕ) × (validate_wire_frame m buf len ≡ (m', some n))
      × (unpack_header_from_wire buf n ≡ h)
      × (take n (drop hdr_len buf) ≡ p)
unfolding decode
decode_inversion m m' buf len h p e = go (validate_wire_frame m buf len) refl
  where
    go :
        (r : Metrics × Option ℕ)
        → validate_wire_frame m buf len ≡ r
        → (n : ℕ) × (validate_wire_frame m buf len ≡ (m', some n))
          × (unpack_header_from_wire buf n ≡ h)
          × (take n (drop hdr_len buf) ≡ p)
    go (m1, none) q = absurd (ground arith)
    go (m1, some n) q = (n, ground arith, ground arith, ground arith)

-- A buffer of bytes, at least as long as the length passed, that `protocol_decode` accepts starts
-- with exactly the frame that `protocol_encode` writes for the header and payload it returned. The
-- packet type is defined, the payload and the frame have the lengths allowed, every field fits its
-- type, and nothing is counted.
pub decode-canonical :
    (m m' : Metrics) (buf : List ℕ) (len : ℕ) (h : Hdr) (p : List ℕ)
    → All IsU8 buf
    → len ≤ length buf
    → decode m buf len ≡ (m', some (h, p))
    → (m' ≡ m)
      × IsHdr h
      × (0 < h.pkt_type)
      × (h.pkt_type ≤ pkt_metrics)
      × (length p ≤ 230)
      × (25 + length p ≤ len)
      × (encode h p 255 ≡ some (take (25 + length p) buf))
unfolding payload_of unpack_header_from_wire
decode-canonical m m' buf len h p bytes hl e =
    let (n, valid, head, rest) = decode_inversion m m' buf len h p e in
    let c = validate_checks buf bytes m m' len n valid in
    let hd = unpack-IsHdr buf bytes n in
    let pl : length p ≡ n = ap length (sym rest) ∙ length-payload buf bytes n (omega arith) in
    let kind : at buf 3 ≡ h.pkt_type = ap (λ (x : Hdr). x.pkt_type) head in
    let sum : 25 + length p ≡ 25 + n = omega arith in
    let small : IsU8 (length p) = omega arith in
    let frame : frame_of h p ≡ take (25 + length p) buf = sym (
      ap (λ k. take k buf) sum
      ∙ prefix-frame buf bytes m m' len n hl valid
      ∙ ap₂ frame_of head rest) in
    (
      c.0,
      subst IsHdr head hd,
      omega arith,
      omega arith,
      omega arith,
      omega arith,
      encode-eq-frame_of h p 255 small ∙ ground (arith, frame),
    )
