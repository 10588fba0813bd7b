-- ===== src/Slip/Ticks.antt =====
-- firmware_core/iface/rivr_iface_usb.c: a frame that arrives over two receive ticks, as one tick reads at
-- most 256 bytes and an encoded frame has up to 512.
use mathlib.Core.List.{append-nil, append_assoc}
use mathlib.Core.Path.{ap₂}
use rivr.Common.{ℕ, zero, suc, refl, sym, ap, subst, inl, inr, true, false, not, none}
use rivr.Common.{List, [], arith, ltb, leb, Bool-cases, length, take, drop, All}
use rivr.Common.{length-append, length-drop, take-append-drop, ◌+◌, ◌*◌, ◌≤◌, ◌<◌, ◌≡◌}
use rivr.Common.{◌∙◌, ◌||◌, ◌∷◌, ◌++◌, ◌==◌, if◌then◌else◌}
use rivr.Radio.{RxFrame}
use rivr.Ringbuf.{Rb, try_push}
use rivr.Slip.{SlipRx, Uart, escape, deliver}
unfoldable use rivr.Slip.{slip_feed, escape_all, slip_encode, usb_drain, usb_tick}
use rivr.Slip.RoundTrip.{Holds, flushed, frame_of, end_first, usb_drain-escape_all}
unfoldable use rivr.Slip.RoundTrip.{feed_all}

-- What the code relies on of uart_read_bytes: of the bytes that wait in the driver it returns the
-- first, as many as were asked for or all there are, and keeps the others.
pub record IsUart (uart : Uart) : Type 0 where
  pub waiting : uart.State → List ℕ
  pub read : (d : uart.State) (n : ℕ) → (uart.read_bytes d n).1 ≡ take n (waiting d)
  pub kept : (d : uart.State) (n : ℕ) → waiting (uart.read_bytes d n).0 ≡ drop n (waiting d)

slip_feed-none : (s : SlipRx) (b : ℕ) → (b == 0xC0) ≡ false → (slip_feed s b).1 ≡ none
unfolding slip_feed
slip_feed-none s b h = ground (arith, h)

-- Without an END nothing is completed, whenever the bytes come.
drain_silent :
    (xs rest : List ℕ) (s : SlipRx) (ring : Rb RxFrame) (now_ms : ℕ)
    → All (λ b. (b == 0xC0) ≡ false) xs
    → usb_drain s ring (xs ++ rest) now_ms ≡ usb_drain (feed_all s xs) ring rest now_ms
unfolding usb_drain feed_all slip_feed
drain_silent [] rest s ring now_ms h = refl
drain_silent (b ∷ bs) rest s ring now_ms h =
    let none_done = slip_feed-none s b h.0 in
    let s1 = (slip_feed s b).0 in
    ap (λ o. usb_drain s1 (deliver s1 o ring now_ms) (bs ++ rest) now_ms) none_done
    ∙ drain_silent bs rest s1 ring now_ms h.1

escape_all-All : (bytes : List ℕ) → All (λ b. (b == 0xC0) ≡ false) (escape_all bytes)
unfolding escape_all
escape_all-All [] = tt
escape_all-All (b ∷ bs) = elim (Bool-cases (b == 0xC0)) [
  | inl e ↦ rw e (refl, (refl, escape_all-All bs))
  | inr n ↦ elim (Bool-cases (b == 0xDB)) [
    | inl e ↦ rw (n, e) (refl, (refl, escape_all-All bs))
    | inr n' ↦ rw (n, n') (n, escape_all-All bs)
  ]
]

length-escape_all : (bytes : List ℕ) → length (escape_all bytes) ≤ length bytes * 2
unfolding escape_all
length-escape_all [] = omega arith
length-escape_all (b ∷ bs) =
    ground (arith, length-append (escape b) (escape_all bs), length-escape_all bs)

All-take : (P : ℕ → Type 0) (n : ℕ) (xs : List ℕ) → All P xs → All P (take n xs)
All-take P zero xs h = tt
All-take P (suc n) [] h = tt
All-take P (suc n) (x ∷ xs) h = (h.0, All-take P n xs h.1)

take_short : (n : ℕ) (xs : List ℕ) → length xs ≤ n → take n xs ≡ xs
take_short zero [] h = refl
take_short zero (x ∷ xs) h = absurd (omega arith)
take_short (suc n) [] h = refl
take_short (suc n) (x ∷ xs) h = ap (λ l. x ∷ l) (take_short n xs (omega arith))

drop_short : (n : ℕ) (xs : List ℕ) → length xs ≤ n → drop n xs ≡ []
drop_short zero [] h = refl
drop_short zero (x ∷ xs) h = absurd (omega arith)
drop_short (suc n) [] h = refl
drop_short (suc n) (x ∷ xs) h = drop_short n xs (omega arith)

-- A cut within the first of two lists.
take_within : (n : ℕ) (xs ys : List ℕ) → n ≤ length xs → take n (xs ++ ys) ≡ take n xs
take_within zero xs ys h = refl
take_within (suc n) [] ys h = absurd (omega arith)
take_within (suc n) (x ∷ xs) ys h = ap (λ l. x ∷ l) (take_within n xs ys (omega arith))

drop_within : (n : ℕ) (xs ys : List ℕ) → n ≤ length xs → drop n (xs ++ ys) ≡ drop n xs ++ ys
drop_within zero xs ys h = refl
drop_within (suc n) [] ys h = absurd (omega arith)
drop_within (suc n) (x ∷ xs) ys h = drop_within n xs ys (omega arith)

-- The loops of two ticks over their chunks of the bytes that wait.
abbrev two_chunks : SlipRx → Rb RxFrame → List ℕ → ℕ → ℕ → SlipRx × Rb RxFrame
two_chunks s ring wire now_ms later =
    let (s1, ring1) = usb_drain s ring (take 256 wire) now_ms in
    usb_drain s1 ring1 (take 256 (drop 256 wire)) later

module _ (s : SlipRx) (ring : Rb RxFrame) (bytes : List ℕ) (now_ms later : ℕ)
    (size : length s.buf ≡ 255) (bound : s.len ≤ 255) (clear : (ltb 0 s.len || not s.esc) ≡ true)
    (some_bytes : 0 < length bytes) (fits : length bytes ≤ 255) where
  -- The bytes behind the leading END, and the assembler and the ring it leaves.
  abbrev tail_bytes : List ℕ
  tail_bytes = escape_all bytes ++ 0xC0 ∷ []

  abbrev idle : SlipRx
  idle = record s { len = 0; esc = false }

  abbrev pushed : ℕ → Rb RxFrame
  pushed t = (try_push (flushed s ring now_ms) (frame_of bytes t)).1

  -- The encoding fits the first chunk.
  in_one :
      length tail_bytes ≤ 255
      → (s' : SlipRx) × Holds [] s'
        × (two_chunks s ring (0xC0 ∷ tail_bytes) now_ms later ≡ (s', pushed now_ms))
  unfolding usb_drain
  in_one short =
      let (s1, held, eq) =
        usb_drain-escape_all s (flushed s ring now_ms) bytes now_ms size some_bytes fits in
      (
        s1,
        held,
        rw (take_short 255 tail_bytes short, drop_short 255 tail_bytes short)
            (end_first s tail_bytes ring now_ms bound clear ∙ eq),
      )

  -- It ends in the second chunk.
  in_two :
      255 < length tail_bytes
      → (s' : SlipRx) × Holds [] s'
        × (two_chunks s ring (0xC0 ∷ tail_bytes) now_ms later ≡ (s', pushed later))
  unfolding usb_drain
  in_two long =
      let wire = escape_all bytes in
      let front = take 255 wire in
      let back = drop 255 wire in
      let ring0 = flushed s ring now_ms in
      let size_tail : length tail_bytes ≡ length wire + 1 = length-append wire (0xC0 ∷ []) in
      let plain = escape_all-All bytes in
      let silent = All-take (λ b. (b == 0xC0) ≡ false) 255 wire plain in
      let (s1, held, eq) = usb_drain-escape_all s ring0 bytes later size some_bytes fits in
      let first : usb_drain s ring (0xC0 ∷ take 255 tail_bytes) now_ms
          ≡ (feed_all idle front, ring0) =
        ap (λ l. usb_drain s ring (0xC0 ∷ l) now_ms)
          (take_within 255 wire (0xC0 ∷ []) (omega arith) ∙ sym (append-nil front))
        ∙ end_first s (front ++ []) ring now_ms bound clear
        ∙ drain_silent front [] idle ring0 now_ms silent in
      let rest : take 256 (drop 255 tail_bytes) ≡ back ++ 0xC0 ∷ [] =
        ap (λ l. take 256 l) (drop_within 255 wire (0xC0 ∷ []) (omega arith))
        ∙ take_short 256 (back ++ 0xC0 ∷ []) (
            omega (
              arith,
              length-append back (0xC0 ∷ []),
              length-drop 255 wire,
              length-escape_all bytes,
            )) in
      let whole : front ++ (back ++ 0xC0 ∷ []) ≡ tail_bytes =
        sym (append_assoc front back (0xC0 ∷ []))
        ∙ ap (λ l. l ++ 0xC0 ∷ []) (take-append-drop 255 wire) in
      (
        s1,
        held,
        ap (λ (r : SlipRx × Rb RxFrame). usb_drain r.0 r.1 (take 256 (drop 255 tail_bytes)) later)
              first
            ∙ ap (λ l. usb_drain (feed_all idle front) ring0 l later) rest
            ∙ sym (drain_silent front (back ++ 0xC0 ∷ []) idle ring0 later silent)
            ∙ ap (λ l. usb_drain idle ring0 l later) whole
            ∙ eq,
      )

  two_chunks-slip_encode :
      (s' : SlipRx) × Holds [] s'
      × (two_chunks s ring (slip_encode bytes) now_ms later
          ≡ (s', pushed (if leb (length (slip_encode bytes)) 256 then now_ms else later)))
  unfolding slip_encode
  two_chunks-slip_encode = elim (Bool-cases (leb (suc (length tail_bytes)) 256)) [
    | inl e ↦ rw e (in_one (ground arith))
    | inr e ↦ rw e (in_two (ground arith))
  ]

-- For an assembler with a buffer of 255 bytes of which at most 255 are in use, and which does not
-- stand behind an escape with nothing assembled, and a driver that hands out the waiting bytes in
-- order, as many as are asked for or all there are: if the bytes that wait are those that
-- rivr_iface_usb_send writes for a frame of 1 to 255 bytes, then two calls of rivr_iface_usb_tick
-- push exactly that frame into the receive ring, behind the rest of an unfinished frame if one was
-- being assembled. They leave nothing assembled and nothing waiting. The frame carries the time of the
-- first call if its bytes are at most 256, and else that of the second.
pub usb_tick-slip_encode :
    (uart : Uart) (law : IsUart uart) (driver : uart.State) (s : SlipRx) (ring : Rb RxFrame)
    (bytes : List ℕ) (now_ms later : ℕ)
    → length s.buf ≡ 255
    → s.len ≤ 255
    → (ltb 0 s.len || not s.esc) ≡ true
    → 0 < length bytes
    → length bytes ≤ 255
    → law.waiting driver ≡ slip_encode bytes
    → let (s1, ring1, driver1) = usb_tick uart true s ring driver now_ms in
      let (s2, ring2, driver2) = usb_tick uart true s1 ring1 driver1 later in
      let time = if leb (length (slip_encode bytes)) 256 then now_ms else later in
      Holds [] s2
      × (ring2 ≡ (try_push (flushed s ring now_ms) (frame_of bytes time)).1)
      × (law.waiting driver2 ≡ [])
unfolding usb_tick slip_encode
usb_tick-slip_encode uart law driver s ring bytes now_ms later size bound clear some_bytes fits
      wire =
    let whole = slip_encode bytes in
    let got : (uart.read_bytes driver 256).1 ≡ take 256 whole =
      law.read driver 256 ∙ ap (λ l. take 256 l) wire in
    let driver1 = (uart.read_bytes driver 256).0 in
    let left : law.waiting driver1 ≡ drop 256 whole =
      law.kept driver 256 ∙ ap (λ l. drop 256 l) wire in
    let got1 : (uart.read_bytes driver1 256).1 ≡ take 256 (drop 256 whole) =
      law.read driver1 256 ∙ ap (λ l. take 256 l) left in
    let loops : List ℕ → List ℕ → SlipRx × Rb RxFrame =
      λ xs ys. let (s1, ring1) = usb_drain s ring xs now_ms in usb_drain s1 ring1 ys later in
    let (s2, held, eq) =
      two_chunks-slip_encode s ring bytes now_ms later size bound clear some_bytes fits in
    let same = ap₂ loops got got1 ∙ eq in
    let short : length (drop 256 whole) ≤ 256 = omega (
      arith,
      length-drop 256 whole,
      length-append (escape_all bytes) (0xC0 ∷ []),
      length-escape_all bytes,
    ) in
    (
      subst (Holds []) (sym (ap (λ (r : SlipRx × Rb RxFrame). r.0) same)) held,
      ap (λ (r : SlipRx × Rb RxFrame). r.1) same,
      law.kept driver1 256 ∙ ap (λ l. drop 256 l) left ∙ drop_short 256 (drop 256 whole) short,
    )
