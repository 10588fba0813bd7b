-- ===== src/Slip/RoundTrip.antt =====
-- firmware_core/iface/rivr_iface_usb.c: what the receiving end of the serial bridge makes of a frame.
use rivr.Common.{ℕ, zero, suc, refl, sym, ap, subst, inl, inr, true, false, not, List, []}
use rivr.Common.{arith, pos, ltb, ==→eq, Bool-cases, length, set, take, drop}
use rivr.Common.{length-append, length-set, u8, ◌+◌, ◌≤◌, ◌<◌, ◌≡◌, ◌∙◌, ◌||◌, ◌∷◌, ◌++◌}
use rivr.Common.{◌==◌, if◌then◌else◌}
use mathlib.Core.List.{append-nil, append_assoc}
use rivr.Radio.{zero_data}
use rivr.Slip.{SlipRx, append_byte, escape, usb_frame}
use rivr.Radio.{RxFrame}
use rivr.Ringbuf.{Rb, try_push}
unfoldable use rivr.Slip.{slip_feed, escape_all, usb_drain}

-- The assembler after some bytes.
unfoldable pub feed_all : SlipRx → List ℕ → SlipRx
feed_all s [] = s
feed_all s (b ∷ bs) = feed_all (slip_feed s b).0 bs

-- The assembler is between escapes and holds exactly `done`.
pub record Holds (done : List ℕ) (s : SlipRx) : Type 0 where
  pub size : length s.buf ≡ 255
  pub plain : s.esc ≡ false
  pub counted : s.len ≡ length done
  pub held : take s.len s.buf ≡ done

take-set_snoc :
    (xs : List ℕ) (i b : ℕ) → i < length xs → take (suc i) (set xs i b) ≡ take i xs ++ b ∷ []
take-set_snoc [] i b h = absurd (omega arith)
take-set_snoc (x ∷ xs) zero b h = refl
take-set_snoc (x ∷ xs) (suc i) b h = ap (λ l. x ∷ l) (take-set_snoc xs i b (omega arith))

append_byte-Holds :
    (done : List ℕ) (s : SlipRx) (b : ℕ)
    → Holds done s
    → length done < 255
    → Holds (done ++ b ∷ []) (append_byte s b)
append_byte-Holds done s b h room =
    let size = h.size in
    let counted = h.counted in
    let fits : ltb s.len 255 ≡ true = ground arith in
    let more : u8 (s.len + 1) ≡ suc s.len = omega arith in
    rw fits (record {
      size = length-set s.buf s.len b ∙ size;
      plain = h.plain;
      counted = more ∙ omega (arith, length-append done (b ∷ []));
      held = rw (more, take-set_snoc s.buf s.len b (omega arith)) (ap (λ l. l ++ b ∷ []) h.held);
    })

-- The escaped form of a byte appends that byte, and completes nothing.
escape_step :
    (buf rest : List ℕ) (len : ℕ) (ring : Rb RxFrame) (b now_ms : ℕ)
    → let s : SlipRx = record { buf = buf; len = len; esc = false } in
      usb_drain s ring (escape b ++ rest) now_ms ≡ usb_drain (append_byte s b) ring rest now_ms
unfolding usb_drain slip_feed
escape_step buf rest len ring b now_ms =
    let s : SlipRx = record { buf = buf; len = len; esc = false } in
    let Same : ℕ → Type 0 = λ c.
      usb_drain s ring (escape c ++ rest) now_ms ≡ usb_drain (append_byte s c) ring rest now_ms in
    elim (Bool-cases (b == 0xC0)) [
      | inl e ↦ subst Same (sym (==→eq b 0xC0 e)) refl
      | inr n ↦ elim (Bool-cases (b == 0xDB)) [
        | inl e ↦ subst Same (sym (==→eq b 0xDB e)) refl
        | inr n' ↦ simp (n, n') refl
      ]
    ]

escape-Holds :
    (done rest : List ℕ) (s : SlipRx) (ring : Rb RxFrame) (b now_ms : ℕ)
    → Holds done s
    → usb_drain s ring (escape b ++ rest) now_ms ≡ usb_drain (append_byte s b) ring rest now_ms
escape-Holds done rest s ring b now_ms h =
    let state : record s { esc = false } ≡ s = ap (λ e. record s { esc = e }) (sym h.plain) in
    subst
      (λ t.
        usb_drain t ring (escape b ++ rest) now_ms ≡ usb_drain (append_byte t b) ring rest now_ms)
      state (escape_step s.buf rest s.len ring b now_ms)

-- The escaped form of a list of bytes appends them.
drain_escaped :
    (bytes done rest : List ℕ) (s : SlipRx) (ring : Rb RxFrame) (now_ms : ℕ)
    → Holds done s
    → length done + length bytes ≤ 255
    → (s' : SlipRx) × Holds (done ++ bytes) s'
      × (usb_drain s ring (escape_all bytes ++ rest) now_ms ≡ usb_drain s' ring rest now_ms)
unfolding escape_all
drain_escaped [] done rest s ring now_ms h room =
    (s, subst (λ l. Holds l s) (sym (append-nil done)) h, refl)
drain_escaped (b ∷ bs) done rest s ring now_ms h room =
    let grown = append_byte-Holds done s b h (omega arith) in
    let size : length (done ++ b ∷ []) ≡ length done + 1 = length-append done (b ∷ []) in
    let (s', held, eq) =
      drain_escaped bs (done ++ b ∷ []) rest (append_byte s b) ring now_ms grown (omega arith) in
    (
      s',
      subst (λ l. Holds l s') (append_assoc done (b ∷ []) bs) held,
      ap (λ l. usb_drain s ring l now_ms) (append_assoc (escape b) (escape_all bs) rest)
          ∙ escape-Holds done (escape_all bs ++ rest) s ring b now_ms h
          ∙ eq,
    )

-- The frame that the bytes make.
abbrev pub frame_of : List ℕ → ℕ → RxFrame
frame_of bytes now_ms = record {
  frame = bytes ++ drop (length bytes) zero_data;
  len = length bytes;
  rssi_dbm = pos 0;
  snr_db = pos 0;
  rx_mono_ms = now_ms;
  from_id = 0;
  iface = 2;
}

-- The ring once an END has closed what was assembled before.
abbrev pub flushed : SlipRx → Rb RxFrame → ℕ → Rb RxFrame
flushed s ring now_ms =
    if ltb 0 s.len then (try_push ring (usb_frame s.buf s.len now_ms)).1 else ring

-- An END after the bytes completes their frame.
end-Holds :
    (bytes : List ℕ) (s : SlipRx) (ring : Rb RxFrame) (now_ms : ℕ)
    → Holds bytes s
    → 0 < length bytes
    → length bytes ≤ 255
    → usb_drain s ring (0xC0 ∷ []) now_ms
      ≡ (record s { len = 0; esc = false }, (try_push ring (frame_of bytes now_ms)).1)
unfolding usb_drain slip_feed
end-Holds bytes s ring now_ms h some_bytes fits =
    let counted = h.counted in
    let some_len : ltb 0 s.len ≡ true = ground arith in
    let small : ltb 255 s.len ≡ false = ground arith in rw (some_len, small, h.held, counted) refl

-- An END in front closes what was assembled.
pub end_first :
    (s : SlipRx) (rest : List ℕ) (ring : Rb RxFrame) (now_ms : ℕ)
    → s.len ≤ 255
    → (ltb 0 s.len || not s.esc) ≡ true
    → usb_drain s ring (0xC0 ∷ rest) now_ms
      ≡ usb_drain (record s { len = 0; esc = false }) (flushed s ring now_ms) rest now_ms
unfolding usb_drain slip_feed
end_first s rest ring now_ms bound clear = elim (Bool-cases (ltb 0 s.len)) [
  | inl e ↦ let small : ltb 255 s.len ≡ false = ground arith in rw (e, small) refl
  | inr e ↦
      let none_held : s.len ≡ 0 = ground arith in
      let shut : s.esc ≡ false = ground (arith, clear, e) in
      let state : s ≡ record s { len = 0; esc = false } =
        ap (λ n. record s { len = n }) none_held ∙ ap (λ x. record s { len = 0; esc = x }) shut in
      rw e (ap (λ t. usb_drain t ring rest now_ms) state)
]

-- From an assembler that starts afresh, the loop over the bytes behind the leading END pushes the frame.
pub usb_drain-escape_all :
    (s : SlipRx) (ring0 : Rb RxFrame) (bytes : List ℕ) (now_ms : ℕ)
    → length s.buf ≡ 255
    → 0 < length bytes
    → length bytes ≤ 255
    → (s' : SlipRx) × Holds [] s'
      × (usb_drain (record s { len = 0; esc = false }) ring0 (escape_all bytes ++ 0xC0 ∷ []) now_ms
          ≡ (s', (try_push ring0 (frame_of bytes now_ms)).1))
usb_drain-escape_all s ring0 bytes now_ms size some_bytes fits =
    let idle : SlipRx = record s { len = 0; esc = false } in
    let start : Holds [] idle = record { size = size; plain = refl; counted = refl; held = refl } in
    let (s1, held, eq) = drain_escaped bytes [] (0xC0 ∷ []) idle ring0 now_ms start (omega arith) in
    (
      record s1 { len = 0; esc = false },
      record { size = held.size; plain = refl; counted = refl; held = refl },
      eq ∙ end-Holds bytes s1 ring0 now_ms held some_bytes fits,
    )
