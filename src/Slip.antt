-- ===== src/Slip.antt =====
-- firmware_core/iface/rivr_iface_usb.c: the SLIP framing (RFC 1055) of the USB serial bridge and its
-- receive tick. The driver calls are arguments: uart_write_bytes as the count it returns, and
-- uart_read_bytes as the operation of an interface. Setting up the driver is left out.
pub mod RoundTrip
pub mod Ticks
use rivr.Common.{ℕ, Bool, true, false, not, Option, none, some, List, [], pos, ltb}
use rivr.Common.{length, set, u8, ◌+◌, ◌||◌, ◌∷◌, ◌++◌, ◌==◌, if◌then◌else◌}
use rivr.Radio.{RxFrame, frame_cap, zero_data, copy}
use rivr.Ringbuf.{Rb, try_push}

-- SLIP_END, SLIP_ESC, SLIP_ESC_END, SLIP_ESC_ESC
abbrev pub slip_end : ℕ
slip_end = 0xC0

abbrev pub slip_esc : ℕ
slip_esc = 0xDB

abbrev pub slip_esc_end : ℕ
slip_esc_end = 0xDC

abbrev pub slip_esc_esc : ℕ
slip_esc_esc = 0xDD

-- USB_DRAIN_CHUNK
abbrev pub drain_chunk : ℕ
drain_chunk = 256

-- `slip_rx_t`
pub record SlipRx : Type 0 where
  pub buf : List ℕ
  pub len : ℕ
  pub esc : Bool

-- The end of `slip_feed`: a byte appended, or the frame discarded if it is too large.
abbrev pub append_byte : SlipRx → ℕ → SlipRx
append_byte s b =
    if ltb s.len frame_cap
    then record s { buf = set s.buf s.len b; len = u8 (s.len + 1) }
    else record s { len = 0; esc = false }

-- `slip_feed`; the option is what goes through `out_len` with the result true.
unfoldable pub slip_feed : SlipRx → ℕ → SlipRx × Option ℕ
slip_feed s b =
    let plain : SlipRx = record s { esc = false } in
    if b == slip_end
    then if ltb 0 s.len then (record s { len = 0; esc = false }, some s.len) else (s, none)
    else if s.esc
    then if b == slip_esc_end
      then (append_byte plain slip_end, none)
      else if b == slip_esc_esc
      then (append_byte plain slip_esc, none)
      else (record plain { len = 0 }, none)
    else if b == slip_esc
    then (record s { esc = true }, none)
    else (append_byte s b, none)

-- One byte as `rivr_iface_usb_send` writes it.
abbrev pub escape : ℕ → List ℕ
escape b =
    if b == slip_end
    then slip_esc ∷ slip_esc_end ∷ []
    else if b == slip_esc
    then slip_esc ∷ slip_esc_esc ∷ []
    else b ∷ []

-- The loop of `rivr_iface_usb_send`.
unfoldable pub escape_all : List ℕ → List ℕ
escape_all [] = []
escape_all (b ∷ bs) = escape b ++ escape_all bs

-- `slip_buf` as `rivr_iface_usb_send` fills it.
unfoldable pub slip_encode : List ℕ → List ℕ
slip_encode bytes = slip_end ∷ (escape_all bytes ++ slip_end ∷ [])

-- `rivr_iface_usb_send`
unfoldable pub usb_send : Bool → (List ℕ → ℕ) → List ℕ → Bool
usb_send ready uart_write bytes =
    let out = slip_encode bytes in
    if not ready || (length bytes == 0 || ltb frame_cap (length bytes))
    then false
    else uart_write out == length out

-- The frame that a tick makes of the first `len` bytes of the assembly buffer.
abbrev pub usb_frame : List ℕ → ℕ → ℕ → RxFrame
usb_frame buf len now_ms = record {
  frame = copy zero_data buf len;
  len = len;
  rssi_dbm = pos 0;
  snr_db = pos 0;
  rx_mono_ms = now_ms;
  from_id = 0;
  iface = 2;
}

-- A frame that `slip_feed` has completed goes into the receive ring; one that does not fit is lost.
abbrev pub deliver : SlipRx → Option ℕ → Rb RxFrame → ℕ → Rb RxFrame
deliver s none ring now_ms = ring
deliver s (some len) ring now_ms =
    if ltb frame_cap len then ring else (try_push ring (usb_frame s.buf len now_ms)).1

-- The loop of `rivr_iface_usb_tick` over the bytes that were read.
unfoldable pub usb_drain : SlipRx → Rb RxFrame → List ℕ → ℕ → SlipRx × Rb RxFrame
usb_drain s ring [] now_ms = (s, ring)
usb_drain s ring (b ∷ bs) now_ms =
    let (s', done) = slip_feed s b in usb_drain s' (deliver s' done ring now_ms) bs now_ms

-- The receiving side of the UART driver: `uart_read_bytes` for at most so many bytes, without waiting.
-- The list is empty where the source gets 0 or an error.
pub record Uart : Type 1 where
  pub State : Type 0
  pub read_bytes : State → ℕ → State × List ℕ

-- `rivr_iface_usb_tick`
unfoldable pub usb_tick :
    (uart : Uart) → Bool → SlipRx → Rb RxFrame → uart.State → ℕ → SlipRx × Rb RxFrame × uart.State
usb_tick uart ready s ring driver now_ms =
    let (driver', received) = uart.read_bytes driver drain_chunk in
    let (s', ring') = usb_drain s ring received now_ms in
    if not ready then (s, ring, driver) else (s', ring', driver')
