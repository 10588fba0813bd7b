-- ===== src/Bus.antt =====
-- firmware_core/rivr_bus (rivr_bus.c, rivr_dispatch.c, rivr_dup_cache.c) and the adapters iface/
-- rivr_iface_lora.c and rivr_iface_ble.c: the bus that every received frame passes, with its cache of
-- duplicates and the copies for the other transports. A transport is its number as rivr_iface_t.
-- The driver calls behind the adapters are fields of `Links`; of the ingress metadata only the
-- transport is read. The null checks are left out.
pub mod Memory
pub mod Fanout
use rivr.Common.{ℕ, zero, suc, bit_and, bit_or, Bool, true, false, not, none, some, List}
use rivr.Common.{[], ltb, length, set, replicate, u8, u32, inc32, ◌+◌, ◌-◌, ◌^◌, ◌&&◌}
use rivr.Common.{◌||◌, ◌∷◌, ◌==◌, if◌then◌else◌}
use rivr.Metrics.{Metrics}
use rivr.Radio.{TxRequest, zero_data, copy, frame_cap, toa_approx_us}
use rivr.Ringbuf.{Rb, try_push}
use rivr.Protocol.{Hdr, decode, min_frame}
use rivr.Slip.{usb_send}

-- RIVR_BUS_DUP_CACHE_SIZE
abbrev pub cache_size : ℕ
cache_size = 64

-- `rivr_bus_dup_entry_t`
pub record Entry : Type 0 where
  pub src_id : ℕ
  pub pkt_id : ℕ

-- `rivr_bus_dup_cache_t`
pub record Cache : Type 0 where
  pub entries : List Entry
  pub head : ℕ

abbrev pub empty : Entry
empty = record { src_id = 0; pkt_id = 0 }

abbrev pub has_key : Entry → ℕ → ℕ → Bool
has_key e src_id pkt_id = e.src_id == src_id && e.pkt_id == pkt_id

-- The loop of `rivr_bus_dup_cache_seen`.
unfoldable pub seen_scan : List Entry → ℕ → ℕ → Bool
seen_scan [] src_id pkt_id = false
seen_scan (e ∷ es) src_id pkt_id =
    let rest = seen_scan es src_id pkt_id in if has_key e src_id pkt_id then true else rest

-- `rivr_bus_dup_cache_seen`
unfoldable pub seen : Cache → ℕ → ℕ → Bool
seen c src_id pkt_id = if src_id == 0 then false else seen_scan c.entries src_id pkt_id

-- `rivr_bus_dup_cache_add`
unfoldable pub add : Cache → ℕ → ℕ → Cache
add c src_id pkt_id =
    let slot = bit_and c.head (cache_size - 1) in
    record {
      entries = set c.entries slot (record { src_id = src_id; pkt_id = pkt_id });
      head = bit_and (slot + 1) (cache_size - 1);
    }

-- `rivr_iface_t`
abbrev pub iface_lora : ℕ
iface_lora = 0

abbrev pub iface_ble : ℕ
iface_ble = 1

abbrev pub iface_usb : ℕ
iface_usb = 2

abbrev pub iface_wifi : ℕ
iface_wifi = 3

abbrev pub iface_local : ℕ
iface_local = 4

abbrev pub iface_count : ℕ
iface_count = 5

-- The masks RIVR_MASK_LORA, _BLE and _USB.
abbrev pub mask_lora : ℕ
mask_lora = 1

abbrev pub mask_ble : ℕ
mask_ble = 2

abbrev pub mask_usb : ℕ
mask_usb = 4

-- `rivr_dispatch_is_app_relevant`: chat, beacon, data, telemetry, mailbox, alert.
unfoldable pub is_app_relevant : ℕ → Bool
is_app_relevant pkt_type =
    pkt_type == 1
    || (pkt_type == 2 || (pkt_type == 6 || (pkt_type == 8 || (pkt_type == 9 || pkt_type == 10))))

-- `rivr_dispatch_select`
unfoldable pub select : ℕ → ℕ → ℕ
select pkt_type source =
    let app = is_app_relevant pkt_type in
    if source == iface_lora
    then if app then bit_or mask_ble mask_usb else 0
    else if source == iface_ble
    then if app then mask_usb else 0
    else if source == iface_usb
    then if app then mask_ble else 0
    else if source == iface_wifi
    then if app then bit_or mask_ble mask_usb else 0
    else if source == iface_local
    then bit_or (bit_or mask_lora mask_ble) mask_usb
    else 0

-- What the adapters ask of the drivers: the Bluetooth connection, its raw bridge and its
-- notification, the serial bridge, the bytes that uart_write_bytes wrote, and the symbol period.
pub record Links : Type 0 where
  pub ble_connected : Bool
  pub raw_bridge : Bool
  pub notify : List ℕ → Bool
  pub usb_ready : Bool
  pub uart_write : List ℕ → ℕ
  pub t_sym_us : ℕ

-- The state behind the bus.
pub record Bus : Type 0 where
  pub cache : Cache
  pub metrics : Metrics
  pub tx_queue : Rb TxRequest

-- `rivr_bus_init`
unfoldable pub init : Bus → Bus
init bus = record bus { cache = record { entries = replicate cache_size empty; head = 0 } }

-- `rivr_iface_lora_send`
unfoldable pub lora_send : Links → Rb TxRequest → List ℕ → Rb TxRequest × Bool
lora_send links queue bytes =
    let len = length bytes in
    let (ok, queue') = try_push queue (record {
      frame = copy zero_data bytes len;
      len = u8 len;
      toa_us = toa_approx_us links.t_sym_us (u8 len);
      due_ms = 0;
    }) in
    if len == 0 || ltb frame_cap len then (queue, false) else (queue', ok)

-- `rivr_iface_ble_send`
unfoldable pub ble_send : Links → List ℕ → Bool
ble_send links bytes =
    if not links.ble_connected
    then false
    else if not links.raw_bridge
    then false
    else if length bytes == 0 || ltb 255 (length bytes)
    then false
    else links.notify bytes

-- The switch in the loop of `rivr_bus_dispatch`, and the count of an error after it.
unfoldable pub send_on : Links → Bus → List ℕ → ℕ → Bus × Bool
send_on links bus bytes bit =
    let m = bus.metrics in
    let failed : Bus = record bus { metrics = record m { bus_errors = inc32 m.bus_errors } } in
    let (queue, lora_ok) = lora_send links bus.tx_queue bytes in
    let sent_lora : Bus = record bus {
      tx_queue = queue;
      metrics = record m { bus_forward_lora = inc32 m.bus_forward_lora };
    } in
    let sent_ble : Bus = record bus {
      metrics = record m {
        bus_forward_ble = inc32 m.bus_forward_ble;
        ble_tx_frames = inc32 m.ble_tx_frames;
      };
    } in
    let sent_usb : Bus = record bus {
      metrics = record m { bus_forward_usb = inc32 m.bus_forward_usb };
    } in
    if bit == iface_lora
    then if lora_ok then (sent_lora, true) else (record failed { tx_queue = queue }, false)
    else if bit == iface_ble
    then if ble_send links bytes then (sent_ble, true) else (failed, false)
    else if bit == iface_usb
    then if usb_send links.usb_ready links.uart_write bytes
      then (sent_usb, true)
      else (failed, false)
    else (bus, false)

-- The loop of `rivr_bus_dispatch` with `n` rounds left, from transport `bit` on.
unfoldable pub dispatch_from : Links → Bus → List ℕ → ℕ → ℕ → ℕ → ℕ → Bus × Bool
dispatch_from links bus bytes targets source zero bit = (bus, false)
dispatch_from links bus bytes targets source (suc n) bit =
    let mask = 2 ^ bit in
    let skip = bit_and targets mask == 0 || mask == u32 (2 ^ source) in
    let (bus1, ok) = if skip then (bus, false) else send_on links bus bytes bit in
    let (bus2, any) = dispatch_from links bus1 bytes targets source n (bit + 1) in (bus2, ok || any)

-- `rivr_bus_dispatch`
unfoldable pub dispatch : Links → Bus → List ℕ → ℕ → ℕ → Bus × Bool
dispatch links bus bytes targets source =
    if length bytes == 0 || targets == 0
    then (bus, false)
    else dispatch_from links bus bytes targets source iface_count 0

-- `bus_count_rx_iface`
unfoldable pub count_rx_iface : Metrics → ℕ → Metrics
count_rx_iface m iface =
    if iface == iface_lora
    then record m { lora_rx_frames = inc32 m.lora_rx_frames }
    else if iface == iface_usb
    then record m { usb_rx_frames = inc32 m.usb_rx_frames }
    else m

-- `rivr_bus_receive` from the check for duplicates on.
unfoldable pub register : Links → Bus → List ℕ → ℕ → Hdr → Bus × Bool
register links bus bytes iface hdr =
    let m = bus.metrics in
    let counted = count_rx_iface m iface in
    let bus1 : Bus = record bus {
      cache = add bus.cache hdr.src_id hdr.pkt_id;
      metrics = record counted { bus_rx_total = inc32 counted.bus_rx_total };
    } in
    let targets = select hdr.pkt_type iface in
    if seen bus.cache hdr.src_id hdr.pkt_id
    then (record bus { metrics = record m { bus_drop_dup = inc32 m.bus_drop_dup } }, false)
    else ((if targets == 0 then bus1 else (dispatch links bus1 bytes targets iface).0), true)

-- `rivr_bus_receive` for a frame of `length bytes` bytes that came over `iface`.
unfoldable pub receive : Links → Bus → List ℕ → ℕ → Bus × Bool
receive links bus bytes iface =
    let m = bus.metrics in
    let len = length bytes in
    let (m', decoded) = decode m bytes len in
    if ltb len min_frame || ltb frame_cap len
    then (record bus { metrics = record m { bus_drop_invalid = inc32 m.bus_drop_invalid } }, false)
    else elim decoded [
      | none ↦ (
        record bus { metrics = record m' { bus_drop_invalid = inc32 m'.bus_drop_invalid } },
        false,
      )
      | some found ↦ register links (record bus { metrics = m' }) bytes iface found.0
    ]

-- `rivr_bus_send_local`
unfoldable pub send_local : Links → Bus → List ℕ → Bus × Bool
send_local links bus bytes = receive links bus bytes iface_local
