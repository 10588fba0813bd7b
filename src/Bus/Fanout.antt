-- ===== src/Bus/Fanout.antt =====
-- firmware_core/rivr_bus: which transports get a copy of a frame.
use rivr.Common.{ℕ, zero, suc, bit_and, refl, inl, inr, true, List, arith, Bool-cases}
use rivr.Common.{Option-cases, length, u32, inc32, ◌+◌, ◌^◌, ◌<◌, ◌≡◌, ◌∙◌, ◌≢◌, ◌||◌}
use rivr.Common.{◌==◌}
use rivr.Protocol.{decode}
use rivr.Bus.{Links, Bus, add, count_rx_iface}
unfoldable use rivr.Bus.{select, send_on, dispatch_from, dispatch, register, receive}

-- A mask without the LoRa bit leaves the transmit queue alone.
dispatch_from-tx_queue :
    (n : ℕ) (links : Links) (bus : Bus) (bytes : List ℕ) (targets source bit : ℕ)
    → 0 < bit
    → (dispatch_from links bus bytes targets source n bit).0.tx_queue ≡ bus.tx_queue
unfolding dispatch_from send_on
dispatch_from-tx_queue zero links bus bytes targets source bit h = refl
dispatch_from-tx_queue (suc n) links bus bytes targets source bit h =
    let later =
      dispatch_from-tx_queue n links (send_on links bus bytes bit).0 bytes targets source (bit + 1)
        (omega arith) in
    let skipped = dispatch_from-tx_queue n links bus bytes targets source (bit + 1) (omega arith) in
    let same : (send_on links bus bytes bit).0.tx_queue ≡ bus.tx_queue = ground arith in
    elim (Bool-cases (bit_and targets (2 ^ bit) == 0 || 2 ^ bit == u32 (2 ^ source))) [
      | inl e ↦ rw e skipped
      | inr e ↦ rw e (later ∙ same)
    ]

-- The targets for a frame from another transport than this node's own program do not hold LoRa.
select-lora : (pkt_type source : ℕ) → source ≢ 4 → bit_and (select pkt_type source) 1 ≡ 0
unfolding select
select-lora pkt_type source h = ground arith

dispatch-tx_queue :
    (links : Links) (bus : Bus) (bytes : List ℕ) (targets source : ℕ)
    → bit_and targets 1 ≡ 0
    → (dispatch links bus bytes targets source).0.tx_queue ≡ bus.tx_queue
unfolding dispatch dispatch_from
dispatch-tx_queue links bus bytes targets source h =
    let no_lora : (bit_and targets 1 == 0) ≡ true = rw h refl in
    ground (arith, no_lora, dispatch_from-tx_queue 4 links bus bytes targets source 1 (omega arith))

-- A frame that came over the radio, Bluetooth, the serial bridge or the future WiFi link, or with
-- any other transport number but that of the node's own program, leaves the radio's transmit queue
-- as it was: rivr_bus_receive relays nothing to the radio itself.
pub receive-tx_queue :
    (links : Links) (bus : Bus) (bytes : List ℕ) (iface : ℕ)
    → iface ≢ 4
    → (receive links bus bytes iface).0.tx_queue ≡ bus.tx_queue
unfolding receive register
receive-tx_queue links bus bytes iface h =
    let m = bus.metrics in
    elim (Option-cases (decode m bytes (length bytes)).1) [
      | inl gone ↦ ground (arith, gone)
      | inr (found, there) ↦
          let hdr = found.0 in
          let m' = (decode m bytes (length bytes)).0 in
          let counted = count_rx_iface m' iface in
          let bus1 : Bus = record bus {
            cache = add bus.cache hdr.src_id hdr.pkt_id;
            metrics = record counted { bus_rx_total = inc32 counted.bus_rx_total };
          } in
          let sent =
            dispatch-tx_queue links bus1 bytes (select hdr.pkt_type iface) iface
              (select-lora hdr.pkt_type iface h) in
          ground (arith, there, sent)
    ]
