-- ===== src/Radio.antt =====
-- firmware_core/radio_sx1262.h: the transmit request that the ring buffer carries, and the byte
-- arrays of frames. Its field `data` is `frame` here, a list of 255 bytes.
use rivr.Common.{ℕ, List, take, drop, replicate, u32, ℤ, ◌+◌, ◌*◌, ◌/◌, ◌++◌}

-- RF_MAX_PAYLOAD_LEN
abbrev pub frame_cap : ℕ
frame_cap = 255

-- `rf_tx_request_t`
pub record TxRequest : Type 0 where
  pub frame : List ℕ
  pub len : ℕ
  pub toa_us : ℕ
  pub due_ms : ℕ

abbrev pub zero_data : List ℕ
zero_data = replicate frame_cap 0

-- `memcpy(dst, src, len)`
abbrev pub copy : List ℕ → List ℕ → ℕ → List ℕ
copy dst src len = take len src ++ drop len dst

-- `rf_rx_frame_t`
pub record RxFrame : Type 0 where
  pub frame : List ℕ
  pub len : ℕ
  pub rssi_dbm : ℤ
  pub snr_db : ℤ
  pub rx_mono_ms : ℕ
  pub from_id : ℕ
  pub iface : ℕ

-- RF_TOA_APPROX_US, where `t_sym_us` is RF_TOA_T_SYM_US, which the build's spreading factor and
-- bandwidth fix.
abbrev pub toa_approx_us : ℕ → ℕ → ℕ
toa_approx_us t_sym_us pl = u32 (u32 (49 * t_sym_us) / 4 + u32 ((8 * pl + 43) / 32 * 8 * t_sym_us))
