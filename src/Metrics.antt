-- ===== src/Metrics.antt =====
-- firmware_core/rivr_metrics.h: the uint32_t counters of `g_rivr_metrics` that the modelled
-- components write. Each function that counts takes the record and returns it.
use rivr.Common.{ℕ}

pub record Metrics : Type 0 where
  pub rx_dedupe_drop : ℕ
  pub rx_ttl_drop : ℕ
  pub rx_invalid_type : ℕ
  pub rx_invalid_hop : ℕ
  pub duty_blocked : ℕ
  pub fabric_drop : ℕ
  pub fabric_delay : ℕ
  pub pq_dropped : ℕ
  pub pq_expired : ℕ
  pub pq_peak : ℕ
  pub rcache_evict : ℕ
  pub airtime_tokens_low : ℕ
  pub class_drops_ctrl : ℕ
  pub class_drops_chat : ℕ
  pub class_drops_metrics : ℕ
  pub class_drops_bulk : ℕ
  pub pending_queue_expired_total : ℕ
  pub route_cache_miss_total : ℕ
  pub route_cache_hit_total : ℕ
  pub retry_attempt_total : ℕ
  pub retry_fail_total : ℕ
  pub retry_fallback_total : ℕ
  pub neighbor_route_used_total : ℕ
  pub neighbor_route_failed_total : ℕ
  pub beacon_class_drop : ℕ
  pub airtime_route_selected_total : ℕ
  pub airtime_route_fallback_total : ℕ
  pub sq_dropped : ℕ
  pub sq_expired : ℕ
  pub sq_peak : ℕ
  pub lora_rx_frames : ℕ
  pub usb_rx_frames : ℕ
  pub ble_tx_frames : ℕ
  pub bus_rx_total : ℕ
  pub bus_forward_lora : ℕ
  pub bus_forward_usb : ℕ
  pub bus_forward_ble : ℕ
  pub bus_drop_dup : ℕ
  pub bus_drop_invalid : ℕ
  pub bus_errors : ℕ

-- The counters as they stand in zeroed memory.
abbrev pub zero_metrics : Metrics
zero_metrics = record {
  rx_dedupe_drop = 0;
  rx_ttl_drop = 0;
  rx_invalid_type = 0;
  rx_invalid_hop = 0;
  duty_blocked = 0;
  fabric_drop = 0;
  fabric_delay = 0;
  pq_dropped = 0;
  pq_expired = 0;
  pq_peak = 0;
  rcache_evict = 0;
  airtime_tokens_low = 0;
  class_drops_ctrl = 0;
  class_drops_chat = 0;
  class_drops_metrics = 0;
  class_drops_bulk = 0;
  pending_queue_expired_total = 0;
  route_cache_miss_total = 0;
  route_cache_hit_total = 0;
  retry_attempt_total = 0;
  retry_fail_total = 0;
  retry_fallback_total = 0;
  neighbor_route_used_total = 0;
  neighbor_route_failed_total = 0;
  beacon_class_drop = 0;
  airtime_route_selected_total = 0;
  airtime_route_fallback_total = 0;
  sq_dropped = 0;
  sq_expired = 0;
  sq_peak = 0;
  lora_rx_frames = 0;
  usb_rx_frames = 0;
  ble_tx_frames = 0;
  bus_rx_total = 0;
  bus_forward_lora = 0;
  bus_forward_usb = 0;
  bus_forward_ble = 0;
  bus_drop_dup = 0;
  bus_drop_invalid = 0;
  bus_errors = 0;
}
