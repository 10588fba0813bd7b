-- ===== src/Tests/Links.antt =====
-- The neighbour table, the forward set, the best next hop and the flood policy at concrete inputs.
use rivr.Common.{ℕ, zero, suc, true, false, some, List, [], arith, pos, negsuc}
use rivr.Common.{take, replicate, All, count_if, ◌+◌, ◌<◌, ◌≡◌, ◌≢◌, ◌∷◌}
use rivr.Metrics.{zero_metrics}
use rivr.Neighbor
use rivr.Neighbor.{Neighbor, Table, Observation, empty, unknown_position, entry_at}
use rivr.Neighbor.Score.{best}
use rivr.Neighbor.Link.{IsBounded, update-IsBounded}
use rivr.Neighbor.Expiry.{and_alive, expire-kept}
use rivr.Neighbor.Best.{offer_of, top_offer, best-top, link_score-decays}
use rivr.Neighbor.Best
use rivr.RouteCache
use rivr.RouteCache.{Cache}
use rivr.RouteCache.BestHop.{best_hop}
use rivr.RouteCache.Usable
use rivr.RouteCache.Usable.{best_hop-Basis}
use rivr.Policy
use rivr.Policy.Rate
use rivr.Policy.Rate.{Offer}
use rivr.Tests.Wire.{sample}

-- A direct neighbour heard at 1000, and one heard long before.
abbrev near : Neighbor
near = record empty {
  neighbor_id = 5;
  rssi_avg = negsuc 69;
  snr_avg = pos 6;
  loss_rate = 10;
  last_seen_ms = 200000;
  flags = 1;
  last_seq = 4;
  rx_ok = 3;
  etx_x8 = 8;
}

abbrev lost : Neighbor
lost = record empty { neighbor_id = 6; rssi_avg = negsuc 99; last_seen_ms = 1000; etx_x8 = 8 }

abbrev table : Table
table = record { entries = lost ∷ near ∷ replicate 14 empty; count = 2 }

abbrev observation : Observation
observation = record {
  node_id = 5;
  rssi_dbm = negsuc 79;
  snr_db = pos 4;
  hop_count = 0;
  seq = 7;
  frame_len = 40;
  now_ms = 205000;
}

empty-IsBounded : IsBounded 200 50 empty
empty-IsBounded = record {
  loss = omega arith;
  etx = omega arith;
  signal = omega arith;
  noise = omega arith;
}

lost-IsBounded : IsBounded 200 50 lost
lost-IsBounded = record {
  loss = omega arith;
  etx = omega arith;
  signal = omega arith;
  noise = omega arith;
}

near-IsBounded : IsBounded 200 50 near
near-IsBounded = record {
  loss = omega arith;
  etx = omega arith;
  signal = omega arith;
  noise = omega arith;
}

empty-All : (n : ℕ) → All (IsBounded 200 50) (replicate n empty)
empty-All zero = tt
empty-All (suc n) = (empty-IsBounded, empty-All n)

update-IsBounded_example : All (IsBounded 200 50) (Neighbor.update table observation).0.entries
update-IsBounded_example =
    update-IsBounded 200 50 table observation (omega arith) (omega arith) (omega arith)
      (omega arith) (lost-IsBounded, (near-IsBounded, empty-All 14)) (omega arith) (omega arith)

expire-kept_example :
    let (tbl', gone) = Neighbor.expire table 250000 in
    (count_if (λ (n : Neighbor). true) (take tbl'.count tbl'.entries)
      ≡ count_if (and_alive (λ (n : Neighbor). true) 250000) (take 2 table.entries))
    × (gone + tbl'.count ≡ 2)
expire-kept_example = expire-kept (λ n. true) table 250000 (omega arith) (omega arith)

best-top_example :
    (offer_of false 250000 (best false table 250000) ≡ top_offer false 250000 table.entries 2)
    × Best.Chosen (λ e. (i : ℕ) × (i < 2) × (entry_at table i ≡ e)) (best false table 250000)
best-top_example = best-top false table 250000 (omega arith)

abbrev routes : Cache
routes = record {
  entries =
      record {
        dst_id = 9;
        next_hop = 5;
        last_seen_ms = 240000;
        hop_count = 2;
        metric = 70;
        flags = 1;
      }
      ∷ replicate 3 RouteCache.empty;
  count = 1;
  evict_hand = 0;
}

abbrev wanted : ℕ
wanted = 9

best_hop-Basis_example :
    let (cache', ntbl', m', found) =
      best_hop false routes (some table) zero_metrics wanted 250000 in
    Usable.Chosen
      (λ r.
        (wanted ≢ 0)
        × (r.dest_id ≡ wanted)
        × Usable.Basis false routes.entries (some table) ntbl' wanted 250000 r)
      found
best_hop-Basis_example =
    best_hop-Basis false routes (some table) zero_metrics wanted 250000 (omega arith)

abbrev policy : Policy.Policy
policy = record { buckets = replicate 16 Policy.full_bucket }

abbrev offers : List Offer
offers = record { hdr = sample; now = 100 } ∷ record { hdr = sample; now = 200 } ∷ []
