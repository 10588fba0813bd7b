-- ===== src/Tests/Neighbors.antt =====
-- The neighbour table of the routing core at a concrete input.
use rivr.Common.{ℕ, refl, arith, pos, negsuc, get_or, ◌<◌, ◌≢◌}
use rivr.Tests.Wire.{sample}
use rivr.Routing.Neighbors.{Heard, zero_table, empty}
unfoldable use rivr.Routing.Neighbors.{update}
use rivr.Routing.Neighbors.Present.{IsHeard, update-IsHeard}

abbrev first : Heard
first = record { pkt = sample; rssi_dbm = negsuc 89; snr_db = pos 6; now_ms = 1000 }

has_source : sample.src_id ≢ 0
has_source e = absurd (omega arith)

update-IsHeard_example :
    (i : ℕ) × (i < 16) × IsHeard first (get_or (update zero_table first).entries i empty)
update-IsHeard_example = update-IsHeard zero_table first refl has_source (omega arith)
