-- ===== src/Tests/Relay.antt =====
-- The relay decision, the packet cache and the forward budget at concrete inputs.
use rivr.Common.{refl, true, false, some, List, [], arith, length, ◌+◌, ◌≤◌, ◌≡◌}
use rivr.Common.{◌∷◌, if◌then◌else◌}
use rivr.Metrics.{zero_metrics}
use rivr.Protocol.{Hdr}
use rivr.Routing.Dedupe.{Cache}
use rivr.Routing.Dedupe
use rivr.Routing.Dedupe.Memory.{Arrival, remembered, check-remembered, accepted_once}
use rivr.Routing.Dedupe.Memory
use rivr.Routing.Budget.{Budget, repeater}
use rivr.Routing.Budget
use rivr.Routing.Budget.Caps.{IsWithin, init-IsWithin, checked_record, budget-IsWithin}
use rivr.Routing.Flood.{default_ttl, relay_header, Node, flood_forward}
use rivr.Routing.Flood.Decision.{is_forward, is_loop, accepts, flood_forward-accepts}
use rivr.Routing.Flood.Chain.{Visit, flight, passed, SameContent, flight_bounded}

init-IsValid : Memory.IsValid Dedupe.init
unfolding Dedupe.init
init-IsValid = omega arith

fresh_accepted : (Dedupe.check Dedupe.init 7 1 1000).1 ≡ true
unfolding Dedupe.init Dedupe.check Dedupe.scan
fresh_accepted = refl

abbrev others : List Arrival
others = record { src = 8; pkt = 1; now = 1500 } ∷ record { src = 7; pkt = 2; now = 2000 } ∷ []

accepted_once_example :
    (Dedupe.check (Memory.run (Dedupe.check Dedupe.init 7 1 1000).0 others) 7 1 3000).1 ≡ false
accepted_once_example =
    accepted_once Dedupe.init 7 1 1000 3000 others init-IsValid (omega arith) fresh_accepted
      (omega arith) (omega arith) (omega arith)

abbrev node : Node
node = record { cache = Dedupe.init; budget = Budget.init repeater; metrics = zero_metrics }

abbrev packet : Hdr
packet = record {
  magic = 0x5256;
  version = 1;
  pkt_type = 1;
  flags = 0;
  ttl = 3;
  hop = 1;
  net_id = 0;
  src_id = 7;
  dst_id = 0;
  seq = 5;
  pkt_id = 1;
  payload_len = 2;
  loop_guard = 0;
}

flood_forward-accepts_example :
    let (n', pkt', verdict) = flood_forward node packet 60000 1000 in
    (is_forward verdict ≡ accepts node packet 60000 1000)
    × (is_loop verdict ≡ false)
    × (pkt' ≡ (if accepts node packet 60000 1000 then relay_header packet else packet))
    × (n'.cache ≡ (Dedupe.check node.cache 7 1 1000).0)
    × Memory.IsValid n'.cache
flood_forward-accepts_example = flood_forward-accepts node packet 60000 1000 init-IsValid

abbrev visits : List Visit
visits =
    record { node = node; toa_us = 60000; now_ms = 1000 }
    ∷ record { node = node; toa_us = 60000; now_ms = 1200 }
    ∷ []

abbrev arrived : Hdr
arrived = record packet { ttl = 1; hop = 3; flags = 2 }

two_hops : flight packet visits ≡ some arrived
unfolding flight flood_forward passed relay_header Dedupe.init Dedupe.check Dedupe.scan
    Dedupe.insert Budget.init Budget.check Budget.record_fwd Budget.roll_window Budget.charge
two_hops = refl

flight_bounded_example :
    (arrived.ttl + length visits ≡ packet.ttl)
    × (arrived.hop ≡ packet.hop + length visits)
    × (arrived.hop ≤ default_ttl)
    × SameContent packet arrived
flight_bounded_example = flight_bounded packet arrived visits (omega arith) two_hops

budget-IsWithin_example : IsWithin repeater (checked_record (Budget.init repeater) 1 60000 1000)
budget-IsWithin_example =
    budget-IsWithin repeater (Budget.init repeater) 1 60000 1000 (init-IsWithin repeater)
