-- ===== src/Lib.antt =====
-- The packet core of Rivr, a LoRa mesh firmware: the wire format, the relay decision, the gates in
-- front of the radio, the queues behind them, and the tables of neighbours and routes.
--
-- A frame reaches the node by radio, in SLIP bytes over USB, or in Bluetooth packets. The bus
-- (`rivr_bus_receive`) counts it, refuses what it saw before and hands copies to the other
-- transports. The routing core decodes a radio frame (`protocol_decode`), checks it against the
-- cache of recent packets and the forward budget (`routing_flood_forward`), and pushes it to the
-- transmit ring if it is relayed. Around a relay stand the congestion fabric, the policy by traffic
-- class, the ranking of the neighbours that could relay as well (`fwdset_build`) and the table of
-- packets that a neighbour was heard relaying. A build can switch on a message layer: its frames are
-- decoded (`rml_decode`), judged (`rml_policy_decide`) and, where the decision says so, encoded again
-- and pushed to the transmit ring. The link-quality table scores a neighbour, and the
-- route cache chooses a next hop by its metric and that score. Own messages wait in the send queue,
-- beacons for their schedule; frames that want an acknowledgement stand in the retry table, and
-- messages without a route in the pending queue. Before the radio sends a request, the airtime
-- buckets and the duty cycle must let it pass.
--
-- The files and what they model (paths below firmware_core/):
--   Protocol, Protocol/Crc: protocol.h and protocol.c. `encode`, `validate_wire_frame`,
--     `unpack_header_from_wire`, `decode` and `crc16` are the functions with these names.
--   Ringbuf: ringbuf.h. Radio: the requests and frames of radio_sx1262.h, as byte arrays.
--   Dutycycle: dutycycle.h and dutycycle.c. Airtime: airtime_sched.h and airtime_sched.c.
--   Routing/Dedupe, Routing/Budget, Routing/Flood, Routing/Control, Routing/Neighbors: routing.h and
--     routing.c, the packet cache, the forward budget, the relay decision, the control packets, the
--     older neighbour table.
--   Retry: retry_table.h and retry_table.c. Pending: pending_queue.h and pending_queue.c.
--   SendQueue: send_queue.h and send_queue.c. Beacon: beacon_sched.h and beacon_sched.c.
--   RouteCache, RouteCache/Learn, RouteCache/BestHop: route_cache.h and route_cache.c.
--   Neighbor, Neighbor/Score: neighbor_table.h and neighbor_table.c.
--   Fabric: rivr_fabric.h and rivr_fabric.c. Policy: policy.h and policy.c.
--   FwdSet: fwd_set.h. Opfwd: opfwd_suppress.h.
--   Bus: rivr_bus/ with the radio and Bluetooth adapters of iface/. Slip: iface/rivr_iface_usb.c.
--   Frag: ble/rivr_ble_frag.h and ble/rivr_ble_frag.c.
--   Rml, Rml/Payload, Rml/Seen, Rml/Thread, Rml/Policy: rml/rml.h, rml_codec.c, rml.c, rml_stats.c,
--     rml_seen.c and rml_policy.c. Rml/Source: `source_handle_rml_frame` of
--     rivr_layer/rivr_sources.c, a path from the repository's root.
--   Metrics: the counters of rivr_metrics.h that these components write.
--   Common: Boolean tests, list and bit lemmas, machine words. Tests: concrete inputs.
-- A struct is a record with the fields of the struct; the field `data` is called `frame` or
-- `bytes`. Each operation takes the state that it reads and returns the state that it wrote; global
-- state (`g_dc`, `g_airtime`, `g_rivr_metrics`) and the clock are arguments. Null pointers are not
-- modelled, logging is left out. Parameters stand for the drivers' calls, for compile-time
-- switches (airtime routing) and for the symbol time that the radio is set to.
--
-- Bounds: numbers are natural numbers; each cast and each sum, difference or product that can leave
-- its C type keeps its wrap-around as a remainder (`u8`, `u16`, `u32`, `inc32`, `sub32`). Signed
-- values are integers over them, wrapped by `i8` and `i16`. A hypothesis `IsU8`, `IsU16`, `IsU32` or
-- `IsSigned` says that an argument fits its type. Three loops run on fuel: that of
-- `rivr_ble_frag_send`, with the payload's length, as each round moves the offset by at least one;
-- that of `send_queue_expire`, with the queue's count, as each round removes a message; and that of
-- `neighbor_table_expire`, with the table's count, as each round moves on or removes an entry. All
-- others are structural over the table they scan.
--
-- Not modelled: channels, the run-time policy (rivr_policy) and the layer that runs Rivr programs, for
-- now; drivers, platform, Bluetooth service, display and sensors, which are hardware access;
-- signatures and updates; the Rust core. Memory order and preemption between interrupt and main
-- loop are not modelled: each ring operation is one step.
pub mod Common
pub mod Radio
pub mod Ringbuf
pub mod Metrics
pub mod Protocol
pub mod Airtime
pub mod Dutycycle
pub mod Retry
pub mod Rml
pub mod Pending
pub mod Routing
pub mod Frag
pub mod Fabric
pub mod Beacon
pub mod FwdSet
pub mod Policy
pub mod Opfwd
pub mod Neighbor
pub mod Bus
pub mod Slip
pub mod SendQueue
pub mod Tests
pub mod RouteCache
