-- ===== src/Tests.antt =====
-- The theorems at concrete inputs.
pub mod Wire
pub mod Relay
pub mod Gates
pub mod Queues
pub mod Routes
pub mod Fabric
pub mod Links
pub mod Bus
pub mod Rml
pub mod Neighbors
