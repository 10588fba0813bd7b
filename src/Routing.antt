-- ===== src/Routing.antt =====
-- firmware_core/routing.h and routing.c: the parts of mesh routing.
pub mod Dedupe
pub mod Budget
pub mod Flood
pub mod Control
pub mod Neighbors
