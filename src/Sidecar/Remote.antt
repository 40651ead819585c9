-- ===== src/Sidecar/Remote.antt =====
-- The remote lanes of crates/nrm-sidecar/src/main.rs: requests, what they touch, the queue in front
-- of each lane, and the writes that are pending.
pub mod Request
pub mod Queue
pub mod Pending
mod Tests
