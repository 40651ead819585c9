-- ===== src/Agent.antt =====
-- crates/nrm-agent: the files that the agent writes.
pub mod BatchRead
pub mod Host
pub mod Uploads
mod Tests
