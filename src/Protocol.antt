-- ===== src/Protocol.antt =====
-- crates/nrm-protocol: the messages of the runtime streams, their validation and the state machine
-- that both peers run.
pub mod Capability
pub mod Limits
pub mod Types
pub mod Message
pub mod Errors
pub mod Validate
pub mod Phase
pub mod Expect
pub mod Process
pub mod Watch
pub mod Transition
pub mod Machine
pub mod Frame
mod Tests
