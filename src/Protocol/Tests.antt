-- ===== src/Protocol/Tests.antt =====
-- Concrete runs of the runtime protocol, for the theorems' examples.
mod Open
mod Machines
mod Fields
mod Frames
