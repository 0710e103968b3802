-- ===== src/Bus.antt =====
-- v2/bus: the substrate-neutral contract.
pub mod Subject
pub mod Fault
pub mod Identity
pub mod Msg
