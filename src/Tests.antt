-- ===== src/Tests.antt =====
-- Runs of the definitions on small inputs, and the theorems at concrete inputs.
mod Bus
mod Memory
mod Plugin
mod Bucket
mod Gate
mod Delivery
mod Cursor
mod StreamCalls
mod Manifest
mod Scheduler
mod Services
mod Consuming
mod Digest
mod Attest
