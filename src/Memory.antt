-- ===== src/Memory.antt =====
-- v2/bus/memory: the in-memory substrate.
pub mod Stamp
pub mod Stream
pub mod Append
pub mod Consumer
pub mod Bucket
pub mod Subscription
pub mod Gate
pub mod Delivery
pub mod Cursor
pub mod Cron
pub mod Scheduler
pub mod StreamCalls
pub mod Consuming
pub mod Services
