-- ===== src/Memqueue.antt =====
-- src/memqueue.c and src/memqueue_impl.h: the queues, their messages, the pollers and the cleaner.
pub mod Types
pub mod Refs
pub mod Sched
pub mod Message
pub mod Poll
pub mod Respond
pub mod Cleaner
pub mod Args
pub mod Handlers
pub mod Invariant
pub mod Ledger
pub mod Links
pub mod Steps
mod Tests
