-- ===== src/Runtime.antt =====
-- src/Runtime.cpp and src/RuntimeInternal.h: the queues of the worker pool, its configuration, its counters,
-- the sleep of its workers, and the start and the end of the runtime in a process.
pub mod Pool
pub mod Conservation
pub mod Search
pub mod Discard
pub mod Flags
pub mod Config
pub mod Stats
pub mod Sleep
pub mod Lifecycle
pub mod Statics
mod Tests
