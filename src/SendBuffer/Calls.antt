-- ===== src/SendBuffer/Calls.antt =====
-- Each call of the send buffer API, made in a world that satisfies the invariant.
pub mod Threads
pub mod Views
pub mod Commit
pub mod Buffers
pub mod Runs
pub mod Replace
pub mod Solo
pub mod Reserve
