-- ===== src/Runtime/Sleep.antt =====
-- The sleep and wakeup of the worker pool: WorkerLoop, the notify of Submit and StopAndJoin, an
-- access to shared state at a time. Tasks are counted here; Runtime/Pool.antt has their identity.
pub mod Defs
pub mod Weights
pub mod Guards
pub mod Moves
pub mod Steps
pub mod Notify
pub mod Safety
pub mod Shutdown
pub mod Joining
mod Tests
