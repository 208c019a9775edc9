-- ===== src/Actors.antt =====
-- include/MyUtils/Actor.h and src/Actors.cpp: an actor control block and everyone who calls it, the
-- registry of actors and the shutdown of the runtime.
pub mod Block
pub mod System
pub mod Invariant
pub mod Steps
pub mod Safety
pub mod Progress
pub mod Alone
pub mod Together
pub mod Counting
pub mod Registry
pub mod Shutdown
pub mod Refs
pub mod Census
mod Tests
