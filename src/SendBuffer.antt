-- ===== src/SendBuffer.antt =====
-- include/MyUtils/SendBuffer.h and src/SendBuffer.cpp: send buffers over reference-counted chunks.
pub mod Constants
pub mod Stats
pub mod Chunk
pub mod Memory
pub mod Buffer
pub mod Manager
pub mod World
pub mod Invariant
pub mod Calls
pub mod Steps
pub mod Safety
pub mod Bytes
pub mod Ledger
pub mod Exit
pub mod Contracts
pub mod Tests
