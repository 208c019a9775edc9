-- ===== src/SendBuffer/Invariant.antt =====
-- Who holds which chunk, and which bytes of it: what is true at the start and kept by every step.
pub mod Defs
pub mod Transfers
pub mod Cells
pub mod Release
pub mod Acquire
pub mod Cursor
pub mod Moves
pub mod Rewind
