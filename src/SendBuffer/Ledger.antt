-- ===== src/SendBuffer/Ledger.antt =====
-- What becomes of the chunks of a process: GLiveChunkCount and GLiveChunkBytes, and the places
-- where a chunk that lives is kept.
pub mod Cells
pub mod Refs
pub mod Taking
pub mod Calls
pub mod Steps
mod Tests
use my_utils.Base.{ℕ, ◌%◌, ◌^◌, ◌≤◌, ◌<◌, ◌≡◌, ◌≢◌, true, false, Option, some, if◌then◌else◌, tally}
use my_utils.Queue.{ConcurrentQueue}
use my_utils.SendBuffer.Memory.{Memory, Cell}

abbrev pub lives : Cell → ℕ
lives k = if k.alive then 1 else 0

abbrev pub live_bytes : Cell → ℕ
live_bytes k = if k.alive then k.chunk.capacity else 0

-- `loose` is a chunk that a call holds without a reference.
pub record Ledger {Q : Type 0} (queue : ConcurrentQueue Q) (loose : Option ℕ) (m : Memory Q)
    : Type 0 where
  pub fresh : (c : ℕ) → m.next ≤ c → (m.cells c).alive ≡ false
  pub held_alive : (c : ℕ) → 0 < (m.cells c).refs → (m.cells c).alive ≡ true
  pub idle_once : (c : ℕ) → queue.copies m.idle c ≤ 1
  pub idle_free :
      (c : ℕ) → 0 < queue.copies m.idle c → ((m.cells c).refs ≡ 0) × ((m.cells c).alive ≡ true)
  pub kept :
      (c : ℕ)
      → (m.cells c).alive ≡ true
      → (m.cells c).refs ≡ 0
      → loose ≢ some c
      → 0 < queue.copies m.idle c
  pub small : (c : ℕ) → (m.cells c).alive ≡ true → (m.cells c).chunk.capacity < 2 ^ 64
  pub count_exact : m.live_chunk_count ≡ tally lives m.next m.cells % 2 ^ 64
  pub bytes_exact : m.live_chunk_bytes ≡ tally live_bytes m.next m.cells % 2 ^ 64
