-- ===== src/SendBuffer/Exit.antt =====
-- The life of the ChunkPool object: the root of GlobalPoolRef, the copies of it that the deleters of the
-- chunks captured, and ~ChunkPool. `size` bounds how often a dequeue from the idle queue succeeds.
pub mod Drain
pub mod Captures
pub mod Reserving
pub mod Settling
pub mod Safety
mod Tests
use my_utils.Base.{
  ℕ, zero, suc, ◌+◌, ◌≡◌, Bool, true, false, ◌||◌, Option, none, some, ltb, ◌==◌, if◌then◌else◌,
  tally,
}
use my_utils.Queue.{ConcurrentQueue}
use my_utils.SendBuffer.Memory.{Memory, Cell, to_pool, plain, delete_chunk, bump_at}
use my_utils.SendBuffer.Buffer.{is_some}
use my_utils.SendBuffer.Constants.{max_send_buffer_size, large_allocation_threshold}
use my_utils.SendBuffer.World
use my_utils.SendBuffer.World.{World, reserves, sets_idle_limit}

-- A process: the objects of the program, whether the static root is there, and whether the pool is.
pub record Process (Q : Type 0) : Type 0 where
  pub world : World Q
  pub root : Bool
  pub pool_alive : Bool

-- The copies of the PoolRef that the control block of a chunk holds: the lambda of ChunkPool::Acquire
-- captures one, and lives until the last ChunkRef is gone and the lambda has run.
abbrev pub captures : Cell → ℕ
captures k = elim k.deleter [ to_pool ↦ if k.refs == 0 then 0 else 1 | plain ↦ 0 ]

-- use_count() of the pool.
abbrev pub use_count : {Q : Type 0} → Process Q → ℕ
use_count p = (if p.root then 1 else 0) + tally captures p.world.memory.next p.world.memory.cells

module _ {Q : Type 0} (queue : ConcurrentQueue Q) where
  -- The loop of ~ChunkPool.
  unfoldable pub drain_idle : (rounds : ℕ) → Memory Q → Memory Q
  unfolding delete_chunk
  drain_idle zero m = m
  drain_idle (suc rounds) m = elim (queue.try_dequeue m.idle) [
    | none ↦ m
    | some (c, rest) ↦ drain_idle rounds (delete_chunk c (record m { idle = rest }))
  ]

module _ {Q : Type 0} (queue : ConcurrentQueue Q) (size : Q → ℕ) where
  -- ~ChunkPool
  abbrev pub destroy_pool : Process Q → Process Q
  destroy_pool p = record p {
    world = record p.world { memory = drain_idle queue (size p.world.memory.idle) p.world.memory };
    pool_alive = false;
  }

  -- After the end of a PoolRef: the last one destroys the pool.
  unfoldable pub settle : Process Q → Process Q
  unfolding drain_idle
  settle p = if p.pool_alive then (if use_count p == 0 then destroy_pool p else p) else p

module _ {Q : Type 0} (m : Memory Q) where
  -- The current chunk has room.
  abbrev pub fits_current : (current : Option ℕ) → (capacity : ℕ) → Bool
  fits_current none capacity = false
  fits_current (some c) capacity = is_some (bump_at m c capacity).0

  -- Reserve returns before it takes a chunk from GlobalPool(): the request is refused, gets a chunk of
  -- its own, or fits into the current chunk.
  abbrev pub needs_no_pool : (current : Option ℕ) → (capacity : ℕ) → Bool
  needs_no_pool current capacity =
      (capacity == 0 || ltb max_send_buffer_size capacity)
      || (ltb large_allocation_threshold capacity || fits_current current capacity)

module _ {Q : Type 0} {queue : ConcurrentQueue Q} {n : ℕ} where
  -- The calls that do not call GlobalPool(), which refers to the static root: all but the setting of
  -- the idle limit and a Reserve that replaces the current chunk.
  abbrev pub IsLate : {w w' : World Q} → World.Step queue n w w' → Type 0
  IsLate {w} (reserves _ _ capacity current _ _ _ _ _ _ _) =
      needs_no_pool w.memory current capacity ≡ true
  IsLate (sets_idle_limit _) = ⊥
  IsLate _ = Unit

module _ {Q : Type 0} (queue : ConcurrentQueue Q) (size : Q → ℕ) (n : ℕ) where
  pub data Step (p : Process Q) : Process Q → Type 0 where
    calls :
        {w' : World Q}
        → p.root ≡ true
        → World.Step queue n p.world w'
        → Step p (settle queue size (record p { world = w' }))
    -- The destructors of other static objects, and threads that are still there, go on.
    calls_late :
        {w' : World Q} (call : World.Step queue n p.world w')
        → IsLate call
        → Step p (settle queue size (record p { world = w' }))
    -- The destruction of the static root at the end of the process.
    drops_root : p.root ≡ true → Step p (settle queue size (record p { root = false }))

  -- The first call made the pool.
  abbrev pub initial : Process Q
  initial = record { world = World.initial queue; root = true; pool_alive = true }

  pub data Reach : Process Q → Type 0 where
    at_start : Reach initial
    then_step : {p p' : Process Q} → Reach p → Step p p' → Reach p'
