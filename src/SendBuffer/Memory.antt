-- ===== src/SendBuffer/Memory.antt =====
-- The chunks of the process: allocation and destruction, the shared_ptr counts of ChunkRef, and
-- ChunkPool. A chunk is named by a number that is never used again in place of its address, and
-- the pool's queue of idle chunks is the parameter `queue`.
use my_utils.Base.{
  ℕ, ◌+◌, ◌-◌, Bool, true, false, not, ◌||◌, Option, none, some, ltb, leb, ◌==◌, if◌then◌else◌,
  update, add64, sub64,
}
use my_utils.Assert.{Checked, ok, assert, ◌>>=◌, ◌>>◌}
use my_utils.Queue.{ConcurrentQueue}
use my_utils.SendBuffer.Constants.{default_chunk_capacity}
use my_utils.SendBuffer.Stats.{SendBufferStats}
use my_utils.SendBuffer.Chunk.{Chunk, reset, bump, rewind}

-- What runs when the last ChunkRef of a chunk goes: the lambda of ChunkPool::Acquire, or the
-- plain deleter of std::make_shared.
pub data Deleter : Type 0 where
  to_pool : Deleter
  plain : Deleter

-- A chunk with the control block of its shared_ptr. `alive` ends with its destructor.
pub record Cell : Type 0 where
  pub chunk : Chunk
  pub refs : ℕ
  pub deleter : Deleter
  pub alive : Bool

-- What all threads share: the heap of chunks, the counters of live chunks, and the global pool.
pub record Memory (Q : Type 0) : Type 0 where
  pub cells : ℕ → Cell
  pub next : ℕ
  pub live_chunk_count : ℕ  -- GLiveChunkCount
  pub live_chunk_bytes : ℕ  -- GLiveChunkBytes
  pub idle : Q  -- _idle
  pub idle_limit : ℕ  -- _idleLimit

module _ {Q : Type 0} where
  abbrev pub set_chunk : Memory Q → ℕ → Chunk → Memory Q
  set_chunk m c k = record m { cells = update m.cells c (record (m.cells c) { chunk = k }) }

  -- The chunk that SendBufferChunk(capacity) makes, at a fresh address.
  abbrev pub with_chunk : ℕ → Memory Q → Memory Q
  with_chunk capacity m = record m {
    cells = update m.cells m.next (record {
      chunk = record { capacity = capacity; offset = 0 };
      refs = 0;
      deleter = plain;
      alive = true;
    });
    next = m.next + 1;
    live_chunk_count = add64 m.live_chunk_count 1;
    live_chunk_bytes = add64 m.live_chunk_bytes capacity;
  }

  -- SendBufferChunk(capacity)
  unfoldable pub new_chunk : ℕ → Memory Q → Checked (ℕ × Memory Q)
  new_chunk capacity m = do assert (ltb 0 capacity); ok (m.next, with_chunk capacity m)

  -- ~SendBufferChunk()
  unfoldable pub delete_chunk : ℕ → Memory Q → Memory Q
  delete_chunk c m = record m {
    cells = update m.cells c (record (m.cells c) { alive = false });
    live_chunk_count = sub64 m.live_chunk_count 1;
    live_chunk_bytes = sub64 m.live_chunk_bytes (m.cells c).chunk.capacity;
  }

  -- ChunkRef(raw, deleter): the first owner.
  unfoldable pub own : ℕ → Deleter → Memory Q → Memory Q
  own c d m = record m { cells = update m.cells c (record (m.cells c) { refs = 1; deleter = d }) }

  -- A copy of a ChunkRef; copying a null one does nothing.
  unfoldable pub add_ref : Memory Q → Option ℕ → Memory Q
  add_ref m none = m
  add_ref m (some c) = record m {
    cells = update m.cells c (record (m.cells c) { refs = (m.cells c).refs + 1 });
  }

  -- SendBufferChunk::Bump and Rewind on the chunk at an address.
  unfoldable pub bump_at : Memory Q → ℕ → ℕ → Option ℕ × Memory Q
  unfolding bump
  bump_at m c size =
      let (data_index, k) = bump (m.cells c).chunk size in (data_index, set_chunk m c k)

  unfoldable pub rewind_at : Memory Q → ℕ → ℕ → Checked (Memory Q)
  unfolding rewind
  rewind_at m c offset = do k ← rewind (m.cells c).chunk offset; ok (set_chunk m c k)

module _ {Q : Type 0} (queue : ConcurrentQueue Q) where
  -- ChunkPool::Return
  unfoldable pub return_chunk : Memory Q → Option ℕ → Memory Q
  unfolding delete_chunk
  return_chunk m none = m
  return_chunk m (some c) =
      let poolable = (m.cells c).chunk.capacity == default_chunk_capacity in
      if not poolable || leb m.idle_limit (queue.size_approx m.idle)
      then delete_chunk c m
      else let (idle', stored) = queue.enqueue m.idle c in
        let m' = record m { idle = idle' } in if stored then m' else delete_chunk c m'

  abbrev pub run_deleter : Deleter → Memory Q → ℕ → Memory Q
  run_deleter to_pool m c = return_chunk m (some c)
  run_deleter plain m c = delete_chunk c m

  -- The destructor or the reset of a ChunkRef: the last one runs the deleter.
  unfoldable pub release_ref : Memory Q → Option ℕ → Memory Q
  unfolding return_chunk delete_chunk
  release_ref m none = m
  release_ref m (some c) =
      let cell = m.cells c in
      let m' = record m { cells = update m.cells c (record cell { refs = cell.refs - 1 }) } in
      if cell.refs == 1 then run_deleter cell.deleter m' c else m'

  -- The head of ChunkPool::Acquire: an idle chunk, or a new one on a pool miss.
  unfoldable pub take_idle_or_create :
      Memory Q → SendBufferStats → Checked (ℕ × Memory Q × SendBufferStats)
  unfolding new_chunk
  take_idle_or_create m s = elim (queue.try_dequeue m.idle) [
    | some (c, rest) ↦ ok (c, record m { idle = rest }, s)
    | none ↦ do
      (c, m') ← new_chunk default_chunk_capacity m
      ok (c, m', record s { chunk_create_count = add64 s.chunk_create_count 1 })
  ]

  -- ChunkPool::Acquire
  unfoldable pub acquire : Memory Q → SendBufferStats → Checked (ℕ × Memory Q × SendBufferStats)
  unfolding take_idle_or_create own reset
  acquire m s = do
    (c, m', s') ← take_idle_or_create m s
    ok (c, own c to_pool (set_chunk m' c (reset (m'.cells c).chunk)), s')
