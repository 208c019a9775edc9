-- ===== src/SendBuffer/Manager.antt =====
-- SendBufferManager::Reserve and ReleaseCurrentChunk, split at the returns of the source.
use my_utils.Base.{ℕ, ◌||◌, none, some, ltb, ◌==◌, if◌then◌else◌, add64}
use my_utils.Assert.{Checked, ok, assert, ◌>>=◌, ◌>>◌}
use my_utils.Queue.{ConcurrentQueue}
use my_utils.SendBuffer.Constants.{max_send_buffer_size, large_allocation_threshold}
use my_utils.SendBuffer.Chunk.{free_size}
use my_utils.SendBuffer.Memory.{plain, new_chunk, own, add_ref, bump_at, release_ref, acquire}
use my_utils.SendBuffer.Buffer.{Caller, SendBuffer, empty_buffer, is_some}

abbrev pub buffer_at : ℕ → ℕ → ℕ → SendBuffer
buffer_at c offset capacity = record { chunk = some c; offset = offset; capacity = capacity }

module _ {Q : Type 0} where
  -- The request above the threshold, which gets a chunk of its own.
  unfoldable pub reserve_solo : Caller Q → ℕ → Checked (Caller Q × SendBuffer)
  reserve_solo e capacity = do
    (c, m) ← new_chunk capacity e.memory
    let (start, m') = bump_at (own c plain m) c capacity
    assert (is_some start)
    ok (
      record e {
        memory = m';
        stats = record e.stats { large_alloc_count = add64 e.stats.large_alloc_count 1 };
      },
      buffer_at c 0 capacity,
    )

module _ {Q : Type 0} (queue : ConcurrentQueue Q) where
  -- A new current chunk. The old one is let go after the new one is in place.
  unfoldable pub replace_chunk : Caller Q → ℕ → Checked (Caller Q × SendBuffer)
  replace_chunk e capacity = do
    (c, m, s) ← acquire queue e.memory e.stats
    let released = release_ref queue m e.current
    let (start, m') = bump_at released c capacity
    assert (is_some start)
    ok (
      record {
        memory = add_ref m' (some c);
        current = some c;
        stats = record s { chunk_acquire_count = add64 s.chunk_acquire_count 1 };
      },
      buffer_at c 0 capacity,
    )

  -- The request at or below the threshold.
  unfoldable pub reserve_small : Caller Q → ℕ → Checked (Caller Q × SendBuffer)
  reserve_small e capacity = elim e.current [
    | none ↦ replace_chunk e capacity
    | some c ↦
        let offset = (e.memory.cells c).chunk.offset in
        let (start, m) = bump_at e.memory c capacity in
        if is_some start
        then ok (record e { memory = add_ref m (some c) }, buffer_at c offset capacity)
        else replace_chunk
            (record e {
              memory = m;
              stats = record e.stats {
                discarded_bytes = add64 e.stats.discarded_bytes (free_size (m.cells c).chunk);
              };
            })
            capacity
  ]

  -- SendBufferManager::Reserve
  unfoldable pub reserve : Caller Q → ℕ → Checked (Caller Q × SendBuffer)
  reserve e capacity =
      let s = record e.stats { reserve_count = add64 e.stats.reserve_count 1 } in
      if capacity == 0 || ltb max_send_buffer_size capacity
      then ok (
        record e { stats = record s { reserve_fail_count = add64 s.reserve_fail_count 1 } },
        empty_buffer,
      )
      else let counted = record e {
        stats = record s { reserved_bytes = add64 s.reserved_bytes capacity };
      } in
        if ltb large_allocation_threshold capacity
        then reserve_solo counted capacity
        else reserve_small counted capacity
