-- ===== src/SendBuffer/Buffer.antt =====
-- SendView and SendBuffer. A method takes what its thread sees, a `Caller`: the
-- shared memory, the manager of the thread and the counters of the thread.
use my_utils.Base.{
  ℕ, Bool, true, false, not, Option, none, some, leb, ◌==◌, if◌then◌else◌, add64, sub64,
}
use my_utils.Assert.{Checked, ok, abort, assert, ◌>>=◌, ◌>>◌}
use my_utils.Queue.{ConcurrentQueue}
use my_utils.SendBuffer.Stats.{SendBufferStats}
use my_utils.SendBuffer.Memory.{Memory, add_ref, rewind_at, release_ref}

pub record SendBuffer : Type 0 where
  pub chunk : Option ℕ  -- _chunk
  pub offset : ℕ  -- _offset
  pub capacity : ℕ  -- _capacity

-- `data` of the source is a chunk and an index into its storage.
pub record SendView : Type 0 where
  pub chunk : Option ℕ  -- _chunk
  pub start : Option (ℕ × ℕ)  -- _data
  pub size : ℕ  -- _size

pub record Caller (Q : Type 0) : Type 0 where
  pub memory : Memory Q
  pub current : Option ℕ  -- SendBufferManager::_current
  pub stats : SendBufferStats

abbrev pub empty_buffer : SendBuffer
empty_buffer = record { chunk = none; offset = 0; capacity = 0 }

abbrev pub empty_view : SendView
empty_view = record { chunk = none; start = none; size = 0 }

abbrev pub is_some {ℓ} : {A : Type ℓ} → Option A → Bool
is_some none = false
is_some (some a) = true

-- Equality of two pointers to chunks.
abbrev pub same_chunk : Option ℕ → Option ℕ → Bool
same_chunk none none = true
same_chunk none (some d) = false
same_chunk (some c) none = false
same_chunk (some c) (some d) = c == d

-- Begin() + index
abbrev pub at_index : Option ℕ → ℕ → Option (ℕ × ℕ)
at_index none index = none
at_index (some c) index = some (c, index)

-- SendBuffer::IsValid
abbrev pub is_valid : SendBuffer → Bool
is_valid b = is_some b.chunk

-- SendBuffer(SendBuffer&& other): the new object, and `other` after Clear().
abbrev pub move_buffer : SendBuffer → SendBuffer × SendBuffer
move_buffer other = (other, empty_buffer)

-- SendBuffer::WritableData
unfoldable pub writable_data : SendBuffer → Checked (ℕ × ℕ)
writable_data b = elim b.chunk [ none ↦ abort | some c ↦ ok (c, b.offset) ]

module _ {Q : Type 0} where
  unfoldable pub rewind_if_tail : Caller Q → SendBuffer → ℕ → ℕ → Checked (Caller Q)
  unfolding rewind_at
  rewind_if_tail e b used c =
      if not (same_chunk e.current (some c))
      then ok e
      else if not ((e.memory.cells c).chunk.offset == add64 b.offset b.capacity)
      then ok e
      else do
        m ← rewind_at e.memory c (add64 b.offset used)
        ok (record e {
          memory = m;
          stats = record e.stats {
            reclaimed_bytes = add64 e.stats.reclaimed_bytes (sub64 b.capacity used);
          };
        })

  -- SendBuffer::TryRewind
  unfoldable pub try_rewind : Caller Q → SendBuffer → ℕ → Checked (Caller Q)
  unfolding rewind_if_tail
  try_rewind e b used = elim b.chunk [ none ↦ ok e | some c ↦ rewind_if_tail e b used c ]

  -- A copy of a SendView.
  unfoldable pub copy_view : Caller Q → SendView → Caller Q × SendView
  unfolding add_ref
  copy_view e v = (record e { memory = add_ref e.memory v.chunk }, v)

module _ {Q : Type 0} (queue : ConcurrentQueue Q) where
  abbrev release : Caller Q → Option ℕ → Caller Q
  release e c = record e { memory = release_ref queue e.memory c }

  -- SendBuffer::Clear
  unfoldable pub clear : Caller Q → SendBuffer → Caller Q × SendBuffer
  unfolding release_ref
  clear e b = (release e b.chunk, empty_buffer)

  -- ~SendBuffer(): the body, then the member _chunk.
  unfoldable pub destroy_buffer : Caller Q → SendBuffer → Checked (Caller Q)
  unfolding try_rewind release_ref
  destroy_buffer e b = do e' ← try_rewind e b 0; ok (release e' b.chunk)

  -- SendBuffer::operator=(SendBuffer&& other). `same` says that `other` is this object itself.
  unfoldable pub assign_buffer :
      Caller Q
      → (same : Bool) → SendBuffer
      → SendBuffer
      → Checked (Caller Q × SendBuffer × SendBuffer)
  unfolding try_rewind release_ref
  assign_buffer e same this other =
      if same
      then ok (e, this, other)
      else do e' ← try_rewind e this 0; ok (release e' this.chunk, other, empty_buffer)

  -- SendBuffer::Commit
  unfoldable pub commit : Caller Q → SendBuffer → ℕ → Checked (Caller Q × SendBuffer × SendView)
  unfolding try_rewind clear
  commit e b size = do
    assert (is_valid b)
    assert (leb size b.capacity)
    e' ← try_rewind e b size
    let view : SendView = record { chunk = b.chunk; start = at_index b.chunk b.offset; size = size }
    let moved = record b { chunk = none }
    let counted = record e' {
      stats = record e'.stats { committed_bytes = add64 e'.stats.committed_bytes size };
    }
    let (e'', cleared) = clear counted moved
    ok (e'', cleared, view)

  -- The end of a SendView.
  unfoldable pub destroy_view : Caller Q → SendView → Caller Q
  unfolding release_ref
  destroy_view e v = release e v.chunk

  -- SendBufferManager::ReleaseCurrentChunk, and what ~SendBufferManager does to _current.
  unfoldable pub release_current_chunk : Caller Q → Caller Q
  unfolding release_ref
  release_current_chunk e = record (release e e.current) { current = none }
