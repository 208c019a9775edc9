-- ===== src/SendBuffer/Chunk.antt =====
-- SendBufferChunk: a storage area with a bump cursor. A pointer into the storage is its index.
pub mod Laws
use my_utils.Base.{ℕ, Option, none, some, ltb, leb, if◌then◌else◌, add64, sub64}
use my_utils.Assert.{Checked, ok, assert, ◌>>◌}

pub record Chunk : Type 0 where
  pub capacity : ℕ  -- _capacity
  pub offset : ℕ  -- _offset

unfoldable pub reset : Chunk → Chunk
reset k = record k { offset = 0 }

unfoldable pub free_size : Chunk → ℕ
free_size k = sub64 k.capacity k.offset

-- The index of the new area, with the chunk after the call; `none` is nullptr.
unfoldable pub bump : Chunk → ℕ → Option ℕ × Chunk
bump k size =
    if ltb (sub64 k.capacity k.offset) size
    then (none, k)
    else (some k.offset, record k { offset = add64 k.offset size })

unfoldable pub rewind : Chunk → ℕ → Checked Chunk
rewind k offset = do assert (leb offset k.offset); ok (record k { offset = offset })
