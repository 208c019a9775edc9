-- ===== src/SendBuffer/Chunk/Laws.antt =====
-- The cursor arithmetic of SendBufferChunk, on words, is exact.
use my_utils.Base.{ℕ, ◌+◌, ◌-◌, ◌^◌, ◌≤◌, ◌<◌, ◌≡◌, none, some, arith, leb, if◌then◌else◌}
use my_utils.SendBuffer.Chunk.{Chunk, bump, free_size}

-- Where the cursor is not above a capacity that is a word, Bump takes exactly the requests that
-- fit into the bytes left, hands out the old cursor and moves it by the size, without wrapping;
-- and it leaves the chunk as it was when it refuses.
pub bump_lem :
    (k : Chunk) (size : ℕ)
    → k.offset ≤ k.capacity
    → k.capacity < 2 ^ 64
    → bump k size ≡ (
        if leb size (k.capacity - k.offset)
        then (some k.offset, record k { offset = k.offset + size })
        else (none, k))
unfolding bump
bump_lem k size h w = ground arith

pub free_size_lem :
    (k : Chunk) → k.offset ≤ k.capacity → k.capacity < 2 ^ 64 → free_size k ≡ k.capacity - k.offset
unfolding free_size
free_size_lem k h w = omega arith

pub bump-fits :
    (k : Chunk) (size : ℕ)
    → k.offset + size ≤ k.capacity
    → k.capacity < 2 ^ 64
    → bump k size ≡ (some k.offset, record k { offset = k.offset + size })
unfolding bump
bump-fits k size h w = ground arith

pub bump-refuses :
    (k : Chunk) (size : ℕ)
    → k.offset ≤ k.capacity
    → k.capacity < k.offset + size
    → k.capacity < 2 ^ 64
    → bump k size ≡ (none, k)
unfolding bump
bump-refuses k size h r w = ground arith
