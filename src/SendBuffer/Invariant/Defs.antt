-- ===== src/SendBuffer/Invariant/Defs.antt =====
-- The invariant that ties the objects of a program to the chunks that they refer to.
use my_utils.Base.{
  ℕ, ◌+◌, ◌≤◌, ◌<◌, ◌≡◌, ◌≢◌, ◌⊎◌, Bool, true, false, ◌||◌, false, Option, none, some, ◌==◌, tally,
}
use my_utils.Queue.{ConcurrentQueue, one_if}
use my_utils.SendBuffer.Constants.{default_chunk_capacity, max_send_buffer_size}
use my_utils.SendBuffer.Memory.{Memory, to_pool}
use my_utils.SendBuffer.Buffer.{at_index}
use my_utils.SendBuffer.World.{Object, free, manager, buffer, view}

-- The chunk that an object holds a reference to.
abbrev pub chunk_of : Object → Option ℕ
chunk_of free = none
chunk_of (manager current) = current
chunk_of (buffer b) = b.chunk
chunk_of (view v) = v.chunk

abbrev pub manager_chunk : Object → Option ℕ
manager_chunk (manager current) = current
manager_chunk _ = none

-- The objects through which a program writes.
abbrev pub is_buffer : Object → Bool
is_buffer (buffer b) = true
is_buffer _ = false

abbrev pub index_of : Option (ℕ × ℕ) → ℕ
index_of none = 0
index_of (some (c, index)) = index

-- The bytes of its chunk that an object may read or write.
abbrev pub span_start : Object → ℕ
span_start (buffer b) = b.offset
span_start (view v) = index_of v.start
span_start _ = 0

abbrev pub span_size : Object → ℕ
span_size (buffer b) = b.capacity
span_size (view v) = v.size
span_size _ = 0

-- How many references to the chunk `c` an optional reference is.
abbrev pub held : Option ℕ → ℕ → ℕ
held none c = 0
held (some d) c = one_if (d == c)

abbrev pub holds : ℕ → Object → ℕ
holds c o = held (chunk_of o) c

abbrev IsFilled : Option ℕ → ℕ → Type 0
IsFilled none size = Unit {0}
IsFilled (some c) size = 0 < size

-- A buffer with a chunk has room for a byte; the pointer of a view points into its chunk.
abbrev pub IsFormed : Object → Type 0
IsFormed (buffer b) = IsFilled b.chunk b.capacity
IsFormed (view v) = v.start ≡ at_index v.chunk (index_of v.start)
IsFormed _ = Unit {0}

abbrev pub IsApart : ℕ → ℕ → ℕ → ℕ → Type 0
IsApart s m t n = (s + m ≤ t) ⊎ (t + n ≤ s)

-- `extra c` references to `c` are in the hands of calls that are under way.
pub record Inv {Q : Type 0} (queue : ConcurrentQueue Q) (n : ℕ) (extra : ℕ → ℕ) (m : Memory Q)
    (objects : ℕ → Object) : Type 0 where
  pub counted : (c : ℕ) → (m.cells c).refs ≡ tally (holds c) n objects + extra c
  pub held_alive : (c : ℕ) → 0 < (m.cells c).refs → (m.cells c).alive ≡ true
  pub fresh : (c : ℕ) → m.next ≤ c → (m.cells c).alive ≡ false
  pub fits :
      (c : ℕ)
      → (m.cells c).alive ≡ true
      → ((m.cells c).chunk.offset ≤ (m.cells c).chunk.capacity)
        × (0 < (m.cells c).chunk.capacity)
        × ((m.cells c).chunk.capacity ≤ max_send_buffer_size)
  pub idle_once : (c : ℕ) → queue.copies m.idle c ≤ 1
  pub idle_free :
      (c : ℕ)
      → 0 < queue.copies m.idle c
      → ((m.cells c).refs ≡ 0)
        × ((m.cells c).alive ≡ true)
        × ((m.cells c).chunk.capacity ≡ default_chunk_capacity)
  pub bounded : (i : ℕ) → n ≤ i → objects i ≡ free
  pub sole :
      (i j c : ℕ) → manager_chunk (objects i) ≡ some c → manager_chunk (objects j) ≡ some c → i ≡ j
  pub pooled :
      (i c : ℕ)
      → manager_chunk (objects i) ≡ some c
      → ((m.cells c).deleter ≡ to_pool) × ((m.cells c).chunk.capacity ≡ default_chunk_capacity)
  pub formed : (i : ℕ) → IsFormed (objects i)
  pub within :
      (i c : ℕ)
      → chunk_of (objects i) ≡ some c
      → 0 < span_size (objects i)
      → span_start (objects i) + span_size (objects i) ≤ (m.cells c).chunk.offset
  -- The bytes of a buffer belong to no other object. Copies of a view share theirs.
  pub disjoint :
      (i j c : ℕ)
      → i ≢ j
      → (is_buffer (objects i) || is_buffer (objects j)) ≡ true
      → chunk_of (objects i) ≡ some c
      → chunk_of (objects j) ≡ some c
      → 0 < span_size (objects i)
      → 0 < span_size (objects j)
      → IsApart
          (span_start (objects i))
          (span_size (objects i))
          (span_start (objects j))
          (span_size (objects j))
