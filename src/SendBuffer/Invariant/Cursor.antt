-- ===== src/SendBuffer/Invariant/Cursor.antt =====
-- The cursor of a chunk moves: up by Bump, and down by Rewind past the last object below it.
use my_utils.Base.{ℕ, ◌+◌, ◌≤◌, ◌<◌, ◌≡◌, ap, true, some, none, arith}
use my_utils.Queue.{ConcurrentQueue}
use my_utils.SendBuffer.Chunk.Laws.{bump-fits, bump-refuses}
use my_utils.SendBuffer.Memory.{Memory, set_chunk, bump_at}
use my_utils.SendBuffer.World.{Object, buffer}
use my_utils.SendBuffer.Manager.{buffer_at}
use my_utils.SendBuffer.Invariant.Defs.{chunk_of, span_start, span_size, Inv}
use my_utils.SendBuffer.Invariant.Transfers.{Fits}

-- Every object of the chunk `c` ends at or below `limit`.
abbrev pub EndsBelow : (ℕ → Object) → ℕ → ℕ → Type 0
EndsBelow objects c limit =
    (i : ℕ)
    → chunk_of (objects i) ≡ some c
    → 0 < span_size (objects i)
    → span_start (objects i) + span_size (objects i) ≤ limit

module _ {Q : Type 0} {queue : ConcurrentQueue Q} {n : ℕ} {extra : ℕ → ℕ} {m : Memory Q}
    {objects : ℕ → Object} (inv : Inv queue n extra m objects) where
  pub set_cursor-Inv :
      (c offset : ℕ)
      → offset ≤ (m.cells c).chunk.capacity
      → EndsBelow objects c offset
      → Inv queue n extra (set_chunk m c (record (m.cells c).chunk { offset = offset })) objects
  set_cursor-Inv c offset room below = record {
    counted = λ d. ground (arith, inv.counted d);
    held_alive = λ d p. ground (arith, inv.held_alive d);
    fresh = λ d p. ground (arith, inv.fresh d);
    fits = λ d p. ground (arith, inv.fits d);
    idle_once = inv.idle_once;
    idle_free = λ d p. ground (arith, inv.idle_free d);
    bounded = inv.bounded;
    sole = inv.sole;
    pooled = λ i d p. ground (arith, inv.pooled i d);
    formed = inv.formed;
    within = λ i d p q. ground (arith, inv.within i d, below i);
    disjoint = inv.disjoint;
  }

  pub bump_at-fits :
      (c size : ℕ)
      → (m.cells c).alive ≡ true
      → (m.cells c).chunk.offset + size ≤ (m.cells c).chunk.capacity
      → bump_at m c size ≡ (
        some (m.cells c).chunk.offset,
        set_chunk m c (record (m.cells c).chunk { offset = (m.cells c).chunk.offset + size }),
      )
  unfolding bump_at
  bump_at-fits c size alive room =
      ap (λ r. (r.0, set_chunk m c r.1))
        (bump-fits (m.cells c).chunk size room (omega (arith, (inv.fits c alive).2)))

  pub bump_at-refuses :
      (c size : ℕ)
      → (m.cells c).alive ≡ true
      → (m.cells c).chunk.capacity < (m.cells c).chunk.offset + size
      → bump_at m c size ≡ (none, set_chunk m c (m.cells c).chunk)
  unfolding bump_at
  bump_at-refuses c size alive room =
      ap (λ r. (r.0, set_chunk m c r.1))
        (bump-refuses (m.cells c).chunk size (inv.fits c alive).0 room
          (omega (arith, (inv.fits c alive).2)))

  -- The bytes above the old cursor make a buffer.
  pub buffer_at-Fits :
      (i c offset size : ℕ)
      → 0 < size
      → EndsBelow objects c offset
      → offset + size ≤ (m.cells c).chunk.offset
      → Fits m objects i (buffer (buffer_at c offset size))
  buffer_at-Fits i c offset size pos below room = record {
    sole = λ j d p q. cc;
    pooled = λ d p. cc;
    formed = pos;
    within = λ d p q. ground arith;
    disjoint = λ j d ne w p q r s. ground (arith, below j);
  }
