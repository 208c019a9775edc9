-- ===== src/SendBuffer/Safety.antt =====
-- What holds in every world that a program can reach with the send buffer API.
use my_utils.Base.{ℕ, ◌+◌, ◌≤◌, ◌<◌, ◌≡◌, ◌≢◌, true, some, arith}
use my_utils.Queue.{ConcurrentQueue}
use my_utils.SendBuffer.Constants.{default_chunk_capacity, max_send_buffer_size}
use my_utils.SendBuffer.Buffer.{SendBuffer}
use my_utils.SendBuffer.World.{World, manager, buffer, Reach}
use my_utils.SendBuffer.Invariant.Defs.{chunk_of, span_start, span_size, IsApart}
use my_utils.SendBuffer.Invariant.Cells.{refs_pos}
use my_utils.SendBuffer.Steps.{Reach-Inv}

module _ {Q : Type 0} {queue : ConcurrentQueue Q} {n : ℕ} {w : World Q}
    (reached : Reach queue n w) where
  -- In every reachable world, a chunk that a manager, a buffer or a view refers to has not been
  -- destroyed, does not lie in the pool, and was handed out by the allocator.
  pub no_use_after_free :
      (i c : ℕ)
      → chunk_of (w.objects i) ≡ some c
      → ((w.memory.cells c).alive ≡ true) × (queue.copies w.memory.idle c ≡ 0) × (c < w.memory.next)
  no_use_after_free i c h =
      let inv = Reach-Inv reached in
      let held = refs_pos inv i c h in
      (
        inv.held_alive c held,
        ground (arith, inv.idle_free c),
        ground (arith, inv.held_alive c held, inv.fresh c),
      )

  -- In every reachable world, the bytes of a buffer lie apart from the bytes of every other buffer
  -- or view of the same chunk, so that writing through the buffer changes no committed bytes.
  pub buffers_are_exclusive :
      (i j c : ℕ) (b : SendBuffer)
      → i ≢ j
      → w.objects i ≡ buffer b
      → b.chunk ≡ some c
      → chunk_of (w.objects j) ≡ some c
      → 0 < span_size (w.objects j)
      → IsApart b.offset b.capacity (span_start (w.objects j)) (span_size (w.objects j))
  buffers_are_exclusive i j c b ne h chunk hj pos =
      let inv = Reach-Inv reached in ground (arith, inv.disjoint i j c, inv.formed i)

  -- In every reachable world, a chunk is the current chunk of at most one manager, and such a
  -- chunk has the common capacity.
  pub one_owner :
      (t s c : ℕ)
      → w.objects t ≡ manager (some c)
      → w.objects s ≡ manager (some c)
      → (t ≡ s) × ((w.memory.cells c).chunk.capacity ≡ default_chunk_capacity)
  one_owner t s c ht hs =
      let inv = Reach-Inv reached in
      (inv.sole t s c (ground arith) (ground arith), (inv.pooled t c (ground arith)).1)

  -- In every reachable world, the bytes of every buffer and view lie inside the storage of their
  -- chunk and below its cursor, and the storage has at most the largest size of a request or of
  -- a common chunk.
  pub spans_in_bounds :
      (i c : ℕ)
      → chunk_of (w.objects i) ≡ some c
      → 0 < span_size (w.objects i)
      → (span_start (w.objects i) + span_size (w.objects i) ≤ (w.memory.cells c).chunk.offset)
        × ((w.memory.cells c).chunk.offset ≤ (w.memory.cells c).chunk.capacity)
        × ((w.memory.cells c).chunk.capacity ≤ max_send_buffer_size)
  spans_in_bounds i c h pos =
      let inv = Reach-Inv reached in
      let fits = inv.fits c (inv.held_alive c (refs_pos inv i c h)) in
      (inv.within i c h pos, fits.0, fits.2)
