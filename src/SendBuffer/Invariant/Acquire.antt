-- ===== src/SendBuffer/Invariant/Acquire.antt =====
-- New references to chunks that nobody refers to: from the pool, or to a new chunk.
use my_utils.Base.{
  ℕ, ◌+◌, ◌≤◌, ◌<◌, ◌≡◌, ◌≢◌, refl, inl, inr, true, some, arith, add64, Option-cases,
}
use my_utils.Assert.{ok}
use my_utils.Queue.{ConcurrentQueue}
use my_utils.SendBuffer.Constants.{default_chunk_capacity, max_send_buffer_size}
use my_utils.SendBuffer.Stats.{SendBufferStats}
use my_utils.SendBuffer.Chunk.{reset}
use my_utils.SendBuffer.Memory.{
  Memory, Cell, Deleter, to_pool, set_chunk, with_chunk, own, take_idle_or_create, acquire,
}
use my_utils.SendBuffer.World.{Object}
use my_utils.SendBuffer.Invariant.Defs.{chunk_of, Inv}
use my_utils.SendBuffer.Invariant.Cells.{plus, rewrite_cell-Inv, requeue-Inv, refs_zero}

-- A chunk that waits for its first owner.
pub record IsSpare {Q : Type 0} (queue : ConcurrentQueue Q) (m : Memory Q) (c : ℕ) : Type 0 where
  pub unheld : (m.cells c).refs ≡ 0
  pub alive : (m.cells c).alive ≡ true
  pub not_idle : queue.copies m.idle c ≡ 0

abbrev pub owned_cell : ℕ → Deleter → Cell
owned_cell capacity d = record {
  chunk = record { capacity = capacity; offset = 0 };
  refs = 1;
  deleter = d;
  alive = true;
}

module _ {Q : Type 0} {queue : ConcurrentQueue Q} {n : ℕ} {extra : ℕ → ℕ} {m : Memory Q}
    {objects : ℕ → Object} (inv : Inv queue n extra m objects) where
  spare-lt-next : (c : ℕ) → (m.cells c).alive ≡ true → c < m.next
  spare-lt-next c h = ground (arith, inv.fresh c)

  reset-Inv :
      (c : ℕ)
      → IsSpare queue m c
      → Inv queue n extra (set_chunk m c (reset (m.cells c).chunk)) objects
  unfolding reset
  reset-Inv c s =
      rewrite_cell-Inv inv c (record (m.cells c) { chunk = reset (m.cells c).chunk }) m.next _ _
        extra (λ d. ground arith) s.unheld s.not_idle (λ h. s.alive)
        (λ h. ground (arith, inv.fits c)) (λ h. spare-lt-next c s.alive) (ground arith)

  pub own-Inv :
      (c : ℕ) (d : Deleter)
      → IsSpare queue m c
      → Inv queue n (plus extra (some c)) (own c d m) objects
  unfolding own
  own-Inv c d s =
      rewrite_cell-Inv inv c (record (m.cells c) { refs = 1; deleter = d }) m.next _ _ _
        (λ e. ground arith) s.unheld s.not_idle (λ h. s.alive) (λ h. inv.fits c s.alive)
        (λ h. spare-lt-next c s.alive) (ground arith)

  next_unheld : (m.cells m.next).refs ≡ 0
  next_unheld = ground (arith, inv.held_alive m.next, inv.fresh m.next)

  next_not_idle : queue.copies m.idle m.next ≡ 0
  next_not_idle = ground (arith, inv.idle_free m.next, inv.fresh m.next)

  pub with_chunk-Inv :
      (capacity : ℕ)
      → 0 < capacity
      → capacity ≤ max_send_buffer_size
      → Inv queue n extra (with_chunk capacity m) objects
  with_chunk-Inv capacity pos small =
      rewrite_cell-Inv inv m.next _ (m.next + 1) _ _ extra (λ d. ground arith) next_unheld
        next_not_idle (λ h. refl) (λ h. omega arith) (λ h. omega arith) (omega arith)

  pub with_chunk-IsSpare : (capacity : ℕ) → IsSpare queue (with_chunk capacity m) m.next
  with_chunk-IsSpare capacity = record {
    unheld = ground arith;
    alive = ground arith;
    not_idle = next_not_idle;
  }

  pub next_unknown : (i : ℕ) → chunk_of (objects i) ≢ some m.next
  next_unknown i = refs_zero inv i m.next next_unheld

  -- A dequeue hands out a spare chunk.
  pub dequeue-Inv :
      (c : ℕ) (rest : Q)
      → queue.try_dequeue m.idle ≡ some (c, rest)
      → Inv queue n extra (record m { idle = rest }) objects
        × IsSpare queue (record m { idle = rest }) c
        × ((m.cells c).chunk.capacity ≡ default_chunk_capacity)
  dequeue-Inv c rest e = (
    requeue-Inv inv rest (λ d. omega (arith, queue.copies-try_dequeue m.idle rest c d e)),
    record {
      unheld = (inv.idle_free c taken).0;
      alive = (inv.idle_free c taken).1;
      not_idle = ground (arith, queue.copies-try_dequeue m.idle rest c c e, inv.idle_once c);
    },
    (inv.idle_free c taken).2,
  )
    where
      taken : 0 < queue.copies m.idle c
      taken = ground (arith, queue.copies-try_dequeue m.idle rest c c e)

-- What ChunkPool::Acquire does to a spare chunk of the common size.
abbrev claim : {Q : Type 0} → Memory Q → ℕ → Memory Q
claim m c = own c to_pool (set_chunk m c (reset (m.cells c).chunk))

-- The new owner holds the only reference to `c`, and nothing of the chunk is used.
pub record Acquired {Q : Type 0} (queue : ConcurrentQueue Q) (n : ℕ) (extra : ℕ → ℕ)
    (objects : ℕ → Object) (c : ℕ) (m : Memory Q) : Type 0 where
  pub inv : Inv queue n (plus extra (some c)) m objects
  pub cell : m.cells c ≡ owned_cell default_chunk_capacity to_pool
  pub unknown : (i : ℕ) → chunk_of (objects i) ≢ some c

module _ {Q : Type 0} {queue : ConcurrentQueue Q} {n : ℕ} {extra : ℕ → ℕ} {m : Memory Q}
    {objects : ℕ → Object} (inv : Inv queue n extra m objects) where
  claim-Acquired :
      (c : ℕ)
      → IsSpare queue m c
      → (m.cells c).chunk.capacity ≡ default_chunk_capacity
      → Acquired queue n extra objects c (claim m c)
  unfolding reset own
  claim-Acquired c s cap = record {
    inv = own-Inv (reset-Inv inv c s) c to_pool (ground (arith, s));
    cell = ground (arith, s);
    unknown = λ i. refs_zero inv i c s.unheld;
  }

module _ {Q : Type 0} {queue : ConcurrentQueue Q} {n : ℕ} {extra : ℕ → ℕ} {m : Memory Q}
    {objects : ℕ → Object} (inv : Inv queue n extra m objects) where
  -- ChunkPool::Acquire always returns a chunk, and its new owner is alone with it.
  pub acquire-Acquired :
      (s : SendBufferStats)
      → (c : ℕ) × (m' : Memory Q) × (s' : SendBufferStats) × (acquire queue m s ≡ ok (c, m', s'))
        × Acquired queue n extra objects c m'
  unfolding acquire
  acquire-Acquired s = elim (Option-cases (queue.try_dequeue m.idle)) [
    | inl miss ↦ (
      m.next,
      claim (with_chunk default_chunk_capacity m) m.next,
      record s { chunk_create_count = add64 s.chunk_create_count 1 },
      rw (miss, take_idle_or_create, acquire) refl,
      claim-Acquired (with_chunk-Inv inv default_chunk_capacity (omega arith) (omega arith)) m.next
          (with_chunk-IsSpare inv default_chunk_capacity) (ground arith),
    )
    | inr ((c, rest), hit) ↦
        let (inv', spare, cap) = dequeue-Inv inv c rest hit in
        (
          c,
          claim (record m { idle = rest }) c,
          s,
          rw (hit, take_idle_or_create, acquire) refl,
          claim-Acquired inv' c spare cap,
        )
  ]
