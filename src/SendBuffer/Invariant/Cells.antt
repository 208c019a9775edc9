-- ===== src/SendBuffer/Invariant/Cells.antt =====
-- Changes of one cell, and of the counts of references.
use my_utils.Base.{
  ℕ, ◌+◌, ◌≤◌, ◌<◌, ◌≡◌, ◌≢◌, refl, true, false, Option, none, some, arith, ◌==◌, if◌then◌else◌,
  update, le-tally, Bool-cases, dec_lt,
}
use my_utils.Queue.{ConcurrentQueue}
use my_utils.SendBuffer.Constants.{default_chunk_capacity, max_send_buffer_size}
use my_utils.SendBuffer.Memory.{Memory, Cell, delete_chunk, add_ref}
use my_utils.SendBuffer.World.{Object}
use my_utils.SendBuffer.Invariant.Defs.{chunk_of, manager_chunk, held, holds, Inv}

-- The references `extra`, and one more where `o` is a chunk.
abbrev pub plus : (ℕ → ℕ) → Option ℕ → ℕ → ℕ
plus extra o c = extra c + held o c

abbrev pub FitsCell : Cell → Type 0
FitsCell k =
    (k.chunk.offset ≤ k.chunk.capacity)
    × (0 < k.chunk.capacity)
    × (k.chunk.capacity ≤ max_send_buffer_size)

pub manager_chunk-chunk_of : (o : Object) (c : ℕ) → manager_chunk o ≡ some c → chunk_of o ≡ some c
manager_chunk-chunk_of (Object.manager current) c h = h
manager_chunk-chunk_of o c h = cc

module _ {Q : Type 0} {queue : ConcurrentQueue Q} {n : ℕ} {extra : ℕ → ℕ} {m : Memory Q}
    {objects : ℕ → Object} (inv : Inv queue n extra m objects) where
  -- A chunk that an object refers to is counted.
  pub refs_pos : (i c : ℕ) → chunk_of (objects i) ≡ some c → 0 < (m.cells c).refs
  refs_pos i c h = elim (dec_lt i n) [
    | yes lt ↦ ground (arith, inv.counted c, le-tally (holds c) n objects i lt)
    | no ge ↦ ground (arith, inv.bounded i)
  ]

  pub refs_zero : (i c : ℕ) → (m.cells c).refs ≡ 0 → chunk_of (objects i) ≢ some c
  refs_zero i c z h = omega (arith, refs_pos i c h)

  -- A cell that nobody refers to may be rewritten, unless it lies in the pool.
  pub rewrite_cell-Inv :
      (c : ℕ) (k : Cell) (next live_count live_bytes : ℕ) (extra' : ℕ → ℕ)
      → ((d : ℕ) → extra' d ≡ extra d + (if c == d then k.refs else 0))
      → (m.cells c).refs ≡ 0
      → queue.copies m.idle c ≡ 0
      → (0 < k.refs → k.alive ≡ true)
      → (k.alive ≡ true → FitsCell k)
      → (k.alive ≡ true → c < next)
      → m.next ≤ next
      → Inv queue n extra'
          (record m {
            cells = update m.cells c k;
            next = next;
            live_chunk_count = live_count;
            live_chunk_bytes = live_bytes;
          })
          objects
  rewrite_cell-Inv c k next lc lb extra' more z idle held fits new up = record {
    counted = λ d. ground (arith, inv.counted d, more d);
    held_alive = λ d h. ground (arith, inv.held_alive d);
    fresh = λ d h. ground (arith, inv.fresh d, Bool-cases k.alive);
    fits = λ d h. ground (arith, inv.fits d);
    idle_once = inv.idle_once;
    idle_free = λ d h. ground (arith, inv.idle_free d);
    bounded = inv.bounded;
    sole = inv.sole;
    pooled = λ i d h.
        ground (arith, inv.pooled i d, refs_zero i d, manager_chunk-chunk_of (objects i) d);
    formed = inv.formed;
    within = λ i d h p. ground (arith, inv.within i d, refs_zero i d);
    disjoint = inv.disjoint;
  }

  pub delete_chunk-Inv :
      (c : ℕ)
      → (m.cells c).refs ≡ 0
      → queue.copies m.idle c ≡ 0
      → Inv queue n extra (delete_chunk c m) objects
  unfolding delete_chunk
  delete_chunk-Inv c z idle =
      rewrite_cell-Inv c (record (m.cells c) { alive = false }) m.next _ _ extra (λ d. ground arith)
        z idle (λ h. ground arith) (λ h. cc) (λ h. cc) (ground arith)

  -- Only the numbers of the references under way matter.
  pub recount-Inv : (extra' : ℕ → ℕ) → ((c : ℕ) → extra' c ≡ extra c) → Inv queue n extra' m objects
  recount-Inv extra' same = record {
    counted = λ d. omega (arith, inv.counted d, same d);
    held_alive = inv.held_alive;
    fresh = inv.fresh;
    fits = inv.fits;
    idle_once = inv.idle_once;
    idle_free = inv.idle_free;
    bounded = inv.bounded;
    sole = inv.sole;
    pooled = inv.pooled;
    formed = inv.formed;
    within = inv.within;
    disjoint = inv.disjoint;
  }

  pub add_ref-Inv :
      (o : Option ℕ)
      → ((c : ℕ) → o ≡ some c → 0 < (m.cells c).refs)
      → Inv queue n (plus extra o) (add_ref m o) objects
  unfolding add_ref
  add_ref-Inv none h = recount-Inv (plus extra none) (λ c. omega arith)
  add_ref-Inv (some c) h = record {
    counted = λ d. ground (arith, inv.counted d);
    held_alive = λ d p. ground (arith, inv.held_alive d, h c refl);
    fresh = λ d p. ground (arith, inv.fresh d);
    fits = λ d p. ground (arith, inv.fits d);
    idle_once = inv.idle_once;
    idle_free = λ d p. ground (arith, inv.idle_free d, h c refl);
    bounded = inv.bounded;
    sole = inv.sole;
    pooled = λ i d p. ground (arith, inv.pooled i d);
    formed = inv.formed;
    within = λ i d p q. ground (arith, inv.within i d);
    disjoint = inv.disjoint;
  }

module _ {Q : Type 0} {queue : ConcurrentQueue Q} {n : ℕ} {extra : ℕ → ℕ} {m : Memory Q}
    {objects : ℕ → Object} (inv : Inv queue n extra m objects) where
  -- An enqueue that succeeds, of a chunk that nobody refers to.
  pub enqueue-Inv :
      (c : ℕ)
      → (m.cells c).refs ≡ 0
      → (m.cells c).alive ≡ true
      → (m.cells c).chunk.capacity ≡ default_chunk_capacity
      → queue.copies m.idle c ≡ 0
      → (queue.enqueue m.idle c).1 ≡ true
      → Inv queue n extra (record m { idle = (queue.enqueue m.idle c).0 }) objects
  enqueue-Inv c z alive cap idle e = record {
    counted = inv.counted;
    held_alive = inv.held_alive;
    fresh = inv.fresh;
    fits = inv.fits;
    idle_once = λ d. ground (arith, inv.idle_once d, queue.copies-enqueue m.idle c d e);
    idle_free = λ d p. ground (arith, inv.idle_free d, queue.copies-enqueue m.idle c d e);
    bounded = inv.bounded;
    sole = inv.sole;
    pooled = inv.pooled;
    formed = inv.formed;
    within = inv.within;
    disjoint = inv.disjoint;
  }

  -- A queue with the same contents serves as well.
  pub requeue-Inv :
      (q : Q)
      → ((d : ℕ) → queue.copies q d ≤ queue.copies m.idle d)
      → Inv queue n extra (record m { idle = q }) objects
  requeue-Inv q same = record {
    counted = inv.counted;
    held_alive = inv.held_alive;
    fresh = inv.fresh;
    fits = inv.fits;
    idle_once = λ d. omega (arith, inv.idle_once d, same d);
    idle_free = λ d p. inv.idle_free d (omega (arith, same d));
    bounded = inv.bounded;
    sole = inv.sole;
    pooled = inv.pooled;
    formed = inv.formed;
    within = inv.within;
    disjoint = inv.disjoint;
  }

  pub relimit-Inv : (limit : ℕ) → Inv queue n extra (record m { idle_limit = limit }) objects
  relimit-Inv limit = record {
    counted = inv.counted;
    held_alive = inv.held_alive;
    fresh = inv.fresh;
    fits = inv.fits;
    idle_once = inv.idle_once;
    idle_free = inv.idle_free;
    bounded = inv.bounded;
    sole = inv.sole;
    pooled = inv.pooled;
    formed = inv.formed;
    within = inv.within;
    disjoint = inv.disjoint;
  }
