-- ===== src/SendBuffer/Invariant/Release.antt =====
-- The end of a ChunkRef: the last one gives the chunk back to the pool or destroys it.
use my_utils.Base.{
  ℕ, ◌-◌, ◌≡◌, refl, inl, inr, true, Option, none, some, arith, ◌==◌, leb, update, Bool-cases,
}
use my_utils.Queue.{ConcurrentQueue}
use my_utils.SendBuffer.Constants.{default_chunk_capacity}
use my_utils.SendBuffer.Memory.{
  Memory, Deleter, to_pool, plain, return_chunk, release_ref, run_deleter,
}
use my_utils.SendBuffer.World.{Object}
use my_utils.SendBuffer.Invariant.Defs.{Inv}
use my_utils.SendBuffer.Invariant.Cells.{
  plus, delete_chunk-Inv, enqueue-Inv, requeue-Inv, recount-Inv,
}

module _ {Q : Type 0} {queue : ConcurrentQueue Q} {n : ℕ} {extra : ℕ → ℕ} {m : Memory Q}
    {objects : ℕ → Object} (inv : Inv queue n extra m objects) (c : ℕ) (z : (m.cells c).refs ≡ 0)
    (alive : (m.cells c).alive ≡ true) (idle : queue.copies m.idle c ≡ 0) where
  return_chunk-Inv : Inv queue n extra (return_chunk queue m (some c)) objects
  unfolding return_chunk
  return_chunk-Inv = elim (Bool-cases ((m.cells c).chunk.capacity == default_chunk_capacity)) [
    | inr odd ↦ rw (odd, return_chunk) (delete_chunk-Inv inv c z idle)
    | inl poolable ↦ elim (Bool-cases (leb m.idle_limit (queue.size_approx m.idle))) [
      | inl full ↦ rw (poolable, full, return_chunk) (delete_chunk-Inv inv c z idle)
      | inr room ↦ elim (Bool-cases (queue.enqueue m.idle c).1) [
        | inl stored ↦
            rw (poolable, room, stored, return_chunk)
              (enqueue-Inv inv c z alive (ground arith) idle stored)
        | inr lost ↦
            rw (poolable, room, lost, return_chunk)
              (delete_chunk-Inv
                (requeue-Inv inv (queue.enqueue m.idle c).0
                  (λ d. omega (arith, queue.copies-enqueue_failed m.idle c d lost)))
                c z (omega (arith, queue.copies-enqueue_failed m.idle c c lost)))
      ]
    ]
  ]

  run_deleter-Inv : (d : Deleter) → Inv queue n extra (run_deleter queue d m c) objects
  run_deleter-Inv to_pool = return_chunk-Inv
  run_deleter-Inv plain = delete_chunk-Inv inv c z idle

module _ {Q : Type 0} {queue : ConcurrentQueue Q} {n : ℕ} {extra : ℕ → ℕ} {m : Memory Q}
    {objects : ℕ → Object} where
  drop_count-Inv :
      (c : ℕ)
      → Inv queue n (plus extra (some c)) m objects
      → Inv queue n extra
          (record m {
            cells = update m.cells c (record (m.cells c) { refs = (m.cells c).refs - 1 });
          })
          objects
  drop_count-Inv c inv = record {
    counted = λ d. ground (arith, inv.counted d);
    held_alive = λ d p. ground (arith, inv.held_alive d);
    fresh = λ d p. ground (arith, inv.fresh d);
    fits = λ d p. ground (arith, inv.fits d);
    idle_once = inv.idle_once;
    idle_free = λ d p. ground (arith, inv.idle_free d);
    bounded = inv.bounded;
    sole = inv.sole;
    pooled = λ i d p. ground (arith, inv.pooled i d);
    formed = inv.formed;
    within = λ i d p q. ground (arith, inv.within i d);
    disjoint = inv.disjoint;
  }

  pub release_ref-Inv :
      (o : Option ℕ)
      → Inv queue n (plus extra o) m objects
      → Inv queue n extra (release_ref queue m o) objects
  unfolding release_ref
  release_ref-Inv none inv = recount-Inv inv extra (λ c. omega arith)
  release_ref-Inv (some c) inv = elim (Bool-cases ((m.cells c).refs == 1)) [
    | inr others ↦ rw (others, release_ref) (drop_count-Inv c inv)
    | inl last ↦
        rw (last, release_ref)
          (run_deleter-Inv (drop_count-Inv c inv) c (ground arith)
            (ground (arith, inv.held_alive c)) (ground (arith, inv.idle_free c))
            (m.cells c).deleter)
  ]

-- The end of a reference moves no cursor.
pub release_ref-chunk :
    {Q : Type 0} (queue : ConcurrentQueue Q) (m : Memory Q) (o : Option ℕ) (c : ℕ)
    → ((release_ref queue m o).cells c).chunk ≡ (m.cells c).chunk
unfolding release_ref
release_ref-chunk queue m none c = refl
release_ref-chunk queue m (some d) c = ground arith
