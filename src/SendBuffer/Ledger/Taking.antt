-- ===== src/SendBuffer/Ledger/Taking.antt =====
-- The ledger through ChunkPool::Acquire, and the counts that other operations leave as they are.
use my_utils.Base.{ℕ, ◌<◌, ◌≡◌, ◌≢◌, refl, inl, inr, Option, none, some, arith, Option-cases}
use my_utils.Assert.{Returns}
use my_utils.Queue.{ConcurrentQueue}
use my_utils.SendBuffer.Constants.{default_chunk_capacity}
use my_utils.SendBuffer.Stats.{SendBufferStats}
use my_utils.SendBuffer.Chunk.{reset}
use my_utils.SendBuffer.Memory.{
  Memory, to_pool, set_chunk, own, bump_at, release_ref, take_idle_or_create, acquire,
}
use my_utils.SendBuffer.Invariant.Acquire.{IsSpare}
use my_utils.SendBuffer.Ledger.{Ledger}
use my_utils.SendBuffer.Ledger.Cells.{with_chunk-Ledger, fresh-IsSpare, next_unheld, dequeue-Ledger}
use my_utils.SendBuffer.Ledger.Refs.{own-Ledger, reset-Ledger}

module _ {Q : Type 0} (queue : ConcurrentQueue Q) where
  -- `c` was not referred to, and is now, once; no other count has changed.
  pub record Taken (m : Memory Q) (c : ℕ) (m' : Memory Q) : Type 0 where
    pub ledger : Ledger queue none m'
    pub unheld : (m.cells c).refs ≡ 0
    pub held : 0 < (m'.cells c).refs
    pub others : (d : ℕ) → 0 < (m.cells d).refs → (m'.cells d).refs ≡ (m.cells d).refs

  pub bump_at-refs :
      (m : Memory Q) (c size d : ℕ) → ((bump_at m c size).1.cells d).refs ≡ (m.cells d).refs
  unfolding bump_at
  bump_at-refs m c size d = ground arith

  -- The end of a reference changes the count of its chunk alone.
  pub release_ref-refs :
      (m : Memory Q) (o : Option ℕ) (c : ℕ)
      → o ≢ some c
      → ((release_ref queue m o).cells c).refs ≡ (m.cells c).refs
  unfolding release_ref
  release_ref-refs m none c ne = refl
  release_ref-refs m (some d) c ne = ground arith

module _ {Q : Type 0} {queue : ConcurrentQueue Q} {m : Memory Q} (led : Ledger queue none m) where
  -- The reset and the owner that Acquire gives to a chunk.
  claim-Taken :
      (c : ℕ) {m' : Memory Q}
      → Ledger queue (some c) m'
      → IsSpare queue m' c
      → (m.cells c).refs ≡ 0
      → ((d : ℕ) → 0 < (m.cells d).refs → (m'.cells d).refs ≡ (m.cells d).refs)
      → Taken queue m c (own c to_pool (set_chunk m' c (reset (m'.cells c).chunk)))
  unfolding own
  claim-Taken c led' spare free same = record {
    ledger =
        own-Ledger (reset-Ledger led' spare)
          (record {
            unheld = ground (arith, spare);
            alive = ground (arith, spare);
            not_idle = spare.not_idle;
          })
          to_pool;
    unheld = free;
    held = ground arith;
    others = λ d h. ground (arith, same d);
  }

  -- ChunkPool::Acquire keeps the ledger, and its caller holds the chunk alone.
  pub acquire-Taken :
      (s : SendBufferStats) → Returns (acquire queue m s) (λ r. Taken queue m r.0 r.1)
  unfolding acquire
  acquire-Taken s = elim (Option-cases (queue.try_dequeue m.idle)) [
    | inl miss ↦
        rw (miss, take_idle_or_create, acquire)
          (claim-Taken m.next (with_chunk-Ledger led default_chunk_capacity (omega arith) refl)
            (fresh-IsSpare led default_chunk_capacity) (next_unheld led)
            (λ d h. ground (arith, next_unheld led)))
    | inr ((c, rest), hit) ↦
        let (led', spare) = dequeue-Ledger led c rest refl hit in
        rw (hit, take_idle_or_create, acquire) (claim-Taken c led' spare spare.unheld (λ d h. refl))
  ]
