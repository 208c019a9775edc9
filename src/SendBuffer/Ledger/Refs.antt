-- ===== src/SendBuffer/Ledger/Refs.antt =====
-- The ledger through the life of a ChunkRef, ChunkPool and the cursor of a chunk.
use my_utils.Base.{
  ℕ, ◌-◌, ◌^◌, ◌<◌, ◌≡◌, ◌≢◌, refl, inl, inr, true, Option, none, some, arith, ◌==◌, update, leb,
  Bool-cases,
}
use my_utils.Assert.{Returns}
use my_utils.Queue.{ConcurrentQueue}
use my_utils.SendBuffer.Constants.{default_chunk_capacity}
use my_utils.SendBuffer.Chunk.{reset, bump, rewind}
use my_utils.SendBuffer.Memory.{
  Memory, Cell, Deleter, to_pool, plain, set_chunk, with_chunk, own, add_ref, bump_at, rewind_at,
  release_ref, return_chunk, run_deleter,
}
use my_utils.SendBuffer.Invariant.Acquire.{IsSpare}
use my_utils.SendBuffer.Ledger.{Ledger}
use my_utils.SendBuffer.Ledger.Cells.{
  set_cell-Ledger, delete_chunk-Ledger, with_chunk-Ledger, fresh-IsSpare, enqueue-Ledger,
  requeue-Ledger,
}

-- An optional reference is to a chunk that somebody holds.
abbrev pub IsHeld : {Q : Type 0} → Memory Q → Option ℕ → Type 0
IsHeld m none = Unit {0}
IsHeld m (some c) = 0 < (m.cells c).refs

pub unmarked : (c d : ℕ) → d ≢ c → some c ≢ some d
unmarked c d ne e = ne (cc e)

module _ {Q : Type 0} {queue : ConcurrentQueue Q} {m : Memory Q} (led : Ledger queue none m) where
  -- A held chunk keeps its place when its counts and its cursor change.
  pub held_cell-Ledger :
      (c : ℕ) (k : Cell)
      → 0 < (m.cells c).refs
      → 0 < k.refs
      → k.alive ≡ true
      → k.chunk.capacity ≡ (m.cells c).chunk.capacity
      → Ledger queue none (record m { cells = update m.cells c k })
  held_cell-Ledger c k held still new size =
      set_cell-Ledger led c k none (led.held_alive c held) new size
        (ground (arith, led.idle_free c)) (λ z. absurd (omega arith)) (λ d ne h. h)

  pub add_ref-Ledger : (o : Option ℕ) → IsHeld m o → Ledger queue none (add_ref m o)
  unfolding add_ref
  add_ref-Ledger none held = led
  add_ref-Ledger (some c) held =
      held_cell-Ledger c _ held (omega arith) (led.held_alive c held) refl

  pub bump_at-Ledger : (c size : ℕ) → 0 < (m.cells c).refs → Ledger queue none (bump_at m c size).1
  unfolding bump_at bump
  bump_at-Ledger c size held =
      held_cell-Ledger c (record (m.cells c) { chunk = (bump (m.cells c).chunk size).1 }) held held
        (led.held_alive c held) (ground arith)

  pub rewind_at-Ledger :
      (c offset : ℕ)
      → 0 < (m.cells c).refs
      → Returns
          (rewind_at m c offset)
          (λ m'. Ledger queue none m' × ((d : ℕ) → (m'.cells d).refs ≡ (m.cells d).refs))
  unfolding rewind_at rewind
  rewind_at-Ledger c offset held = elim (Bool-cases (leb offset (m.cells c).chunk.offset)) [
    | inr bad ↦ rw bad tt
    | inl good ↦ rw good (
      held_cell-Ledger c
          (record (m.cells c) { chunk = record (m.cells c).chunk { offset = offset } }) held held
          (led.held_alive c held) refl,
      λ d. ground arith,
    )
  ]

  -- The end of the last reference leaves the chunk to its deleter.
  last_ref :
      (c : ℕ)
      → (m.cells c).refs ≡ 1
      → Ledger queue (some c) (record m {
        cells = update m.cells c (record (m.cells c) { refs = (m.cells c).refs - 1 });
      })
  last_ref c last =
      set_cell-Ledger led c _ (some c) (led.held_alive c (omega arith))
        (led.held_alive c (omega arith)) refl (ground (arith, led.idle_free c)) (λ z. refl)
        (λ d ne h e. cc)

module _ {Q : Type 0} {queue : ConcurrentQueue Q} {c : ℕ} {m : Memory Q}
    (led : Ledger queue (some c) m) (spare : IsSpare queue m c) where
  return_chunk-Ledger : Ledger queue none (return_chunk queue m (some c))
  unfolding return_chunk
  return_chunk-Ledger = elim (Bool-cases ((m.cells c).chunk.capacity == default_chunk_capacity)) [
    | inr odd ↦ rw (odd, return_chunk) (delete_chunk-Ledger led c spare (λ d ne. unmarked c d ne))
    | inl poolable ↦ elim (Bool-cases (leb m.idle_limit (queue.size_approx m.idle))) [
      | inl full ↦
          rw (poolable, full, return_chunk)
            (delete_chunk-Ledger led c spare (λ d ne. unmarked c d ne))
      | inr room ↦ elim (Bool-cases (queue.enqueue m.idle c).1) [
        | inl stored ↦
            rw (poolable, room, stored, return_chunk)
              (enqueue-Ledger led c spare (λ d ne. unmarked c d ne) stored)
        | inr lost ↦
            rw (poolable, room, lost, return_chunk)
              (delete_chunk-Ledger
                (requeue-Ledger led (queue.enqueue m.idle c).0
                  (λ d. queue.copies-enqueue_failed m.idle c d lost))
                c
                (record {
                  unheld = spare.unheld;
                  alive = spare.alive;
                  not_idle =
                      omega (arith, queue.copies-enqueue_failed m.idle c c lost, spare.not_idle);
                })
                (λ d ne. unmarked c d ne))
      ]
    ]
  ]

  run_deleter-Ledger : (d : Deleter) → Ledger queue none (run_deleter queue d m c)
  run_deleter-Ledger to_pool = return_chunk-Ledger
  run_deleter-Ledger plain = delete_chunk-Ledger led c spare (λ d ne. unmarked c d ne)

  pub own-Ledger : (d : Deleter) → Ledger queue none (own c d m)
  unfolding own
  own-Ledger d =
      set_cell-Ledger led c (record (m.cells c) { refs = 1; deleter = d }) none spare.alive
        spare.alive refl spare.not_idle (λ z. absurd (omega arith)) (λ d ne h. unmarked c d ne)

  pub reset-Ledger : Ledger queue (some c) (set_chunk m c (reset (m.cells c).chunk))
  unfolding reset
  reset-Ledger =
      set_cell-Ledger led c (record (m.cells c) { chunk = reset (m.cells c).chunk }) (some c)
        spare.alive spare.alive refl spare.not_idle (λ z. refl) (λ d ne h. unmarked c d ne)

module _ {Q : Type 0} {queue : ConcurrentQueue Q} {m : Memory Q} (led : Ledger queue none m) where
  pub release_ref-Ledger : (o : Option ℕ) → IsHeld m o → Ledger queue none (release_ref queue m o)
  unfolding release_ref
  release_ref-Ledger none held = led
  release_ref-Ledger (some c) held = elim (Bool-cases ((m.cells c).refs == 1)) [
    | inr others ↦
        rw (others, release_ref)
          (held_cell-Ledger led c (record (m.cells c) { refs = (m.cells c).refs - 1 }) held
            (ground arith) (led.held_alive c held) refl)
    | inl last ↦
        rw (last, release_ref)
          (run_deleter-Ledger (last_ref led c (ground arith))
            (record {
              unheld = ground arith;
              alive = ground (arith, led.held_alive c);
              not_idle = ground (arith, led.idle_free c);
            })
            (m.cells c).deleter)
  ]

  pub new_chunk-Ledger :
      (capacity : ℕ) (d : Deleter)
      → capacity < 2 ^ 64
      → Ledger queue none (own m.next d (with_chunk capacity m))
  new_chunk-Ledger capacity d few =
      own-Ledger (with_chunk-Ledger led capacity few refl) (fresh-IsSpare led capacity) d

pub IsHeld-same :
    {Q : Type 0} (m m' : Memory Q) (o : Option ℕ)
    → IsHeld m o
    → ((c : ℕ) → (m'.cells c).refs ≡ (m.cells c).refs)
    → IsHeld m' o
IsHeld-same m m' none held same = tt
IsHeld-same m m' (some c) held same = omega (arith, same c)
