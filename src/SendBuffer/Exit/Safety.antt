-- ===== src/SendBuffer/Exit/Safety.antt =====
-- The pool and its chunks at the end of a process.
use my_utils.Base.{
  ℕ, ◌<◌, ◌≡◌, ◌≢◌, ◌⊎◌, inl, inr, true, false, some, tally-eq-zero, total-pos, dec_lt, Bool-cases,
  sym, ap, ◌∙◌, arith,
}
use my_utils.Queue.{ConcurrentQueue, IsExact, Shrinks}
use my_utils.SendBuffer.Memory.{plain}
use my_utils.SendBuffer.World.{free}
use my_utils.SendBuffer.Invariant.Defs.{chunk_of, holds}
use my_utils.SendBuffer.Ledger.{lives, live_bytes}
use my_utils.SendBuffer.Ledger.Steps.{held-some}
use my_utils.SendBuffer.Exit.{Process, captures, use_count, Reach}
use my_utils.SendBuffer.Exit.Captures.{held_plain}
use my_utils.SendBuffer.Exit.Settling.{no_captures, Settled, Reach-Settled}

no_chunk-some : (c : ℕ) → chunk_of free ≢ some c
no_chunk-some c e = cc e

module _ {Q : Type 0} {queue : ConcurrentQueue Q} {size : Q → ℕ} {n : ℕ} {p : Process Q}
    (exact : IsExact queue) (shrinks : Shrinks queue size) (reached : Reach queue size n p) where
  -- In every reachable process, also after the static root is gone, when only the calls that use
  -- GlobalPool() are no longer made, the pool lives as long as a chunk is referred to whose deleter
  -- returns it to the pool. Once the pool is gone, no chunk was put back into it, a chunk that lives is
  -- referred to by an object of the program and has the plain deleter, and any other is not referred
  -- to. A try_dequeue that fails has found an empty queue, and one that succeeds leaves fewer
  -- elements than there were.
  pub pool_outlives_chunks :
      (c : ℕ)
      → (p.pool_alive ≡ true) × (0 < use_count p)
        ⊎ (p.pool_alive ≡ false)
          × (queue.copies p.world.memory.idle c ≡ 0)
          × (((p.world.memory.cells c).alive ≡ false) × ((p.world.memory.cells c).refs ≡ 0)
              ⊎ ((p.world.memory.cells c).deleter ≡ plain)
                × ((i : ℕ) × (i < n) × (chunk_of (p.world.objects i) ≡ some c)))
  pool_outlives_chunks c = elim (Bool-cases p.pool_alive) [
    | inl there ↦ inl (there, s.used there)
    | inr dead ↦ inr (
      dead,
      (s.before.gone dead c).1,
      elim (Bool-cases (p.world.memory.cells c).alive) [
        | inr over ↦ inl (over, unheld over)
        | inl alive ↦ inr (kept dead alive)
      ],
    )
  ]
    where
      s : Settled queue n p
      s = Reach-Settled exact shrinks reached

      unheld : (p.world.memory.cells c).alive ≡ false → (p.world.memory.cells c).refs ≡ 0
      unheld over = elim (dec_lt 0 (p.world.memory.cells c).refs) [
        | yes held ↦ absurd (ground (arith, s.before.ledger.held_alive c held, over))
        | no nothing ↦ omega (arith, nothing)
      ]

      referred :
          queue.copies p.world.memory.idle c ≡ 0
          → (p.world.memory.cells c).alive ≡ true
          → 0 < (p.world.memory.cells c).refs
      referred not_idle alive = elim (dec_lt 0 (p.world.memory.cells c).refs) [
        | yes some_held ↦ some_held
        | no unheld ↦ absurd (
            omega (arith, not_idle, s.before.ledger.kept c alive (omega (arith, unheld)) (λ e. cc)))
      ]

      kept :
          p.pool_alive ≡ false
          → (p.world.memory.cells c).alive ≡ true
          → ((p.world.memory.cells c).deleter ≡ plain)
            × ((i : ℕ) × (i < n) × (chunk_of (p.world.objects i) ≡ some c))
      kept dead alive =
          let (unowned, not_idle) = s.before.gone dead c in
          let held = referred not_idle alive in
          let (i, lt, one) =
            total-pos (λ j. holds c) n p.world.objects
              (omega (arith, held, s.before.world.counted c)) in
          (
            held_plain (p.world.memory.cells c) held unowned,
            (i, lt, held-some (chunk_of (p.world.objects i)) c one),
          )

  no_owners : p.root ≡ false → ((i : ℕ) → p.world.objects i ≡ free) → use_count p ≡ 0
  no_owners over released = ground (
    arith,
    over,
    tally-eq-zero captures p.world.memory.next p.world.memory.cells
        (λ c. no_captures (p.world.memory.cells c) (unheld c)),
  )
    where
      unheld : (c : ℕ) → (p.world.memory.cells c).refs ≡ 0
      unheld c = omega (
        arith,
        (Reach-Settled exact shrinks reached).before.world.counted c,
        tally-eq-zero (holds c) n p.world.objects (λ i. ap (holds c) (released i)),
      )

  -- In every reachable process whose static root is gone, and with it the calls that use GlobalPool(),
  -- and whose threads and objects have all ended, the pool is destroyed, no chunk lives, and GLiveChunkCount and GLiveChunkBytes are 0. A
  -- try_dequeue that fails has found an empty queue, and one that succeeds leaves fewer elements than
  -- there were.
  pub nothing_left_at_exit :
      p.root ≡ false
      → ((i : ℕ) → p.world.objects i ≡ free)
      → (p.pool_alive ≡ false)
        × ((c : ℕ) → (p.world.memory.cells c).alive ≡ false)
        × (p.world.memory.live_chunk_count ≡ 0)
        × (p.world.memory.live_chunk_bytes ≡ 0)
  nothing_left_at_exit over released = (
    gone,
    dead,
    omega (
      arith,
      s.before.ledger.count_exact,
      tally-eq-zero lives p.world.memory.next p.world.memory.cells (λ c. ground (arith, dead c)),
    ),
    omega (
      arith,
      s.before.ledger.bytes_exact,
      tally-eq-zero live_bytes p.world.memory.next p.world.memory.cells
          (λ c. ground (arith, dead c)),
    ),
  )
    where
      s : Settled queue n p
      s = Reach-Settled exact shrinks reached

      gone : p.pool_alive ≡ false
      gone = elim (Bool-cases p.pool_alive) [
        | inl there ↦ absurd (omega (arith, s.used there, no_owners over released))
        | inr over ↦ over
      ]

      dead : (c : ℕ) → (p.world.memory.cells c).alive ≡ false
      dead c = elim (Bool-cases (p.world.memory.cells c).alive) [
        | inr over ↦ over
        | inl alive ↦ elim (pool_outlives_chunks c) [
          | inl (there, _) ↦ absurd (ground (arith, there, gone))
          | inr (_, _, inl (over, _)) ↦ over
          | inr (_, _, inr (_, (i, _, here))) ↦
              absurd (no_chunk-some c (sym (ap chunk_of (released i)) ∙ here))
        ]
      ]
