-- ===== src/SendBuffer/Ledger/Steps.antt =====
-- The ledger in every world that a program can reach.
use my_utils.Base.{
  ℕ, ◌%◌, ◌^◌, ◌≤◌, ◌<◌, ◌≡◌, ◌⊎◌, refl, ap, inl, inr, true, false, Option, none, some, arith, ◌==◌,
  tally, tally-eq-zero, total-pos, dec_lt,
}
use my_utils.Assert.{Returns-apply}
use my_utils.Queue.{ConcurrentQueue}
use my_utils.SendBuffer.Buffer.{release_current_chunk, copy_view, destroy_view}
use my_utils.SendBuffer.World
use my_utils.SendBuffer.World.{World, caller, initial, Step, Reach, at_start, then_step}
use my_utils.SendBuffer.Invariant.Defs.{chunk_of, held, holds}
use my_utils.SendBuffer.Invariant.Cells.{refs_pos}
use my_utils.SendBuffer.Calls.Threads.{WorldInv}
use my_utils.SendBuffer.Steps.{Reach-Inv}
use my_utils.SendBuffer.Ledger.{Ledger, lives, live_bytes}
use my_utils.SendBuffer.Ledger.Refs.{IsHeld, add_ref-Ledger, release_ref-Ledger}
use my_utils.SendBuffer.Ledger.Calls.{
  destroy_buffer-Ledger, assign_buffer-Ledger, commit-Ledger, reserve-Ledger,
}

pub held-some : (o : Option ℕ) (c : ℕ) → 0 < held o c → o ≡ some c
held-some none c h = absurd (omega arith)
held-some (some d) c h = ap some (ground arith)

module _ {Q : Type 0} (queue : ConcurrentQueue Q) where
  pub initial-Ledger : Ledger queue none (initial queue).memory
  initial-Ledger = record {
    fresh = λ c h. refl;
    held_alive = λ c h. absurd (omega arith);
    idle_once = λ c. omega (arith, queue.copies-empty c);
    idle_free = λ c h. absurd (omega (arith, queue.copies-empty c));
    kept = λ c h z ne. cc;
    small = λ c h. cc;
    count_exact = omega (arith, tally-eq-zero lives 0 (initial queue).memory.cells (λ c. refl));
    bytes_exact =
        omega (arith, tally-eq-zero live_bytes 0 (initial queue).memory.cells (λ c. refl));
  }

module _ {Q : Type 0} {queue : ConcurrentQueue Q} {n : ℕ} (w : World Q)
    (inv : WorldInv queue n w) where
  pub object_holds : (i : ℕ) (o : Option ℕ) → chunk_of (w.objects i) ≡ o → IsHeld w.memory o
  object_holds i none h = tt
  object_holds i (some c) h = refs_pos inv i c h

  pub Step-Ledger :
      {w' : World Q} → Step queue n w w' → Ledger queue none w.memory → Ledger queue none w'.memory
  unfolding release_current_chunk copy_view destroy_view
  Step-Ledger (World.starts_thread t lt h) led = led
  Step-Ledger (World.ends_thread t cur lt h) led =
      release_ref-Ledger led cur (object_holds t cur (ap chunk_of h))
  Step-Ledger (World.releases_current t cur lt h) led =
      release_ref-Ledger led cur (object_holds t cur (ap chunk_of h))
  Step-Ledger (World.reserves t i capacity cur e b lt li h f ran) led =
      Returns-apply _
        (reserve-Ledger (caller w t cur) led capacity (object_holds t cur (ap chunk_of h))) ran
  Step-Ledger (World.commits t i j size cur b b' e v lt li lj h hi hj ran) led =
      Returns-apply _
        (commit-Ledger (caller w t cur) led b size (object_holds i b.chunk (ap chunk_of hi))) ran
  Step-Ledger (World.destroys_buffer t i cur b e lt li h hi ran) led =
      Returns-apply _
        (destroy_buffer-Ledger (caller w t cur) led b (object_holds i b.chunk (ap chunk_of hi))) ran
  Step-Ledger (World.moves_buffer i j b li lj hi hj) led = led
  Step-Ledger (World.assigns_buffer t i j cur this other this' other' e lt li lj h hi hj ran) led =
      Returns-apply _
        (assign_buffer-Ledger (caller w t cur) led (i == j) this other
          (object_holds i this.chunk (ap chunk_of hi)))
        ran
  Step-Ledger (World.copies_view t i j cur v lt li lj h hi hj) led =
      add_ref-Ledger led v.chunk (object_holds i v.chunk (ap chunk_of hi))
  Step-Ledger (World.destroys_view t i cur v lt li h hi) led =
      release_ref-Ledger led v.chunk (object_holds i v.chunk (ap chunk_of hi))
  Step-Ledger (World.sets_idle_limit limit) led = record {
    fresh = led.fresh;
    held_alive = led.held_alive;
    idle_once = led.idle_once;
    idle_free = led.idle_free;
    kept = led.kept;
    small = led.small;
    count_exact = led.count_exact;
    bytes_exact = led.bytes_exact;
  }

module _ {Q : Type 0} {queue : ConcurrentQueue Q} {n : ℕ} where
  Reach-Ledger : {w : World Q} → Reach queue n w → Ledger queue none w.memory
  Reach-Ledger at_start = initial-Ledger queue
  Reach-Ledger (then_step {w} r s) = Step-Ledger w (Reach-Inv r) s (Reach-Ledger r)

module _ {Q : Type 0} {queue : ConcurrentQueue Q} {n : ℕ} {w : World Q}
    (reached : Reach queue n w) where
  -- In every reachable world, no chunk leaks: one that lives is referred to by a manager, a buffer
  -- or a view of the program, or it lies in the pool, once, and nothing refers to it.
  pub no_chunk_leaks :
      (c : ℕ)
      → (w.memory.cells c).alive ≡ true
      → ((i : ℕ) × (i < n) × (chunk_of (w.objects i) ≡ some c))
        ⊎ ((queue.copies w.memory.idle c ≡ 1) × ((w.memory.cells c).refs ≡ 0))
  no_chunk_leaks c alive = elim (dec_lt 0 (w.memory.cells c).refs) [
    | yes some_held ↦
        let (i, lt, one) =
          total-pos (λ j. holds c) n w.objects
            (omega (arith, some_held, (Reach-Inv reached).counted c)) in
        inl (i, lt, held-some (chunk_of (w.objects i)) c one)
    | no unheld ↦
        let led = Reach-Ledger reached in
        inr (omega (arith, led.kept c alive (omega arith) (λ e. cc), led.idle_once c), omega arith)
  ]

  -- In every reachable world, GLiveChunkCount is the number of the chunks that live, and
  -- GLiveChunkBytes is the sum of their capacities, modulo 2 ^ 64.
  pub live_counters_exact :
      (w.memory.live_chunk_count ≡ tally lives w.memory.next w.memory.cells % 2 ^ 64)
      × (w.memory.live_chunk_bytes ≡ tally live_bytes w.memory.next w.memory.cells % 2 ^ 64)
      × ((c : ℕ) → w.memory.next ≤ c → (w.memory.cells c).alive ≡ false)
  live_counters_exact =
      let led = Reach-Ledger reached in (led.count_exact, led.bytes_exact, led.fresh)
