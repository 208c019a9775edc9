-- ===== src/SendBuffer/Exit/Settling.antt =====
-- What every step of a process keeps: its chunks, its pool and the owners of the pool.
use my_utils.Base.{
  ℕ, ◌<◌, ◌≤◌, ◌≡◌, inl, inr, true, false, none, ◌==◌, tally, le-tally, dec_lt, Bool-cases, refl,
  sym, ap, ◌∙◌, subst, arith,
}
use my_utils.Assert.{Returns-apply}
use my_utils.Queue.{ConcurrentQueue, IsExact, Shrinks}
use my_utils.SendBuffer.Memory.{Memory, Cell}
use my_utils.SendBuffer.Buffer.{release_current_chunk, copy_view, destroy_view}
use my_utils.SendBuffer.World
use my_utils.SendBuffer.World.{World, Object, free, caller}
use my_utils.SendBuffer.Invariant.Defs.{chunk_of}
use my_utils.SendBuffer.Calls.Threads.{WorldInv}
use my_utils.SendBuffer.Steps.{initial-Inv, Step-Inv}
use my_utils.SendBuffer.Ledger.{Ledger}
use my_utils.SendBuffer.Ledger.Steps.{initial-Ledger, Step-Ledger, object_holds}
use my_utils.SendBuffer.Exit.{
  Process, captures, use_count, drain_idle, destroy_pool, settle, IsLate, Step, Reach, at_start,
  then_step, calls, calls_late, drops_root,
}
use my_utils.SendBuffer.Exit.Drain.{drain_idle-ends, drain_idle-cells, drain_idle-Inv}
use my_utils.SendBuffer.Exit.Captures.{
  Unpooled, add_ref-Unpooled, release_ref-Unpooled, destroy_buffer-Unpooled, assign_buffer-Unpooled,
  commit-Unpooled,
}
use my_utils.SendBuffer.Exit.Reserving.{reserve-Unpooled}

module _ {Q : Type 0} {queue : ConcurrentQueue Q} {n : ℕ} (w : World Q) (inv : WorldInv queue n w)
    (unpooled : Unpooled queue w.memory) where
  -- A late call leaves a pool without owners without owners and without chunks.
  Step-Unpooled :
      {w' : World Q} (call : World.Step queue n w w') → IsLate call → Unpooled queue w'.memory
  unfolding release_current_chunk copy_view destroy_view
  Step-Unpooled (World.starts_thread t lt h) late = unpooled
  Step-Unpooled (World.ends_thread t cur lt h) late =
      release_ref-Unpooled queue w.memory unpooled cur (object_holds w inv t cur (ap chunk_of h))
  Step-Unpooled (World.releases_current t cur lt h) late =
      release_ref-Unpooled queue w.memory unpooled cur (object_holds w inv t cur (ap chunk_of h))
  Step-Unpooled (World.reserves t i capacity cur e b lt li h f ran) late =
      Returns-apply _
        (reserve-Unpooled queue (caller w t cur) capacity unpooled
          (object_holds w inv t cur (ap chunk_of h)) late)
        ran
  Step-Unpooled (World.commits t i j size cur b b' e v lt li lj h hi hj ran) late =
      Returns-apply _ (commit-Unpooled queue (caller w t cur) unpooled b size) ran
  Step-Unpooled (World.destroys_buffer t i cur b e lt li h hi ran) late =
      Returns-apply _
        (destroy_buffer-Unpooled queue (caller w t cur) unpooled b
          (object_holds w inv i b.chunk (ap chunk_of hi)))
        ran
  Step-Unpooled (World.moves_buffer i j b li lj hi hj) late = unpooled
  Step-Unpooled (World.assigns_buffer t i j cur this other this' other' e lt li lj h hi hj ran)
        late =
      Returns-apply _
        (assign_buffer-Unpooled queue (caller w t cur) unpooled (i == j) this other
          (object_holds w inv i this.chunk (ap chunk_of hi)))
        ran
  Step-Unpooled (World.copies_view t i j cur v lt li lj h hi hj) late =
      add_ref-Unpooled queue w.memory unpooled v.chunk
        (object_holds w inv i v.chunk (ap chunk_of hi))
  Step-Unpooled (World.destroys_view t i cur v lt li h hi) late =
      release_ref-Unpooled queue w.memory unpooled v.chunk
        (object_holds w inv i v.chunk (ap chunk_of hi))
  Step-Unpooled (World.sets_idle_limit limit) late = absurd late

-- Before the count of the owners is looked at.
pub record Settling {Q : Type 0} (queue : ConcurrentQueue Q) (n : ℕ) (p : Process Q) : Type 0 where
  pub world : WorldInv queue n p.world
  pub ledger : Ledger queue none p.world.memory
  pub rooted : p.root ≡ true → p.pool_alive ≡ true
  pub gone : p.pool_alive ≡ false → Unpooled queue p.world.memory

pub record Settled {Q : Type 0} (queue : ConcurrentQueue Q) (n : ℕ) (p : Process Q) : Type 0 where
  pub before : Settling queue n p
  pub used : p.pool_alive ≡ true → 0 < use_count p

pub no_captures : (k : Cell) → k.refs ≡ 0 → captures k ≡ 0
no_captures k z = ground (arith, z)

module _ {Q : Type 0} {queue : ConcurrentQueue Q} {m : Memory Q} (led : Ledger queue none m) where
  captured-lt : (c : ℕ) → 0 < captures (m.cells c) → c < m.next
  captured-lt c h = elim (dec_lt c m.next) [
    | yes lt ↦ lt
    | no above ↦ absurd (ground (arith, h, no_captures (m.cells c), led.fresh c, led.held_alive c))
  ]

  captures-le : (c : ℕ) → captures (m.cells c) ≤ tally captures m.next m.cells
  captures-le c = elim (dec_lt 0 (captures (m.cells c))) [
    | yes some_held ↦ le-tally captures m.next m.cells c (captured-lt c some_held)
    | no nothing ↦ omega (arith, nothing)
  ]

same_captures : (k k' : Cell) → k'.refs ≡ k.refs → k'.deleter ≡ k.deleter → captures k' ≡ captures k
same_captures k k' refs deleter = ground (arith, refs, deleter)

module _ {Q : Type 0} {queue : ConcurrentQueue Q} {size : Q → ℕ} {n : ℕ} (exact : IsExact queue)
    (shrinks : Shrinks queue size) where
  destroy_pool-Settled :
      (p : Process Q)
      → Settling queue n p
      → use_count p ≡ 0
      → Settled queue n (destroy_pool queue size p)
  destroy_pool-Settled p s none_left =
      let (inv, led) = drain_idle-Inv queue (size m.idle) m s.world s.ledger in
      record {
        before = record {
          world = inv;
          ledger = led;
          rooted = λ r. absurd (ground (arith, r, none_left));
          gone = λ e c. (
            unowned c,
            exact _ (drain_idle-ends queue size (size m.idle) m shrinks (omega arith)) c,
          );
        };
        used = λ e. cc;
      }
    where
      m : Memory Q
      m = p.world.memory

      free_before : (c : ℕ) → captures (p.world.memory.cells c) ≡ 0
      free_before c = omega (arith, none_left, captures-le s.ledger c)

      unowned : (c : ℕ) → captures ((drain_idle queue (size m.idle) m).cells c) ≡ 0
      unowned c =
          let (refs, deleter) = drain_idle-cells queue (size m.idle) m c in
          same_captures (m.cells c) ((drain_idle queue (size m.idle) m).cells c) refs deleter
          ∙ free_before c

  settle-Settled : (p : Process Q) → Settling queue n p → Settled queue n (settle queue size p)
  unfolding settle
  settle-Settled p s = elim (Bool-cases p.pool_alive) [
    | inr dead ↦ stays (ground (arith, dead)) (λ e. cc)
    | inl alive ↦ elim (Bool-cases (use_count p == 0)) [
      | inl over ↦
          subst (Settled queue n) (sym (ends alive over))
            (destroy_pool-Settled p s (ground (arith, over)))
      | inr used ↦ stays (ground (arith, alive, used)) (λ e. ground (arith, used))
    ]
  ]
    where
      stays :
          settle queue size p ≡ p
          → (p.pool_alive ≡ true → 0 < use_count p)
          → Settled queue n (settle queue size p)
      stays same used = subst (Settled queue n) (sym same) (record { before = s; used = used })

      ends :
          p.pool_alive ≡ true
          → (use_count p == 0) ≡ true
          → settle queue size p ≡ destroy_pool queue size p
      ends alive over = ground (arith, alive, over)

  Step-Settled :
      {p p' : Process Q} → Step queue size n p p' → Settled queue n p → Settled queue n p'
  Step-Settled (calls r call) s = settle-Settled _ (record {
    world = Step-Inv call s.before.world;
    ledger = Step-Ledger _ s.before.world call s.before.ledger;
    rooted = s.before.rooted;
    gone = λ e. absurd (ground (arith, e, s.before.rooted r));
  })
  Step-Settled (calls_late call late) s = settle-Settled _ (record {
    world = Step-Inv call s.before.world;
    ledger = Step-Ledger _ s.before.world call s.before.ledger;
    rooted = s.before.rooted;
    gone = λ e. Step-Unpooled _ s.before.world (s.before.gone e) call late;
  })
  Step-Settled (drops_root r) s = settle-Settled _ (record {
    world = s.before.world;
    ledger = s.before.ledger;
    rooted = λ e. cc e;
    gone = s.before.gone;
  })

  pub Reach-Settled : {p : Process Q} → Reach queue size n p → Settled queue n p
  Reach-Settled at_start = record {
    before = record {
      world = initial-Inv queue n;
      ledger = initial-Ledger queue;
      rooted = λ e. refl;
      gone = λ e. cc;
    };
    used = λ e. omega arith;
  }
  Reach-Settled (then_step r st) = Step-Settled st (Reach-Settled r)
