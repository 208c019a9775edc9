-- ===== src/Actors/Together/Queues.antt =====
-- What the blocks say of the pool is what the pool holds.
use my_utils.Base.{ℕ, ◌≡◌, tally-eq-zero, refl, sym, ◌∙◌, arith}
use my_utils.Queue.{ConcurrentQueue, IsExact}
use my_utils.Queue.Fifo.{copies}
use my_utils.Runtime.Config.{empty_pool}
use my_utils.Runtime.Conservation.{copies_in, push_task-conserves, search-conserves}
use my_utils.Runtime.Flags.{
  search-SameFlags, push_task-flags, discard_pending-stopping, discard_pending-worker_count,
  discard_pending-copies,
}
use my_utils.Actors.Block.{Block, Pc, Move, takes, pushes, push_fails}
use my_utils.Actors.Together.{
  Together, IsQueueMove, Step, initial, Reach, at_start, then_step, turns, goes_on, submits,
  submit_fails, works, stops_pool, joins, discards,
}

-- A move that is no access to the queues changes nothing that the blocks say of the pool.
Move-flags :
    {m m' : Block} {p p' : Pc} (mv : Move m p m' p')
    → ¬ (IsQueueMove mv)
    → (m'.queued ≡ m.queued) × (m'.pool_stopping ≡ m.pool_stopping) × (m'.joined ≡ m.joined)
Move-flags pushes other = absurd (other tt)
Move-flags push_fails other = absurd (other tt)
Move-flags (takes _ _) other = absurd (other tt)
Move-flags mv other = (refl, refl, refl)

pub record Coupled {Q : Type 0} (queue : ConcurrentQueue Q) (worker_count : ℕ) (s : Together Q)
    : Type 0 where
  pub queued : (a : ℕ) → (s.blocks a).queued ≡ copies_in queue s.pool a
  pub stopping : (a : ℕ) → (s.blocks a).pool_stopping ≡ s.pool.stopping
  pub joined : (a : ℕ) → (s.blocks a).joined ≡ s.joined
  pub workers : s.pool.worker_count ≡ worker_count

module _ {Q : Type 0} {queue : ConcurrentQueue Q} {worker_count : ℕ} (n : ℕ) where
  initial-Coupled : Coupled queue worker_count (initial queue n worker_count)
  unfolding copies_in
  initial-Coupled = record {
    queued = λ a. omega (
      arith,
      queue.copies-empty a,
      tally-eq-zero (λ items. copies items a) worker_count (empty_pool queue worker_count).local
          (λ j. refl),
    );
    stopping = λ a. refl;
    joined = λ a. refl;
    workers = refl;
  }

module _ {Q : Type 0} {queue : ConcurrentQueue Q} {n worker_count : ℕ} (exact : IsExact queue) where
  Step-Coupled :
      {s t : Together Q}
      → Step queue n s t
      → Coupled queue worker_count s
      → Coupled queue worker_count t
  unfolding copies_in
  Step-Coupled (turns i a out) c = record {
    queued = c.queued;
    stopping = c.stopping;
    joined = c.joined;
    workers = c.workers;
  }
  Step-Coupled {s} (goes_on i a lt here mv other) c = record {
    queued = λ b. ground (arith, c.queued b, Move-flags mv other);
    stopping = λ b. ground (arith, c.stopping b, Move-flags mv other);
    joined = λ b. ground (arith, c.joined b, Move-flags mv other);
    workers = c.workers;
  }
  Step-Coupled {s} (submits i a self lt here own stored) c = record {
    queued =
        λ b. ground (arith, c.queued b, c.queued a, push_task-conserves queue s.pool self a b own);
    stopping = λ b. ground (arith, c.stopping b, push_task-flags queue s.pool self a);
    joined = λ b. ground (arith, c.joined b);
    workers = ground (arith, c.workers, push_task-flags queue s.pool self a);
  }
  Step-Coupled {s} (submit_fails i a self lt here own lost) c = record {
    queued = λ b. ground (arith, c.queued b, push_task-conserves queue s.pool self a b own);
    stopping = λ b. ground (arith, c.stopping b, push_task-flags queue s.pool self a);
    joined = λ b. ground (arith, c.joined b);
    workers = ground (arith, c.workers, push_task-flags queue s.pool self a);
  }
  Step-Coupled {s} (works i index tick a pool' lt out index_lt free got) c = record {
    queued = λ b.
        ground (arith, c.queued b, search-conserves queue s.pool pool' index tick a b index_lt got);
    stopping =
        λ b. ground (arith, c.stopping b, search-SameFlags queue s.pool pool' index tick a got);
    joined = λ b. ground (arith, c.joined b);
    workers = ground (arith, c.workers, search-SameFlags queue s.pool pool' index tick a got);
  }
  Step-Coupled stops_pool c = record {
    queued = c.queued;
    stopping = λ a. refl;
    joined = c.joined;
    workers = c.workers;
  }
  Step-Coupled (joins stopped quiet) c = record {
    queued = c.queued;
    stopping = c.stopping;
    joined = λ a. refl;
    workers = c.workers;
  }
  Step-Coupled {s} (discards rounds over ended) c = record {
    queued = λ a. sym (discard_pending-copies queue rounds s.pool a exact ended);
    stopping = λ a. c.stopping a ∙ sym (discard_pending-stopping queue rounds s.pool);
    joined = c.joined;
    workers = discard_pending-worker_count queue rounds s.pool ∙ c.workers;
  }

  pub Reach-Coupled : {s : Together Q} → Reach queue n worker_count s → Coupled queue worker_count s
  Reach-Coupled at_start = initial-Coupled n
  Reach-Coupled (then_step r st) = Step-Coupled st (Reach-Coupled r)
