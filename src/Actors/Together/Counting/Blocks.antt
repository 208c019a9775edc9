-- ===== src/Actors/Together/Counting/Blocks.antt =====
-- What SnapshotStats shows after a step of one thread.
use my_utils.Base.{ℕ, ◌≡◌, true, arith}
use my_utils.Queue.{ConcurrentQueue}
use my_utils.Counters.{Registry, count_own, snapshot_stats}
use my_utils.Counters.Laws.{Once}
use my_utils.Runtime.Stats.{Stats, AreWords, accumulate_into, runtime_counters}
use my_utils.Runtime.Pool.{WorkerIdentity}
use my_utils.Actors.Counting.{count_schedule}
use my_utils.Actors.Counting.Blocks.{Adds, count-Adds, snapshot_stats-Adds}
use my_utils.Actors.Together.{Together, Step, goes_on, submits}
use my_utils.Actors.Together.Counting.{count_push, count_together}

submit-Adds : (self : WorkerIdentity) → Adds (λ s. count_schedule true (count_push self s))
unfolding accumulate_into
submit-Adds self s words = ground (arith, words)

module _ {Q : Type 0} {queue : ConcurrentQueue Q} {n : ℕ} {s : Together Q} where
  count_together-Adds : {t : Together Q} (st : Step queue n s t) → Adds (count_together st)
  unfolding accumulate_into
  count_together-Adds (goes_on i a lt here mv other) c words = count-Adds mv c words
  count_together-Adds (submits i a self lt here own stored) c words = submit-Adds self c words
  count_together-Adds st c words = ground (arith, words)

  -- A thread that makes a step of a call counts it in its own block, which is registered once; in the
  -- totals of SnapshotStats this step is then counted, once, and nothing else has changed, where the
  -- counters of the thread and the retired ones are words of 64 bits.
  pub snapshot_stats-count_together :
      {t : Together Q} (st : Step queue n s t) (i : ℕ) (r : Registry Stats)
      → Once i r.blocks
      → AreWords (r.values i)
      → AreWords r.retired
      → snapshot_stats runtime_counters (count_own i (count_together st) r)
        ≡ count_together st (snapshot_stats runtime_counters r)
  snapshot_stats-count_together st i r once words retired =
      snapshot_stats-Adds (count_together st) (count_together-Adds st) i r once words retired
