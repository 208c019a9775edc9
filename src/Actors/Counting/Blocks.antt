-- ===== src/Actors/Counting/Blocks.antt =====
-- The blocks of counters of the threads, and SnapshotStats.
use my_utils.Base.{ℕ, ◌≡◌, update, sym, ap, ◌∙◌, arith}
use my_utils.Counters.{Registry, count_own, snapshot_stats}
use my_utils.Counters.Laws.{Once, snapshot_stats-count_own, snapshot_stats-AreWords}
use my_utils.Runtime.Stats.{Stats, zero_stats, AreWords, accumulate_into, runtime_counters}
use my_utils.Actors.Block.{Block, Pc, Move, accepts}
use my_utils.Actors.Counting.{count}

-- A function that adds to the counters what it adds to counters that are 0.
abbrev pub Adds : (Stats → Stats) → Type 0
Adds f = (s : Stats) → AreWords s → f s ≡ accumulate_into s (f zero_stats)

pub count-Adds : {m m' : Block} {p p' : Pc} (mv : Move m p m' p') → Adds (count mv)
unfolding accumulate_into
count-Adds (accepts _ _) s words = ground (arith, words)
count-Adds mv s words = ground (arith, words)

module _ (f : Stats → Stats) (adds : Adds f) where
  -- What one thread counts in its block is counted in the totals.
  pub snapshot_stats-Adds :
      (i : ℕ) (r : Registry Stats)
      → Once i r.blocks
      → AreWords (r.values i)
      → AreWords r.retired
      → snapshot_stats runtime_counters (count_own i f r) ≡ f (snapshot_stats runtime_counters r)
  snapshot_stats-Adds i r once words retired =
      ap (λ s. snapshot_stats runtime_counters (record r { values = update r.values i s }))
        (adds (r.values i) words)
      ∙ snapshot_stats-count_own runtime_counters i (f zero_stats) r once
      ∙ sym (
          adds (snapshot_stats runtime_counters r)
            (snapshot_stats-AreWords runtime_counters r retired))
