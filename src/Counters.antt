-- ===== src/Counters.antt =====
-- The registry of per-thread counter blocks that src/SendBuffer.cpp and src/Runtime.cpp both
-- hold: StatsLock, StatsRegistry, RetiredStats, ThreadStatsBlock and SnapshotStats. Each call runs
-- under StatsLock, so a call is one step. Blocks are named by numbers in place of addresses.
pub mod Laws
use my_utils.Base.{ℕ, ◌≡◌, List, [], ◌∷◌, ◌++◌, ◌==◌, if◌then◌else◌, update}

-- AccumulateInto of one of the two sources, with the laws that its component proves. The counters
-- wrap at 64 bits, so that adding a zero block is the identity only on words.
pub record Accumulate (S : Type 0) : Type 1 where
  pub zero_block : S
  pub accumulate_into : S → S → S
  pub AreWords : S → Type 0
  pub accumulate_into_assoc :
      (t a b : S)
      → accumulate_into (accumulate_into t a) b ≡ accumulate_into t (accumulate_into a b)
  pub accumulate_into-right_comm :
      (t a b : S)
      → accumulate_into (accumulate_into t a) b ≡ accumulate_into (accumulate_into t b) a
  pub accumulate_into-zero : (t : S) → AreWords t → accumulate_into t zero_block ≡ t
  pub accumulate_into-AreWords : (t a : S) → AreWords (accumulate_into t a)

pub record Registry (S : Type 0) : Type 0 where
  pub blocks : List ℕ  -- StatsRegistry
  pub values : ℕ → S  -- the `_values` of each block
  pub retired : S  -- RetiredStats

-- std::remove over the registry, with the erase of the tail.
unfoldable pub remove : ℕ → List ℕ → List ℕ
remove i [] = []
remove i (j ∷ js) = if j == i then remove i js else j ∷ remove i js

-- ThreadStats(), or Stats() of src/SendBuffer.cpp: the thread whose block is `i` changes its counters.
abbrev pub count_own : {S : Type 0} → ℕ → (S → S) → Registry S → Registry S
count_own i f r = record r { values = update r.values i (f (r.values i)) }

module _ {S : Type 0} (a : Accumulate S) where
  -- ThreadStatsBlock()
  pub construct_block : ℕ → Registry S → Registry S
  construct_block i r = record r {
    blocks = r.blocks ++ i ∷ [];
    values = update r.values i a.zero_block;
  }

  -- ~ThreadStatsBlock()
  pub destroy_block : ℕ → Registry S → Registry S
  unfolding remove
  destroy_block i r = record r {
    blocks = remove i r.blocks;
    retired = a.accumulate_into r.retired (r.values i);
  }

  -- The loop of SnapshotStats.
  pub accumulate_all : (ℕ → S) → List ℕ → S → S
  accumulate_all v [] total = total
  accumulate_all v (i ∷ is) total = accumulate_all v is (a.accumulate_into total (v i))

  pub snapshot_stats : Registry S → S
  unfolding accumulate_all
  snapshot_stats r = accumulate_all r.values r.blocks r.retired
