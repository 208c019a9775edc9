-- ===== src/Runtime/Statics.antt =====
-- The static objects of the process: the counters' globals and the body of src/Runtime.cpp, those of
-- src/SendBuffer.cpp, and the program's own, from their first use to their destruction at exit. The language
-- destroys them in the reverse of the order in which their construction ended, on the main thread,
-- while the worker threads go on.
pub mod Laws
pub mod Order
mod Tests
use my_utils.Base.{ℕ, ◌+◌, ◌≡◌, ◌≢◌, Bool, true, false, List, [], ◌∷◌, ◌==◌, if◌then◌else◌, times}

-- A static object is named by a number.
abbrev pub runtime_stats_lock : ℕ
runtime_stats_lock = 0

abbrev pub runtime_stats_registry : ℕ
runtime_stats_registry = 1

abbrev pub runtime_retired_stats : ℕ
runtime_retired_stats = 2

abbrev pub body : ℕ
body = 3

abbrev pub buffer_stats_registry : ℕ
buffer_stats_registry = 4

abbrev pub global_pool_ref : ℕ
global_pool_ref = 5

-- `alive` holds the objects whose construction has ended, the last one first. `workers` tells whether
-- a worker thread may run.
pub record Statics : Type 0 where
  pub alive : List ℕ
  pub destroyed : List ℕ
  pub workers : Bool
  pub exiting : Bool

-- The first flow through the definition of a local static constructs it.
unfoldable pub touch : ℕ → List ℕ → List ℕ
touch s alive = if times s alive == 0 then s ∷ alive else alive

unfoldable pub touch_stats_globals : List ℕ → List ℕ
unfolding touch
touch_stats_globals alive =
    touch runtime_retired_stats (touch runtime_stats_registry (touch runtime_stats_lock alive))

-- The static of Instance: its constructor runs TouchStatsGlobals, starts the workers and then ends. No
-- worker has a task before that.
unfoldable pub instance_static : Statics → Statics
unfolding touch_stats_globals
instance_static p =
    if times body p.alive == 0
    then record p { alive = body ∷ touch_stats_globals p.alive; workers = true }
    else p

pub data Step (p : Statics) : Statics → Type 0 where
  -- Any thread uses a static object other than the body, which is not destroyed yet.
  uses :
      (s : ℕ) → s ≢ body → times s p.destroyed ≡ 0 → Step p (record p { alive = touch s p.alive })
  -- A thread calls Instance before the process exits.
  starts : p.exiting ≡ false → Step p (instance_static p)
  -- Shutdown of a body that is there, up to the join of the workers.
  shuts_down : times body p.alive ≡ 1 → Step p (record p { workers = false })
  exits : Step p (record p { exiting = true })
  -- The last static object goes. ~RuntimeBody joins the workers.
  destroys :
      (s : ℕ) (rest : List ℕ)
      → p.exiting ≡ true
      → p.alive ≡ s ∷ rest
      → Step p (record p {
        alive = rest;
        destroyed = s ∷ p.destroyed;
        workers = if s == body then false else p.workers;
      })

pub data Reach : Statics → Type 0 where
  at_start : Reach (record { alive = []; destroyed = []; workers = false; exiting = false })
  then_step : {p q : Statics} → Reach p → Step p q → Reach q

-- Any number of steps.
pub data Run (p : Statics) : Statics → Type 0 where
  no_step : Run p p
  and_then : {q r : Statics} → Run p q → Step q r → Run p r
