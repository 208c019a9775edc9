-- ===== src/Actors/Together/Counting.antt =====
-- What the calls on many actors and their pool count. A call makes its step first, which the other
-- threads see, and counts it later, each counter on its own, before its next step.
pub mod Accounts
pub mod Delayed
pub mod Messages
pub mod Blocks
mod Tests
use my_utils.Base.{ℕ, ◌<◌, ◌≡◌, Bool, true, false, List, [], ◌∷◌, if◌then◌else◌, add64, update}
use my_utils.Queue.{ConcurrentQueue}
use my_utils.Runtime.Pool.{WorkerIdentity}
use my_utils.Runtime.Stats.{Stats, zero_stats, accumulate_into}
use my_utils.Actors.Counting.{count_schedule, count, counts_later}
use my_utils.Actors.Together.{
  Together, Step, initial, turns, goes_on, submits, submit_fails, works, stops_pool, joins,
  discards,
}

-- Submit, where the task is in a queue: the deque of the worker that calls, or the injection queue.
abbrev pub count_push : WorkerIdentity → Stats → Stats
count_push self s =
    if self.is_worker
    then record s { local_push_count = add64 s.local_push_count 1 }
    else record s { injection_push_count = add64 s.injection_push_count 1 }

module _ {Q : Type 0} {queue : ConcurrentQueue Q} {n : ℕ} where
  -- What is counted of a step in the end, all counters together.
  abbrev pub count_together : {s t : Together Q} → Step queue n s t → Stats → Stats
  count_together (goes_on _ _ _ _ mv _) c = count mv c
  count_together (submits _ _ self _ _ _ _) c = count_schedule true (count_push self c)
  count_together (submit_fails _ _ _ _ _ _ _) c = count_schedule false c
  count_together _ c = c

  -- What the calls have still to count after the step, which `waiting` tells for each place: Submit
  -- counts the push, and TrySchedule the schedule when Submit has returned.
  abbrev pub to_count : {s t : Together Q} → Step queue n s t → (ℕ → List Stats) → ℕ → List Stats
  to_count (goes_on i _ _ _ mv _) waiting = update waiting i (counts_later mv)
  to_count (submits i _ self _ _ _ _) waiting =
      update waiting i (count_push self zero_stats ∷ (count_schedule true zero_stats ∷ []))
  to_count (submit_fails i _ _ _ _ _ _) waiting =
      update waiting i (count_schedule false zero_stats ∷ [])
  to_count _ waiting = waiting

  -- The call that makes the step has counted its steps before.
  abbrev pub HasCounted : {s t : Together Q} → Step queue n s t → (ℕ → List Stats) → Type 0
  HasCounted (turns i _ _) waiting = waiting i ≡ []
  HasCounted (goes_on i _ _ _ _ _) waiting = waiting i ≡ []
  HasCounted (submits i _ _ _ _ _ _) waiting = waiting i ≡ []
  HasCounted (submit_fails i _ _ _ _ _ _) waiting = waiting i ≡ []
  HasCounted (works i _ _ _ _ _ _ _ _ _) waiting = waiting i ≡ []
  HasCounted stops_pool waiting = Unit {0}
  HasCounted (joins _ _) waiting = Unit {0}
  HasCounted (discards _ _ _) waiting = Unit {0}

module _ {Q : Type 0} (queue : ConcurrentQueue Q) (n worker_count actors : ℕ) where
  -- A reachable pool, what its calls have still to count, and what all threads have counted since the
  -- start, of a program with actors below `actors`.
  pub data Counted : Together Q → (ℕ → List Stats) → Stats → Type 0 where
    at_start : Counted (initial queue n worker_count) (λ _. []) zero_stats
    then_step :
        {s t : Together Q} {waiting : ℕ → List Stats} {c : Stats}
        → Counted s waiting c
        → (st : Step queue n s t) → HasCounted st waiting
        → ((i : ℕ) → (t.calls i).actor < actors)
        → Counted t (to_count st waiting) c
    then_count :
        {s : Together Q} {waiting : ℕ → List Stats} {c d : Stats} {ds : List Stats}
        → Counted s waiting c
        → (i : ℕ) → i < n
        → waiting i ≡ d ∷ ds
        → Counted s (update waiting i ds) (accumulate_into c d)
