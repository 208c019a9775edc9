-- ===== src/Actors/Invariant/Defs.antt =====
-- What every reachable system of an actor keeps. The activations are counted by where they stand.
use my_utils.Base.{ℕ, ◌+◌, ◌<◌, ◌≤◌, ◌≡◌, ◌≢◌, ◌⊎◌, true, false, [], ◌++◌, tally}
use my_utils.Actors.Block.{
  idle, scheduled, running, stopping, dead, Block, Pc, scheduling, submitting, pushing, reverting,
  executing, draining, handling, throwing, ending, rechecking, shutting, finalizing, clearing,
  resetting, unregistering, burying, IsClosed,
}

-- Submit and the two ends of it.
abbrev pub in_submit : Pc → ℕ
in_submit submitting = 1
in_submit pushing = 1
in_submit reverting = 1
in_submit _ = 0

abbrev pub in_revert : Pc → ℕ
in_revert reverting = 1
in_revert _ = 0

abbrev pub in_entry : Pc → ℕ
in_entry executing = 1
in_entry _ = 0

-- Execute while it holds the state RUNNING, or held it before a Stop.
abbrev pub in_run : Pc → ℕ
in_run (draining _) = 1
in_run (handling _ _) = 1
in_run (throwing _) = 1
in_run ending = 1
in_run _ = 0

-- On the way to the compare-exchange of TrySchedule.
abbrev pub in_wakeup : Pc → ℕ
in_wakeup scheduling = 1
in_wakeup rechecking = 1
in_wakeup _ = 0

abbrev pub in_shutdown : Pc → ℕ
in_shutdown (shutting _) = 1
in_shutdown _ = 0

-- The same, where the loop of Stop is about to return.
abbrev pub in_late_shutdown : Pc → ℕ
in_late_shutdown (shutting stopping) = 1
in_late_shutdown (shutting dead) = 1
in_late_shutdown _ = 0

abbrev pub in_gate : Pc → ℕ
in_gate finalizing = 1
in_gate _ = 0

abbrev pub in_swap : Pc → ℕ
in_swap clearing = 1
in_swap _ = 0

-- Finalize after the swap of the mailbox.
abbrev pub in_cleanup : Pc → ℕ
in_cleanup resetting = 1
in_cleanup unregistering = 1
in_cleanup burying = 1
in_cleanup _ = 0

-- How many activations stand in each place.
pub record Counts : Type 0 where
  pub submits : ℕ
  pub reverts : ℕ
  pub entries : ℕ
  pub runs : ℕ
  pub wakeups : ℕ
  pub shutdowns : ℕ
  pub late_shutdowns : ℕ
  pub gates : ℕ
  pub swaps : ℕ
  pub cleanups : ℕ

abbrev pub counts : ℕ → (ℕ → Pc) → Counts
counts n pc = record {
  submits = tally in_submit n pc;
  reverts = tally in_revert n pc;
  entries = tally in_entry n pc;
  runs = tally in_run n pc;
  wakeups = tally in_wakeup n pc;
  shutdowns = tally in_shutdown n pc;
  late_shutdowns = tally in_late_shutdown n pc;
  gates = tally in_gate n pc;
  swaps = tally in_swap n pc;
  cleanups = tally in_cleanup n pc;
}

-- The copies of the task that will reach Execute, or are in it.
abbrev pub tasks : Block → Counts → ℕ
tasks m k = m.queued + (k.submits + (k.entries + k.runs))

pub record Inv (m : Block) (k : Counts) : Type 0 where
  pub one_task : tasks m k ≤ 1
  pub idle_free : m.state ≡ idle → tasks m k ≡ 0
  pub scheduled_once : m.state ≡ scheduled → (k.runs ≡ 0) × ((tasks m k ≡ 1) ⊎ (m.joined ≡ true))
  pub running_once : m.state ≡ running → k.runs ≡ 1
  pub joined_quiet : m.joined ≡ true → k.entries + k.runs ≡ 0
  pub shutdown_joined : 0 < k.shutdowns → m.joined ≡ true
  pub late_shut : 0 < k.late_shutdowns → IsClosed m.state
  pub sealed :
      (m.finalize_started ≡ true) ⊎ (0 < k.gates + (k.swaps + k.cleanups))
      → IsClosed m.state × (k.runs ≡ 0) × ((tasks m k ≡ 0) ⊎ (m.joined ≡ true))
  pub unstarted :
      m.finalize_started ≡ false
      → (k.swaps + k.cleanups ≡ 0) × (m.state ≢ dead) × (m.has_actor ≡ true)
  pub started :
      m.finalize_started ≡ true
      → (k.swaps + k.cleanups ≡ 1) × (m.state ≢ dead)
        ⊎ (k.swaps + k.cleanups ≡ 0) × (m.state ≡ dead)
  pub emptied : (0 < k.cleanups) ⊎ (m.state ≡ dead) → m.mailbox ≡ []
  pub keeps_pending : k.cleanups ≡ 0 → m.state ≢ dead → m.dropped ≡ []
  pub reverted : 0 < k.reverts → m.refused ≡ true
  pub no_lost_wakeup : m.state ≡ idle → m.mailbox ≢ [] → (0 < k.wakeups) ⊎ (m.refused ≡ true)
  pub stop_progress :
      m.state ≡ stopping
      → (0 < tasks m k + (k.gates + (k.swaps + k.cleanups)))
        ⊎ (m.joined ≡ true)
        ⊎ (m.refused ≡ true)
  pub fifo : m.handed ++ (m.mailbox ++ m.dropped) ≡ m.accepted
