-- ===== src/Actors/Invariant/Guards.antt =====
-- What the tactics read of a move: its premises, and how it shifts the counts.
use my_utils.Base.{
  ℕ, ◌+◌, ◌<◌, ◌≡◌, ◌≢◌, true, false, [], ◌∷◌, update, tally-update, le-tally, ◌≤◌, arith,
}
use my_utils.Actors.Block.{idle, scheduled, running, stopping, dead, Block, Pc, IsClosed, Move}
use my_utils.Actors.Block.{
  accepts, rejects, schedules, schedule_loses, submit_refuses, submit_goes_on, reverts,
  revert_loses, takes, runs, run_loses, pops, breaks_stopped, breaks_empty, throw_stops,
  throw_stops_idle, ends, end_loses, finds_empty, finds_more, stops_idle, stops_busy,
  calls_finalize_all, shut_closed, shuts, shut_retries, finalized_before, finalizes,
}
use my_utils.Actors.Invariant.Defs.{
  in_submit, in_revert, in_entry, in_run, in_wakeup, in_shutdown, in_late_shutdown, in_gate,
  in_swap, in_cleanup, Counts, counts,
}

-- The premise of a move, for a clause that does not name it.
abbrev pub Guard : {m m' : Block} {p p' : Pc} → Move m p m' p' → Type 0
Guard {m} (accepts _ _) = (m.state ≢ stopping) × (m.state ≢ dead)
Guard {m} (rejects _) = IsClosed m.state
Guard {m} (schedules _) = m.state ≡ idle
Guard {m} (schedule_loses _) = m.state ≢ idle
Guard {m} (submit_refuses _) = m.pool_stopping ≡ true
Guard {m} (submit_goes_on _) = m.pool_stopping ≡ false
Guard {m} (reverts _) = m.state ≡ scheduled
Guard {m} (revert_loses _) = m.state ≢ scheduled
Guard {m} (takes _ _) = (0 < m.queued) × (m.joined ≡ false)
Guard {m} (runs _) = m.state ≡ scheduled
Guard {m} (run_loses _) = m.state ≢ scheduled
Guard {m} (pops {message = message} {rest = rest} _ _ _) =
    (m.state ≡ running) × (m.mailbox ≡ message ∷ rest)
Guard {m} (breaks_stopped _) = m.state ≢ running
Guard {m} (breaks_empty _) = m.mailbox ≡ []
Guard {m} (throw_stops {prev} _ _ _ _) =
    (prev ≢ stopping) × (prev ≢ dead) × (prev ≢ idle) × (m.state ≡ prev)
Guard {m} (throw_stops_idle {prev} _ _) = (prev ≡ idle) × (m.state ≡ prev)
Guard {m} (ends _) = m.state ≡ running
Guard {m} (end_loses _) = m.state ≢ running
Guard {m} (finds_empty _) = m.mailbox ≡ []
Guard {m} (finds_more _) = m.mailbox ≢ []
Guard {m} (stops_idle {prev} _ _) = (prev ≡ idle) × (m.state ≡ prev)
Guard {m} (stops_busy {prev} _ _ _ _) =
    (prev ≢ stopping) × (prev ≢ dead) × (prev ≢ idle) × (m.state ≡ prev)
Guard {m} (calls_finalize_all _) = m.joined ≡ true
Guard {m} (shut_closed {prev} _) = IsClosed prev
Guard {m} (shuts {prev} _ _ _) = (prev ≢ stopping) × (prev ≢ dead) × (m.state ≡ prev)
Guard {m} (shut_retries {prev} _ _) = (prev ≢ stopping) × (prev ≢ dead)
Guard {m} (finalized_before _) = m.finalize_started ≡ true
Guard {m} (finalizes _) = m.finalize_started ≡ false
Guard _ = Unit

pub guard : {m m' : Block} {p p' : Pc} (mv : Move m p m' p') → Guard mv
guard (accepts a b) = (a, b)
guard (rejects a) = a
guard (schedules a) = a
guard (schedule_loses a) = a
guard (submit_refuses a) = a
guard (submit_goes_on a) = a
guard (reverts a) = a
guard (revert_loses a) = a
guard (takes a b) = (a, b)
guard (runs a) = a
guard (run_loses a) = a
guard (pops _ r q) = (r, q)
guard (breaks_stopped a) = a
guard (breaks_empty a) = a
guard (throw_stops a b c d) = (a, b, c, d)
guard (throw_stops_idle a b) = (a, b)
guard (ends a) = a
guard (end_loses a) = a
guard (finds_empty a) = a
guard (finds_more a) = a
guard (stops_idle a b) = (a, b)
guard (stops_busy a b c d) = (a, b, c, d)
guard (calls_finalize_all a) = a
guard (shut_closed a) = a
guard (shuts a b c) = (a, b, c)
guard (shut_retries a b) = (a, b)
guard (finalized_before a) = a
guard (finalizes a) = a
guard _ = tt

-- The counts before and after a move from `p` to `p'`.
pub record Shift (p p' : Pc) (k l : Counts) : Type 0 where
  pub submits : l.submits + in_submit p ≡ k.submits + in_submit p'
  pub reverts : l.reverts + in_revert p ≡ k.reverts + in_revert p'
  pub entries : l.entries + in_entry p ≡ k.entries + in_entry p'
  pub runs : l.runs + in_run p ≡ k.runs + in_run p'
  pub wakeups : l.wakeups + in_wakeup p ≡ k.wakeups + in_wakeup p'
  pub shutdowns : l.shutdowns + in_shutdown p ≡ k.shutdowns + in_shutdown p'
  pub late_shutdowns :
      l.late_shutdowns + in_late_shutdown p ≡ k.late_shutdowns + in_late_shutdown p'
  pub gates : l.gates + in_gate p ≡ k.gates + in_gate p'
  pub swaps : l.swaps + in_swap p ≡ k.swaps + in_swap p'
  pub cleanups : l.cleanups + in_cleanup p ≡ k.cleanups + in_cleanup p'
  pub running : in_run p ≤ k.runs
  pub cleaning : in_swap p + in_cleanup p ≤ k.swaps + k.cleanups

pub Shift-update :
    (n : ℕ) (pc : ℕ → Pc) (i : ℕ) (p' : Pc)
    → i < n
    → Shift (pc i) p' (counts n pc) (counts n (update pc i p'))
Shift-update n pc i p' lt = record {
  submits = tally-update in_submit n pc i p' lt;
  reverts = tally-update in_revert n pc i p' lt;
  entries = tally-update in_entry n pc i p' lt;
  runs = tally-update in_run n pc i p' lt;
  wakeups = tally-update in_wakeup n pc i p' lt;
  shutdowns = tally-update in_shutdown n pc i p' lt;
  late_shutdowns = tally-update in_late_shutdown n pc i p' lt;
  gates = tally-update in_gate n pc i p' lt;
  swaps = tally-update in_swap n pc i p' lt;
  cleanups = tally-update in_cleanup n pc i p' lt;
  running = le-tally in_run n pc i lt;
  cleaning = omega (arith, le-tally in_swap n pc i lt, le-tally in_cleanup n pc i lt);
}
