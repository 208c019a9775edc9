-- ===== src/Actors/Safety.antt =====
-- What callers of an actor rely on, in every system that Spawn and any steps reach.
use my_utils.Base.{
  ℕ, ◌+◌, ◌≤◌, ◌<◌, ◌≡◌, ◌⊎◌, true, false, [], ◌++◌, append-nil, tally, pair-le-tally, le-tally,
  tally-eq-zero, ℕ_discrete, refl, ap, arith, ◌∙◌,
}
use my_utils.Actors.Block.{idle, running, stopping, dead, Block, Pc, outside, IsClosed, Move}
use my_utils.Actors.Block.{pushes}
use my_utils.Actors.System.{
  System, is_executing, Step, pick, stops_pool, joins, discards, Reach, Run, no_step, and_then,
}
use my_utils.Actors.Invariant.Defs.{
  in_submit, in_entry, in_run, in_wakeup, in_gate, in_swap, in_cleanup, counts, Inv,
}
use my_utils.Actors.Invariant.Guards.{guard}
use my_utils.Actors.Steps.{tally-is_executing, Reach-Inv}

-- In every reachable system two activations that stand in Execute, up to its last
-- compare-exchange, are the same: no two handlers of an actor overlap.
pub one_execute :
    {n : ℕ} {s : System}
    → Reach n s
    → (i j : ℕ) → i < n
    → j < n
    → 0 < is_executing (s.pc i)
    → 0 < is_executing (s.pc j)
    → i ≡ j
one_execute {n} {s} r i j p q a b = elim (ℕ_discrete i j) [
  | yes same ↦ same
  | no other ↦ ground (
    arith,
    (Reach-Inv r).one_task,
    tally-is_executing n s.pc,
    pair-le-tally is_executing n s.pc i j p q other,
  )
]

-- In every reachable system, while an activation is in Execute between its two compare-exchanges,
-- inside Handle too, the actor object exists, Finalize has not begun, the task is in no queue, and
-- the state is RUNNING or STOPPING.
pub run_has_actor :
    {n : ℕ} {s : System}
    → Reach n s
    → (i : ℕ) → i < n
    → 0 < in_run (s.pc i)
    → (s.block.has_actor ≡ true)
      × (s.block.finalize_started ≡ false)
      × (s.block.queued ≡ 0)
      × ((s.block.state ≡ running) ⊎ (s.block.state ≡ stopping))
run_has_actor {n} {s} r i lt inside =
    let inv = Reach-Inv r in ground (arith, inv, le-tally in_run n s.pc i lt)

-- In every reachable system the task of an actor is in the queues at most once, and a task that
-- is queued is not executed.
pub queued_once :
    {n : ℕ} {s : System}
    → Reach n s
    → (s.block.queued ≤ 1) × ((s.block.queued ≡ 0) ⊎ (tally is_executing n s.pc ≡ 0))
queued_once {n} {s} r =
    let inv = Reach-Inv r in ground (arith, inv.one_task, tally-is_executing n s.pc)

-- In every reachable system two activations that are past the once gate of Finalize are the
-- same; meanwhile the state is STOPPING and nobody is in Execute.
pub finalize_once :
    {n : ℕ} {s : System}
    → Reach n s
    → (i j : ℕ) → i < n
    → j < n
    → 0 < in_swap (s.pc i) + in_cleanup (s.pc i)
    → 0 < in_swap (s.pc j) + in_cleanup (s.pc j)
    → (i ≡ j) × (s.block.state ≡ stopping) × (tally is_executing n s.pc ≡ 0)
finalize_once {n} {s} r i j p q a b = elim (ℕ_discrete i j) [
  | yes same ↦ ground (
    arith,
    inv,
    same,
    le-tally in_swap n s.pc i p,
    le-tally in_cleanup n s.pc i p,
    tally-is_executing n s.pc,
  )
  | no other ↦ ground (
    arith,
    inv,
    pair-le-tally in_swap n s.pc i j p q other,
    pair-le-tally in_cleanup n s.pc i j p q other,
    le-tally in_swap n s.pc i p,
    le-tally in_cleanup n s.pc i p,
    le-tally in_swap n s.pc j q,
    le-tally in_cleanup n s.pc j q,
    tally-is_executing n s.pc,
  )
]
  where
    inv : Inv s.block (counts n s.pc)
    inv = Reach-Inv r

-- In every reachable system the messages handed to Handle, then the ones in the mailbox, then
-- the ones that Finalize dropped are the accepted messages, in order; and messages are dropped
-- only when the state is STOPPING or DEAD.
pub messages_in_order :
    {n : ℕ} {s : System}
    → Reach n s
    → (s.block.handed ++ (s.block.mailbox ++ s.block.dropped) ≡ s.block.accepted)
      × ((s.block.dropped ≡ []) ⊎ IsClosed s.block.state)
messages_in_order {n} {s} r = let inv = Reach-Inv r in (inv.fifo, ground (arith, inv))

-- In every reachable system where every call has returned, no task is queued, the workers are
-- not joined and Submit never returned false, the actor is idle and has handled every accepted
-- message, or is dead; the mailbox is empty.
pub no_lost_wakeup :
    {n : ℕ} {s : System}
    → Reach n s
    → ((i : ℕ) → s.pc i ≡ outside)
    → s.block.queued ≡ 0
    → s.block.joined ≡ false
    → s.block.refused ≡ false
    → (s.block.mailbox ≡ [])
      × ((s.block.state ≡ idle) × (s.block.handed ≡ s.block.accepted) ⊎ (s.block.state ≡ dead))
no_lost_wakeup {n} {s} r out q j f = grind (
  arith,
  append-nil,
  inv,
  zero_in in_submit refl,
  zero_in in_entry refl,
  zero_in in_run refl,
  zero_in in_wakeup refl,
  zero_in in_gate refl,
  zero_in in_swap refl,
  zero_in in_cleanup refl,
)
  where
    inv : Inv s.block (counts n s.pc)
    inv = Reach-Inv r

    zero_in : (w : Pc → ℕ) → w outside ≡ 0 → tally w n s.pc ≡ 0
    zero_in w e = tally-eq-zero w n s.pc λ i. ap w (out i) ∙ e

Move-IsClosed :
    {m m' : Block} {p p' : Pc}
    → Move m p m' p'
    → IsClosed m.state
    → (m'.accepted ≡ m.accepted) × (m'.handed ≡ m.handed) × IsClosed m'.state
Move-IsClosed pushes c = ground arith
Move-IsClosed mv c = ground (arith, guard mv)

Step-IsClosed :
    {n : ℕ} {s t : System}
    → Step n s t
    → IsClosed s.block.state
    → (t.block.accepted ≡ s.block.accepted)
      × (t.block.handed ≡ s.block.handed)
      × IsClosed t.block.state
Step-IsClosed (pick i lt mv) c = Move-IsClosed mv c
Step-IsClosed stops_pool c = (refl, refl, c)
Step-IsClosed (joins a b) c = (refl, refl, c)
Step-IsClosed (discards a) c = (refl, refl, c)

-- Once the state is STOPPING or DEAD it stays so: whatever runs afterwards, no further message is
-- accepted and none is handed to Handle.
pub stop_is_final :
    {n : ℕ} {s t : System}
    → IsClosed s.block.state
    → Run n s t
    → (t.block.accepted ≡ s.block.accepted)
      × (t.block.handed ≡ s.block.handed)
      × IsClosed t.block.state
stop_is_final c no_step = (refl, refl, c)
stop_is_final c (and_then before st) =
    let (a, h, closed) = stop_is_final c before in
    let (a', h', closed') = Step-IsClosed st closed in (a' ∙ a, h' ∙ h, closed')
