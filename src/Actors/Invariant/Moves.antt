-- ===== src/Actors/Invariant/Moves.antt =====
-- A step of one activation keeps the invariant.
use my_utils.Base.{
  ◌+◌, ◌<◌, ◌≤◌, ◌≡◌, ◌≢◌, ◌⊎◌, true, false, [], ◌∷◌, ◌++◌, subst, ◌∙◌, arith, append-nil,
  append_assoc,
}
use my_utils.Actors.Block.{idle, scheduled, running, stopping, dead, Block, Pc, IsClosed, Move}
use my_utils.Actors.Block.{accepts, pushes, pops, clears}
use my_utils.Actors.Invariant.Defs.{Counts, tasks, Inv}
use my_utils.Actors.Invariant.Guards.{guard, Shift}

module _ {m : Block} {k : Counts} (inv : Inv m k) where
  Move-one_task :
      {p p' : Pc} {m' : Block} {l : Counts} → Move m p m' p' → Shift p p' k l → tasks m' l ≤ 1
  Move-one_task pushes s = ground arith
  Move-one_task mv s = ground (arith, guard mv)

  Move-idle_free :
      {p p' : Pc} {m' : Block} {l : Counts}
      → Move m p m' p'
      → Shift p p' k l
      → m'.state ≡ idle
      → tasks m' l ≡ 0
  Move-idle_free pushes s h = ground arith
  Move-idle_free mv s h = ground (arith, guard mv)

  Move-scheduled_once :
      {p p' : Pc} {m' : Block} {l : Counts}
      → Move m p m' p'
      → Shift p p' k l
      → m'.state ≡ scheduled
      → (l.runs ≡ 0) × ((tasks m' l ≡ 1) ⊎ (m'.joined ≡ true))
  Move-scheduled_once pushes s h = ground arith
  Move-scheduled_once mv s h = ground (arith, guard mv)

  Move-running_once :
      {p p' : Pc} {m' : Block} {l : Counts}
      → Move m p m' p'
      → Shift p p' k l
      → m'.state ≡ running
      → l.runs ≡ 1
  Move-running_once pushes s h = ground arith
  Move-running_once mv s h = ground (arith, guard mv)

  Move-joined_quiet :
      {p p' : Pc} {m' : Block} {l : Counts}
      → Move m p m' p'
      → Shift p p' k l
      → m'.joined ≡ true
      → l.entries + l.runs ≡ 0
  Move-joined_quiet pushes s h = ground arith
  Move-joined_quiet mv s h = ground (arith, guard mv)

  Move-shutdown_joined :
      {p p' : Pc} {m' : Block} {l : Counts}
      → Move m p m' p'
      → Shift p p' k l
      → 0 < l.shutdowns
      → m'.joined ≡ true
  Move-shutdown_joined pushes s h = ground arith
  Move-shutdown_joined mv s h = ground (arith, guard mv)

  Move-late_shut :
      {p p' : Pc} {m' : Block} {l : Counts}
      → Move m p m' p'
      → Shift p p' k l
      → 0 < l.late_shutdowns
      → IsClosed m'.state
  Move-late_shut pushes s h = ground arith
  Move-late_shut mv s h = ground (arith, guard mv)

  Move-sealed :
      {p p' : Pc} {m' : Block} {l : Counts}
      → Move m p m' p'
      → Shift p p' k l
      → (m'.finalize_started ≡ true) ⊎ (0 < l.gates + (l.swaps + l.cleanups))
      → IsClosed m'.state × (l.runs ≡ 0) × ((tasks m' l ≡ 0) ⊎ (m'.joined ≡ true))
  Move-sealed pushes s h = ground arith
  Move-sealed mv s h = ground (arith, guard mv)

  Move-unstarted :
      {p p' : Pc} {m' : Block} {l : Counts}
      → Move m p m' p'
      → Shift p p' k l
      → m'.finalize_started ≡ false
      → (l.swaps + l.cleanups ≡ 0) × (m'.state ≢ dead) × (m'.has_actor ≡ true)
  Move-unstarted pushes s h = ground arith
  Move-unstarted mv s h = ground (arith, guard mv)

  Move-started :
      {p p' : Pc} {m' : Block} {l : Counts}
      → Move m p m' p'
      → Shift p p' k l
      → m'.finalize_started ≡ true
      → (l.swaps + l.cleanups ≡ 1) × (m'.state ≢ dead)
        ⊎ (l.swaps + l.cleanups ≡ 0) × (m'.state ≡ dead)
  Move-started pushes s h = ground arith
  Move-started mv s h = ground (arith, guard mv)

  Move-emptied :
      {p p' : Pc} {m' : Block} {l : Counts}
      → Move m p m' p'
      → Shift p p' k l
      → (0 < l.cleanups) ⊎ (m'.state ≡ dead)
      → m'.mailbox ≡ []
  Move-emptied pushes s h = ground arith
  Move-emptied mv s h = ground (arith, guard mv)

  Move-keeps_pending :
      {p p' : Pc} {m' : Block} {l : Counts}
      → Move m p m' p'
      → Shift p p' k l
      → l.cleanups ≡ 0
      → m'.state ≢ dead
      → m'.dropped ≡ []
  Move-keeps_pending pushes s h q = ground arith
  Move-keeps_pending mv s h q = ground (arith, guard mv)

  Move-reverted :
      {p p' : Pc} {m' : Block} {l : Counts}
      → Move m p m' p'
      → Shift p p' k l
      → 0 < l.reverts
      → m'.refused ≡ true
  Move-reverted pushes s h = ground arith
  Move-reverted mv s h = ground (arith, guard mv)

  Move-no_lost_wakeup :
      {p p' : Pc} {m' : Block} {l : Counts}
      → Move m p m' p'
      → Shift p p' k l
      → m'.state ≡ idle
      → m'.mailbox ≢ []
      → (0 < l.wakeups) ⊎ (m'.refused ≡ true)
  Move-no_lost_wakeup pushes s h q = ground arith
  Move-no_lost_wakeup mv s h q = ground (arith, guard mv)

  Move-stop_progress :
      {p p' : Pc} {m' : Block} {l : Counts}
      → Move m p m' p'
      → Shift p p' k l
      → m'.state ≡ stopping
      → (0 < tasks m' l + (l.gates + (l.swaps + l.cleanups)))
        ⊎ (m'.joined ≡ true)
        ⊎ (m'.refused ≡ true)
  Move-stop_progress pushes s h = ground arith
  Move-stop_progress mv s h = ground (arith, guard mv)

  Move-fifo :
      {p p' : Pc} {m' : Block} {l : Counts}
      → Move m p m' p'
      → Shift p p' k l
      → m'.handed ++ (m'.mailbox ++ m'.dropped) ≡ m'.accepted
  Move-fifo (accepts {message = message} a b) s =
      grind (arith, append-nil, append_assoc, nothing_dropped, inv.fifo)
    where
      nothing_dropped : m.dropped ≡ []
      nothing_dropped = ground (arith, a, b)
  Move-fifo (pops {message = message} {rest = rest} _ r q) s =
      append_assoc m.handed (message ∷ []) (rest ++ m.dropped)
      ∙ subst (λ box. m.handed ++ (box ++ m.dropped) ≡ m.accepted) q inv.fifo
  Move-fifo clears s = grind (arith, append-nil, nothing_dropped, inv.fifo)
    where
      nothing_dropped : m.dropped ≡ []
      nothing_dropped = ground arith
  Move-fifo pushes s = ground arith
  Move-fifo mv s = ground (arith, guard mv)

pub Move-Inv :
    {m m' : Block} {p p' : Pc} {k l : Counts} → Inv m k → Move m p m' p' → Shift p p' k l → Inv m' l
Move-Inv inv mv s = record {
  one_task = Move-one_task inv mv s;
  idle_free = Move-idle_free inv mv s;
  scheduled_once = Move-scheduled_once inv mv s;
  running_once = Move-running_once inv mv s;
  joined_quiet = Move-joined_quiet inv mv s;
  shutdown_joined = Move-shutdown_joined inv mv s;
  late_shut = Move-late_shut inv mv s;
  sealed = Move-sealed inv mv s;
  unstarted = Move-unstarted inv mv s;
  started = Move-started inv mv s;
  emptied = Move-emptied inv mv s;
  keeps_pending = Move-keeps_pending inv mv s;
  reverted = Move-reverted inv mv s;
  no_lost_wakeup = Move-no_lost_wakeup inv mv s;
  stop_progress = Move-stop_progress inv mv s;
  fifo = Move-fifo inv mv s;
}
