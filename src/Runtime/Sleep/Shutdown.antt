-- ===== src/Runtime/Sleep/Shutdown.antt =====
-- The end of the workers: what StopAndJoin waits for comes.
use my_utils.Base.{ℕ, ◌^◌, ◌<◌, ◌≡◌, ◌≢◌, true, none, total, le-total, total-update, ap, arith}
use my_utils.Runtime.Sleep.Defs.{
  Shared, Pc, Move, Threads, notified, IsNotifier, Step, moves, notifies_one, notifies_none, stops,
  notifies_all, Reach, looping, polling, executing, pushing, pushed, signalling, notifying, locking,
  entered, counting, checking_own, checking_injection, checking, found, unlocking, waiting, woken,
  relocked, leaving, exited, outside, offering, enqueued, ringing,
}
use my_utils.Runtime.Sleep.Defs.{gives_up}
use my_utils.Runtime.Sleep.Weights.{waits, checks, Inv}
use my_utils.Runtime.Sleep.Guards.{guard}
use my_utils.Runtime.Sleep.Steps.{Reach-Inv}

-- In every reachable state of fewer than 2 ^ 63 workers and 2 ^ 64 threads after the notify_all of
-- StopAndJoin, no worker sleeps, and none is between its test of _stopping and wait, so that none
-- can fall asleep any more.
pub nobody_sleeps_on :
    {n k : ℕ} {s : Threads}
    → n < 2 ^ 63
    → k < 2 ^ 64
    → Reach n k s
    → s.announced ≡ true
    → (i : ℕ) → i < k
    → (s.pc i ≢ waiting) × (checks (s.pc i) ≡ 0) × (s.shared.stopping ≡ true)
nobody_sleeps_on {n} {k} {s} few all_few r told i lt = (
  λ e. omega (arith, inv.announced_wakes told, le-total (λ i. waits) k s.pc i lt, ap waits e),
  omega (
    arith,
    (inv.queues none tt).stopped_checks (inv.announced_stops told),
    le-total (λ i. checks) k s.pc i lt,
  ),
  inv.announced_stops told,
)
  where
    inv : Inv n k s
    inv = Reach-Inv few all_few r

-- How many steps a thread is from its end once the pool is stopping.
abbrev pub steps_left : Pc → ℕ
steps_left looping = 1
steps_left executing = 2
steps_left locking = 2
steps_left entered = 1
steps_left leaving = 2
steps_left relocked = 3
steps_left woken = 4
steps_left waiting = 5
steps_left polling = 3
steps_left unlocking = 3
steps_left found = 4
steps_left notifying = 3
steps_left signalling = 4
steps_left pushed = 5
steps_left pushing = 6
steps_left ringing = 1
steps_left enqueued = 2
steps_left offering = 3
steps_left counting = 7
steps_left checking_own = 7
steps_left checking_injection = 7
steps_left (checking _) = 7
steps_left exited = 0
steps_left outside = 0

Move-steps_left :
    {n i : ℕ} {m m' : Shared} {p p' : Pc}
    → Move n i m p m' p'
    → m.stopping ≡ true
    → checks p ≡ 0
    → steps_left p' < steps_left p
Move-steps_left gives_up h c = omega arith
Move-steps_left mv h c = ground (arith, guard mv)

notified-steps_left : (p : Pc) → IsNotifier p → steps_left (notified p) < steps_left p
notified-steps_left notifying h = omega arith
notified-steps_left ringing h = omega arith
notified-steps_left p h = ground (arith, h)

-- A step of a worker or of a thread that submits, and not of StopAndJoin.
abbrev pub IsThreadStep : {n k : ℕ} {s t : Threads} → Step n k s t → Type 0
IsThreadStep (moves _ _ _) = Unit {0}
IsThreadStep (notifies_one _ _ _ _ _ _) = Unit {0}
IsThreadStep (notifies_none _ _ _ _) = Unit {0}
IsThreadStep (stops _) = ⊥
IsThreadStep (notifies_all _) = ⊥

-- With fewer than 2 ^ 63 workers and 2 ^ 64 threads, after the notify_all of StopAndJoin every step
-- of a thread, the return of Execute among them, makes a measure of the threads smaller.
pub threads_run_down :
    {n k : ℕ} {s t : Threads}
    → n < 2 ^ 63
    → k < 2 ^ 64
    → Reach n k s
    → s.announced ≡ true
    → (st : Step n k s t) → IsThreadStep st
    → (total (λ i. steps_left) k t.pc < total (λ i. steps_left) k s.pc)
threads_run_down {n} {k} {s} few all_few r told (moves i {p = p} lt mv) own =
    let (awake, free, stopped) = nobody_sleeps_on few all_few r told i lt in
    omega (arith, total-update (λ i. steps_left) k s.pc i p lt, Move-steps_left mv stopped free)
threads_run_down {n} {k} {s} few all_few r told (notifies_one i x lt xt h e) own =
    absurd ((nobody_sleeps_on few all_few r told x xt).0 e)
threads_run_down {n} {k} {s} few all_few r told (notifies_none i lt h awake) own = omega (
  arith,
  total-update (λ i. steps_left) k s.pc i (notified (s.pc i)) lt,
  notified-steps_left (s.pc i) h,
)
threads_run_down few all_few r told (stops free) own = absurd own
threads_run_down few all_few r told (notifies_all stopped) own = absurd own
