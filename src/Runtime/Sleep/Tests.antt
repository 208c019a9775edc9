-- ===== src/Runtime/Sleep/Tests.antt =====
-- One worker that falls asleep, a task that another thread submits, and the end of the pool.
use my_utils.Base.{ℕ, ◌<◌, ◌≤◌, ◌≡◌, ◌≢◌, ◌⊎◌, true, false, none, update, total, refl, arith}
use my_utils.Runtime.Sleep.Defs.{
  Shared, Pc, Threads, wake, moves, stops, notifies_all, started, Reach, at_start, then_step,
  polling, locking, entered, counting, checking_own, checking_injection, checking, waiting,
  relocked, offering, enqueued,
}
use my_utils.Runtime.Sleep.Defs.{
  starts, gives_up, enters, stays, counts_in, own_empty, injection_empty, sleeps, offers, enqueues,
  relocks,
}
use my_utils.Runtime.Sleep.Weights.{checks}
use my_utils.Runtime.Sleep.Safety.{Attends, sleepers_are_covered, asleep_means_empty}
use my_utils.Runtime.Sleep.Shutdown.{nobody_sleeps_on, steps_left}
use my_utils.Runtime.Sleep.Joining.{
  CanMove, Run, at_rest, then_move, HaveEnded, threads_come_to_end,
}

abbrev after : Threads → ℕ → Shared → Pc → Threads
after s i m p = record s { shared = m; pc = update s.pc i p }

abbrev to_poll : Threads
to_poll = after (started 1) 0 (started 1).shared polling

abbrev to_lock : Threads
to_lock = after to_poll 0 to_poll.shared locking

abbrev under_lock : Threads
under_lock = after to_lock 0 (record to_lock.shared { locked = true }) entered

abbrev to_count : Threads
to_count = after under_lock 0 under_lock.shared counting

abbrev counted : Threads
counted = after to_count 0 (record to_count.shared { idle_count = 1 }) checking_own

abbrev to_injection : Threads
to_injection = after counted 0 counted.shared checking_injection

abbrev to_victims : Threads
to_victims = after to_injection 0 counted.shared (checking 1)

abbrev asleep : Threads
asleep = after to_victims 0 (record counted.shared { locked = false }) waiting

asleep-Reach : Reach 1 2 asleep
asleep-Reach =
    then_step
      (then_step
        (then_step
          (then_step
            (then_step
              (then_step
                (then_step (then_step at_start (moves 0 (omega arith) (starts refl)))
                  (moves 0 (omega arith) gives_up))
                (moves 0 (omega arith) (enters refl)))
              (moves 0 (omega arith) (stays refl)))
            (moves 0 (omega arith) counts_in))
          (moves 0 (omega arith) (own_empty refl)))
        (moves 0 (omega arith) (injection_empty refl)))
      (moves 0 (omega arith) (sleeps (omega arith)))

abbrev offered : Threads
offered = after asleep 1 asleep.shared offering

abbrev submitted : Threads
submitted = after offered 1 (record asleep.shared { injection = 1 }) enqueued

submitted-Reach : Reach 1 2 submitted
submitted-Reach =
    then_step (then_step asleep-Reach (moves 1 (omega arith) (offers refl)))
      (moves 1 (omega arith) enqueues)

sleepers_are_covered_example :
    (submitted.shared.stopping ≡ true) ⊎ ((i : ℕ) × (i < 2) × Attends 1 none i (submitted.pc i))
sleepers_are_covered_example =
    sleepers_are_covered (omega arith) (omega arith) submitted-Reach none tt 0 (omega arith)
      (omega arith) refl

asleep_means_empty_example : (asleep.shared.injection ≡ 0) × (asleep.shared.local 0 ≡ 0)
asleep_means_empty_example =
    asleep_means_empty (omega arith) (omega arith) (omega arith) (omega arith) asleep-Reach
      (λ i lt. ground arith) (λ i ge. ground arith) refl 0 (omega arith)

abbrev stopped : Threads
stopped = record submitted { shared = record submitted.shared { stopping = true } }

abbrev told : Threads
told = record stopped { pc = λ i. wake (stopped.pc i); announced = true }

told-Reach : Reach 1 2 told
told-Reach = then_step (then_step submitted-Reach (stops refl)) (notifies_all refl)

nobody_sleeps_on_example :
    (told.pc 0 ≢ waiting) × (checks (told.pc 0) ≡ 0) × (told.shared.stopping ≡ true)
nobody_sleeps_on_example =
    nobody_sleeps_on (omega arith) (omega arith) told-Reach refl 0 (omega arith)

abbrev relocked_worker : Threads
relocked_worker = after told 0 (record told.shared { locked = true }) relocked

woken_run : Run 1 2 told 1 relocked_worker
woken_run = then_move at_rest (moves 0 (omega arith) (relocks refl)) tt

threads_come_to_end_example :
    (1 ≤ total (λ i. steps_left) 2 told.pc)
    × (CanMove 1 2 relocked_worker ⊎ HaveEnded 1 2 relocked_worker)
threads_come_to_end_example =
    threads_come_to_end (omega arith) (omega arith) told-Reach refl woken_run
