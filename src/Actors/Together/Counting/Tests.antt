-- ===== src/Actors/Together/Counting/Tests.antt =====
-- What is counted of a message until it is inside Handle.
use my_utils.Base.{ℕ, List, ◌+◌, ◌%◌, ◌^◌, ◌≡◌, ◌≢◌, [], ◌∷◌, inl, inr, refl, tally, arith, update}
use my_utils.Queue.Fifo.{fifo, fifo-IsExact}
use my_utils.Runtime.Pool.{push_task}
use my_utils.Runtime.Stats.{Stats, zero_stats, accumulate_into, runtime_counters}
use my_utils.Actors.Block.{idle, stopping, dead}
use my_utils.Actors.Block.{calls_send, accepts, schedules, submit_goes_on, runs, pops}
use my_utils.Counters.{Registry, count_own, snapshot_stats}
use my_utils.Actors.Together.{Together, Step, turns, goes_on, submits, works}
use my_utils.Actors.Together.Counting.Blocks.{snapshot_stats-count_together}
use my_utils.Actors.Together.Tests.{
  foreign, start, sent, accepted_one, to_push, queued_one, in_handler, finds_task,
}
use my_utils.Actors.Together.Counting.{Counted, at_start, then_step, then_count, count_together}
use my_utils.Actors.Together.Counting.Accounts.{handling_of}
use my_utils.Actors.Together.Counting.Messages.{unhandled_of, all_messages_accounted}

abbrev accepted : Stats
accepted = record zero_stats { send_accepted = 1 }

abbrev scheduled : Stats
scheduled = record accepted { schedule_count = 1; injection_push_count = 1 }

abbrev run : Stats
run = record scheduled { run_count = 1 }

-- A state in which the calls have counted all that they did.
abbrev HaveCounted : Together (List ℕ) → Stats → Type 0
HaveCounted s c =
    (waiting : ℕ → List Stats) × Counted fifo 2 1 2 s waiting c × ((i : ℕ) → waiting i ≡ [])

to_push-HaveCounted : HaveCounted to_push accepted
unfolding accumulate_into
to_push-HaveCounted = (
  _,
  then_step
      (then_step
        (then_count
          (then_step
            (then_step (then_step at_start (turns 0 1 refl) refl (λ i. ground arith))
              (goes_on 0 1 (omega arith) refl (calls_send 7) (λ z. z)) refl (λ i. ground arith))
            (goes_on 0 1 (omega arith) refl (accepts (ground arith) (ground arith)) (λ z. z)) refl
            (λ i. ground arith))
          0 (omega arith) refl)
        (goes_on 0 1 (omega arith) refl (schedules refl) (λ z. z)) refl (λ i. ground arith))
      (goes_on 0 1 (omega arith) refl (submit_goes_on refl) (λ z. z)) refl (λ i. ground arith),
  λ i. ground arith,
)

queued_one-HaveCounted : HaveCounted queued_one scheduled
unfolding push_task accumulate_into
queued_one-HaveCounted =
    let (w, counted, done) = to_push-HaveCounted in
    (
      _,
      then_count
          (then_count
            (then_step counted (submits 0 1 foreign (omega arith) refl (λ e. cc e) refl) (done 0)
              (λ i. ground arith))
            0 (omega arith) refl)
          0 (omega arith) refl,
      λ i. ground (arith, done i),
    )

in_handler-HaveCounted : HaveCounted in_handler run
unfolding accumulate_into
in_handler-HaveCounted =
    let (w, counted, done) = queued_one-HaveCounted in
    (
      _,
      then_step
          (then_count
            (then_step
              (then_step counted
                (works 1 0 0 1 start.pool (omega arith) refl (omega arith) refl (inr finds_task))
                (done 1) (λ i. ground arith))
              (goes_on 1 1 (omega arith) refl (runs refl) (λ z. z)) (done 1) (λ i. ground arith))
            1 (omega arith) refl)
          (goes_on 1 1 (omega arith) refl (pops (omega arith) refl refl) (λ z. z)) refl
          (λ i. ground arith),
      λ i. ground (arith, done i),
    )

all_messages_accounted_example :
    run.send_accepted
    ≡ (run.messages_handled
        + run.handler_exception_count
        + tally handling_of 2 in_handler.calls
        + tally unhandled_of 2 in_handler.blocks)
      % 2 ^ 64
all_messages_accounted_example =
    all_messages_accounted fifo-IsExact in_handler-HaveCounted.1 in_handler-HaveCounted.2

-- Two threads: the message is sent by the one whose block is 5.
abbrev two_threads : Registry Stats
two_threads = record {
  blocks = 5 ∷ 8 ∷ [];
  values = update (λ _. accepted) 8 run;
  retired = record zero_stats { schedule_count = 3; injection_push_count = 3 };
}

not_stopping : idle ≢ stopping
not_stopping = ground arith

not_dead : idle ≢ dead
not_dead = ground arith

abbrev accepting : Step fifo 2 sent accepted_one
accepting = goes_on 0 1 (omega arith) refl (accepts not_stopping not_dead) (λ z. z)

snapshot_stats-count_together_example :
    snapshot_stats runtime_counters (count_own 5 (count_together accepting) two_threads)
    ≡ count_together accepting (snapshot_stats runtime_counters two_threads)
snapshot_stats-count_together_example =
    snapshot_stats-count_together accepting 5 two_threads (inl (refl, omega arith)) (omega arith)
      (omega arith)
