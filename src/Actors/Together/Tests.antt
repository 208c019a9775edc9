-- ===== src/Actors/Together/Tests.antt =====
-- Two actors on one worker: a message to one of them, from Send until the pool is at rest.
use my_utils.Base.{ℕ, ◌≡◌, ◌≤◌, ◌⊎◌, [], ◌∷◌, List, none, some, false, update, inr, refl, arith}
use my_utils.Queue.Fifo.{fifo, fifo-IsExact}
use my_utils.Runtime.Pool.{
  WorkerIdentity, push_task, acquire_anywhere, pop_local, take_back, take_injected, try_steal,
  steal_from, or_else,
}
use my_utils.Runtime.Conservation.{copies_in}
use my_utils.Actors.Block.{
  idle, scheduled, running, dead, Block, Pc, outside, sending, scheduling, submitting, pushing,
  executing, draining, handling, ending, rechecking,
}
use my_utils.Actors.Block.{
  calls_send, accepts, schedules, submit_goes_on, runs, pops, returns, breaks_empty, ends,
  finds_empty,
}
use my_utils.Actors.System
use my_utils.Actors.System.{spawned}
use my_utils.Actors.Together.{
  Together, moved, with_pool, initial, Reach, at_start, then_step, turns, goes_on, submits, works,
}
use my_utils.Actors.Together.Projection.{project, actors_run_alone}
use my_utils.Actors.Together.Quiet.{served_once, all_handled}

-- The caller is no worker.
abbrev pub foreign : WorkerIdentity
foreign = record { is_worker = false; index = 0 }

abbrev pub S : Type 0
S = Together (List ℕ)

abbrev pub start : S
start = initial fifo 2 1

abbrev pub turned : S
turned = record start { calls = update start.calls 0 (record { actor = 1; pc = outside }) }

abbrev pub next : S → ℕ → Block → Pc → S
next s i m p = moved s i 1 m p

abbrev pub sent : S
sent = next turned 0 spawned.block (sending 7)

abbrev pub accepted_one : S
accepted_one =
    next sent 0 (record (sent.blocks 1) { mailbox = 7 ∷ []; accepted = 7 ∷ [] }) scheduling

abbrev pub to_submit : S
to_submit = next accepted_one 0 (record (accepted_one.blocks 1) { state = scheduled }) submitting

abbrev pub to_push : S
to_push = next to_submit 0 (to_submit.blocks 1) pushing

abbrev pub queued_one : S
queued_one =
    with_pool (record start.pool { injection = 1 ∷ [] })
      (next to_push 0 (record (to_push.blocks 1) { queued = 1 }) outside)

start-Reach : Reach fifo 2 1 to_push
start-Reach =
    then_step
      (then_step
        (then_step
          (then_step (then_step at_start (turns 0 1 refl))
            (goes_on 0 1 (omega arith) refl (calls_send 7) (λ z. z)))
          (goes_on 0 1 (omega arith) refl (accepts (ground arith) (ground arith)) (λ z. z)))
        (goes_on 0 1 (omega arith) refl (schedules refl) (λ z. z)))
      (goes_on 0 1 (omega arith) refl (submit_goes_on refl) (λ z. z))

queued_one-Reach : Reach fifo 2 1 queued_one
unfolding push_task
queued_one-Reach = then_step start-Reach (submits 0 1 foreign (omega arith) refl (λ e. cc e) refl)

abbrev pub taken : S
taken =
    with_pool start.pool (next queued_one 1 (record (queued_one.blocks 1) { queued = 0 }) executing)

abbrev pub running_one : S
running_one = next taken 1 (record (taken.blocks 1) { state = running }) (draining 0)

abbrev pub in_handler : S
in_handler =
    next running_one 1 (record (running_one.blocks 1) { mailbox = []; handed = 7 ∷ [] })
      (handling 0 7)

abbrev handled : S
handled = next in_handler 1 (in_handler.blocks 1) (draining 1)

abbrev drained : S
drained = next handled 1 (handled.blocks 1) ending

abbrev to_recheck : S
to_recheck = next drained 1 (record (drained.blocks 1) { state = idle }) rechecking

abbrev at_rest : S
at_rest = next to_recheck 1 (to_recheck.blocks 1) outside

pub finds_task : acquire_anywhere fifo queued_one.pool 0 ≡ some (1, start.pool)
unfolding acquire_anywhere or_else pop_local take_back take_injected try_steal steal_from
finds_task = refl

finds_nothing : acquire_anywhere fifo at_rest.pool 0 ≡ none
unfolding acquire_anywhere or_else pop_local take_back take_injected try_steal steal_from
finds_nothing = refl

in_handler-Reach : Reach fifo 2 1 in_handler
in_handler-Reach =
    then_step
      (then_step
        (then_step queued_one-Reach
          (works 1 0 0 1 start.pool (omega arith) refl (omega arith) refl (inr finds_task)))
        (goes_on 1 1 (omega arith) refl (runs refl) (λ z. z)))
      (goes_on 1 1 (omega arith) refl (pops (omega arith) refl refl) (λ z. z))

at_rest-Reach : Reach fifo 2 1 at_rest
at_rest-Reach =
    then_step
      (then_step
        (then_step (then_step in_handler-Reach (goes_on 1 1 (omega arith) refl returns (λ z. z)))
          (goes_on 1 1 (omega arith) refl (breaks_empty refl) (λ z. z)))
        (goes_on 1 1 (omega arith) refl (ends refl) (λ z. z)))
      (goes_on 1 1 (omega arith) refl (finds_empty refl) (λ z. z))

all_return : (i : ℕ) → (at_rest.calls i).pc ≡ outside
all_return i = ground arith

actors_run_alone_example :
    System.Reach 2 (project 1 queued_one)
    × ((queued_one.blocks 1).queued ≡ copies_in fifo queued_one.pool 1)
    × (copies_in fifo queued_one.pool 1 ≤ 1)
actors_run_alone_example = actors_run_alone fifo-IsExact queued_one-Reach 1

all_handled_example :
    ((at_rest.blocks 1).mailbox ≡ [])
    × (((at_rest.blocks 1).state ≡ idle) × ((at_rest.blocks 1).handed ≡ (at_rest.blocks 1).accepted)
        ⊎ ((at_rest.blocks 1).state ≡ dead))
all_handled_example =
    all_handled fifo-IsExact at_rest-Reach 1 0 all_return refl refl (omega arith) (omega arith)
      finds_nothing

served_once_example : (copies_in fifo in_handler.pool 1 ≡ 0) × ◌≡◌ {A = ℕ} 1 1
served_once_example =
    served_once fifo-IsExact in_handler-Reach 1 1 1 (omega arith) (omega arith) refl refl
      (omega arith) (omega arith)
