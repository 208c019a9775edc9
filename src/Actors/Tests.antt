-- ===== src/Actors/Tests.antt =====
-- One message from Send to Handle and a Stop during Handle, with two activations; and a Shutdown
-- with two actors.
use my_utils.Base.{
  ℕ, ◌≡◌, ◌⊎◌, inl, inr, List, ◌++◌, ◌∷◌, true, false, [], update, tally, refl, arith,
}
use my_utils.Counters.{remove}
use my_utils.Actors.Registry.{Acb, Registry, Body, finalized, finalize, try_register, shutdown}
use my_utils.Actors.Shutdown.{In, Joins, shutdown_finalizes}
use my_utils.Actors.Block.{
  idle, scheduled, running, stopping, dead, Block, Pc, outside, sending, scheduling, submitting,
  pushing, executing, draining, handling, ending, rechecking, halting, finalizing, clearing,
  IsClosed,
}
use my_utils.Actors.Block.{
  calls_send, accepts, schedules, submit_goes_on, pushes, takes, runs, pops, returns, breaks_empty,
  ends, finds_empty, calls_stop, stops_busy, breaks_stopped, end_loses, finalizes,
}
use my_utils.Actors.System.{
  System, is_executing, pick, spawned, Reach, at_spawn, then_step, Run, no_step, and_then,
}
use my_utils.Actors.Safety.{
  one_execute, run_has_actor, finalize_once, messages_in_order, no_lost_wakeup, stop_is_final,
}

abbrev after : System → ℕ → Block → Pc → System
after s i m p = record { block = m; pc = update s.pc i p }

abbrev pub sent : System
sent = after spawned 0 spawned.block (sending 7)

abbrev pub accepted_one : System
accepted_one = after sent 0 (record sent.block { mailbox = 7 ∷ []; accepted = 7 ∷ [] }) scheduling

abbrev pub to_submit : System
to_submit = after accepted_one 0 (record accepted_one.block { state = scheduled }) submitting

abbrev pub to_push : System
to_push = after to_submit 0 to_submit.block pushing

abbrev pub queued_one : System
queued_one = after to_push 0 (record to_push.block { queued = 1 }) outside

abbrev pub taken : System
taken = after queued_one 1 (record queued_one.block { queued = 0 }) executing

abbrev pub started_run : System
started_run = after taken 1 (record taken.block { state = running }) (draining 0)

abbrev pub in_handler : System
in_handler =
    after started_run 1 (record started_run.block { mailbox = []; handed = 7 ∷ [] }) (handling 0 7)

queued_one-Reach : Reach 2 queued_one
queued_one-Reach =
    then_step
      (then_step
        (then_step
          (then_step (then_step at_spawn (pick 0 (omega arith) (calls_send 7)))
            (pick 0 (omega arith) (accepts (ground arith) (ground arith))))
          (pick 0 (omega arith) (schedules refl)))
        (pick 0 (omega arith) (submit_goes_on refl)))
      (pick 0 (omega arith) pushes)

in_handler-Reach : Reach 2 in_handler
in_handler-Reach =
    then_step
      (then_step (then_step queued_one-Reach (pick 1 (omega arith) (takes (omega arith) refl)))
        (pick 1 (omega arith) (runs refl)))
      (pick 1 (omega arith) (pops (omega arith) refl refl))

abbrev pub handled : System
handled = after in_handler 1 in_handler.block (draining 1)

abbrev drained : System
drained = after handled 1 handled.block ending

abbrev to_recheck : System
to_recheck = after drained 1 (record drained.block { state = idle }) rechecking

abbrev at_rest : System
at_rest = after to_recheck 1 to_recheck.block outside

at_rest-Reach : Reach 2 at_rest
at_rest-Reach =
    then_step
      (then_step
        (then_step (then_step in_handler-Reach (pick 1 (omega arith) returns))
          (pick 1 (omega arith) (breaks_empty refl)))
        (pick 1 (omega arith) (ends refl)))
      (pick 1 (omega arith) (finds_empty refl))

at_rest_outside : (i : ℕ) → at_rest.pc i ≡ outside
at_rest_outside i = ground arith

abbrev to_stop : System
to_stop = after in_handler 0 in_handler.block (halting running)

abbrev stopped : System
stopped = after to_stop 0 (record to_stop.block { state = stopping }) outside

abbrev stopped_handled : System
stopped_handled = after stopped 1 stopped.block (draining 1)

abbrev stopped_ending : System
stopped_ending = after stopped_handled 1 stopped.block ending

abbrev at_gate : System
at_gate = after stopped_ending 1 stopped.block finalizing

abbrev in_finalize : System
in_finalize = after at_gate 1 (record stopped.block { finalize_started = true }) clearing

stopped-Reach : Reach 2 stopped
stopped-Reach =
    then_step (then_step in_handler-Reach (pick 0 (omega arith) calls_stop))
      (pick 0 (omega arith) (stops_busy (ground arith) (ground arith) (ground arith) refl))

in_finalize-Reach : Reach 2 in_finalize
in_finalize-Reach =
    then_step
      (then_step
        (then_step (then_step stopped-Reach (pick 1 (omega arith) returns))
          (pick 1 (omega arith) (breaks_stopped (ground arith))))
        (pick 1 (omega arith) (end_loses (ground arith))))
      (pick 1 (omega arith) (finalizes refl))

one_execute_example : ◌≡◌ {A = ℕ} 1 1
one_execute_example =
    one_execute in_handler-Reach 1 1 (omega arith) (omega arith) (omega arith) (omega arith)

run_has_actor_example :
    (in_handler.block.has_actor ≡ true)
    × (in_handler.block.finalize_started ≡ false)
    × (in_handler.block.queued ≡ 0)
    × ((in_handler.block.state ≡ running) ⊎ (in_handler.block.state ≡ stopping))
run_has_actor_example = run_has_actor in_handler-Reach 1 (omega arith) (omega arith)

finalize_once_example :
    (◌≡◌ {A = ℕ} 1 1)
    × (in_finalize.block.state ≡ stopping)
    × (tally is_executing 2 in_finalize.pc ≡ 0)
finalize_once_example =
    finalize_once in_finalize-Reach 1 1 (omega arith) (omega arith) (omega arith) (omega arith)

messages_in_order_example :
    (in_handler.block.handed ++ (in_handler.block.mailbox ++ in_handler.block.dropped)
      ≡ in_handler.block.accepted)
    × ((in_handler.block.dropped ≡ []) ⊎ IsClosed in_handler.block.state)
messages_in_order_example = messages_in_order in_handler-Reach

no_lost_wakeup_example :
    (at_rest.block.mailbox ≡ [])
    × ((at_rest.block.state ≡ idle) × (at_rest.block.handed ≡ at_rest.block.accepted)
        ⊎ (at_rest.block.state ≡ dead))
no_lost_wakeup_example = no_lost_wakeup at_rest-Reach at_rest_outside refl refl refl

finalizing-Run : Run 2 stopped in_finalize
finalizing-Run =
    and_then
      (and_then
        (and_then (and_then no_step (pick 1 (omega arith) returns))
          (pick 1 (omega arith) (breaks_stopped (ground arith))))
        (pick 1 (omega arith) (end_loses (ground arith))))
      (pick 1 (omega arith) (finalizes refl))

stop_is_final_example :
    (in_finalize.block.accepted ≡ stopped.block.accepted)
    × (in_finalize.block.handed ≡ stopped.block.handed)
    × IsClosed in_finalize.block.state
stop_is_final_example = stop_is_final (inl refl) finalizing-Run

abbrev pub fresh_block : Acb
fresh_block = record { state = idle; finalize_started = false; mailbox = 4 ∷ []; has_actor = true }

abbrev pub two_actors : Body
two_actors = record {
  shutdown_started = false;
  pool_stopping = false;
  registry = record { accepting = true; members = 1 ∷ 2 ∷ []; blocks = λ _. fresh_block };
}

-- A worker finalizes actor 2 before it is joined.
abbrev pub last_worker : Registry → Registry
last_worker r = finalize r 2

In-remove : (c : ℕ) (ds : List ℕ) → In c ds → In c (remove 2 ds) ⊎ (c ≡ 2)
unfolding remove
In-remove c [] h = absurd h
In-remove c (d ∷ ds) (inl e) = ground (arith, e)
In-remove c (d ∷ ds) (inr i) = ground (arith, In-remove c ds i)

pub last_worker-Joins : Joins last_worker
unfolding finalize
last_worker-Joins = record {
  keeps_gate = λ r. ground arith;
  settles = λ r settled c. ground (arith, settled 2, settled c);
  keeps_members = λ r c i. ground (arith, In-remove c r.members i);
}

shutdown_finalizes_example :
    ((shutdown last_worker two_actors).registry.blocks 1 ≡ finalized)
    × ((shutdown last_worker two_actors).registry.members ≡ [])
    × ((try_register (shutdown last_worker two_actors).registry 3).1 ≡ false)
    × (shutdown last_worker (shutdown last_worker two_actors) ≡ shutdown last_worker two_actors)
shutdown_finalizes_example =
    shutdown_finalizes last_worker two_actors 1 3 last_worker-Joins refl (λ c. inl refl) (inl refl)
