-- ===== src/Actors/Counting.antt =====
-- The counters of Runtime::Stats that the calls on an actor count: what the thread of a call adds for
-- each step of Actors/Block.antt. It adds it later than it makes the step, after the lock of the mailbox
-- is released for example; Actors/Together/Counting.antt has the two apart.
pub mod Blocks
use my_utils.Base.{Bool, true, false, List, [], ◌∷◌, if◌then◌else◌, add64}
use my_utils.Actors.Block.{
  Block, Pc, Move, accepts, rejects, pushes, submit_refuses, push_fails, runs, returns, throws,
  finalizes,
}
use my_utils.Runtime.Stats.{Stats, zero_stats}

-- Send, after the acceptance gate.
abbrev pub count_send : Bool → Stats → Stats
count_send accepted s =
    if accepted
    then record s { send_accepted = add64 s.send_accepted 1 }
    else record s { send_rejected = add64 s.send_rejected 1 }

-- TrySchedule, after Submit.
abbrev pub count_schedule : Bool → Stats → Stats
count_schedule submitted s =
    if submitted
    then record s { schedule_count = add64 s.schedule_count 1 }
    else record s { schedule_aborted_system_stopping = add64 s.schedule_aborted_system_stopping 1 }

-- Execute, when the state is RUNNING.
abbrev pub count_run : Stats → Stats
count_run s = record s { run_count = add64 s.run_count 1 }

-- Execute, after Handle.
abbrev pub count_handle : Bool → Stats → Stats
count_handle threw s =
    if threw
    then record s { handler_exception_count = add64 s.handler_exception_count 1 }
    else record s { messages_handled = add64 s.messages_handled 1 }

-- Finalize, behind the once gate.
abbrev pub count_finalize : Stats → Stats
count_finalize s = record s { finalize_count = add64 s.finalize_count 1 }

-- What is counted of a step, in the end.
abbrev pub count : {m m' : Block} {p p' : Pc} → Move m p m' p' → Stats → Stats
count (accepts _ _) s = count_send true s
count (rejects _) s = count_send false s
count pushes s = count_schedule true s
count (submit_refuses _) s = count_schedule false s
count push_fails s = count_schedule false s
count (runs _) s = count_run s
count returns s = count_handle false s
count throws s = count_handle true s
count (finalizes _) s = count_finalize s
count _ s = s

-- What the thread has to count after a step.
abbrev pub counts_later : {m m' : Block} {p p' : Pc} → Move m p m' p' → List Stats
counts_later (accepts _ _) = count_send true zero_stats ∷ []
counts_later (rejects _) = count_send false zero_stats ∷ []
counts_later pushes = count_schedule true zero_stats ∷ []
counts_later (submit_refuses _) = count_schedule false zero_stats ∷ []
counts_later push_fails = count_schedule false zero_stats ∷ []
counts_later (runs _) = count_run zero_stats ∷ []
counts_later returns = count_handle false zero_stats ∷ []
counts_later throws = count_handle true zero_stats ∷ []
counts_later (finalizes _) = count_finalize zero_stats ∷ []
counts_later _ = []
