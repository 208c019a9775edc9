-- ===== src/Actors/Alone.antt =====
-- Execute and Finalize as functions: what a call does where no other call on the actor moves
-- meanwhile, and Handle makes no call on its own actor: an actor that sends to itself or stops itself
-- in Handle has other runs, which are those of Actors/Block.antt. `throws` tells of which messages
-- Handle throws.
pub mod Runs
pub mod Batches
mod Tests
use my_utils.Base.{ℕ, zero, suc, ◌+◌, ◌≡◌, Bool, true, false, List, [], ◌∷◌, ◌++◌, if◌then◌else◌}
use my_utils.Actors.Block.{
  ActorState, idle, scheduled, running, stopping, dead, Block, message_budget,
}

-- The state of the loop of Execute at its end.
pub record Drained : Type 0 where
  pub handed : List ℕ
  pub rest : List ℕ
  pub threw : Bool

unfoldable pub finalize_alone : Block → Block
finalize_alone m = if m.finalize_started then m else record m {
  state = dead;
  finalize_started = true;
  mailbox = [];
  dropped = m.dropped ++ m.mailbox;
  has_actor = false;
  registered = false;
}

-- MailboxEmpty and TrySchedule after the return to IDLE.
unfoldable pub reschedule_alone : Block → List ℕ → Block
reschedule_alone m [] = record m { state = idle }
reschedule_alone m (message ∷ rest) =
    if m.pool_stopping
    then record m { state = idle; refused = true }
    else record m { state = scheduled; queued = m.queued + 1 }

unfoldable pub end_alone : Block → Drained → Block
unfolding finalize_alone reschedule_alone
end_alone m d =
    let m' = record m { mailbox = d.rest; handed = d.handed } in
    if d.threw
    then finalize_alone (record m' { state = stopping })
    else reschedule_alone (record m' { state = running }) d.rest

module _ (throws : ℕ → Bool) where
  -- The loop with `left` rounds to go.
  unfoldable pub drain : (left : ℕ) → List ℕ → List ℕ → Drained
  drain zero handed box = record { handed = handed; rest = box; threw = false }
  drain (suc left) handed [] = record { handed = handed; rest = []; threw = false }
  drain (suc left) handed (message ∷ box) =
      if throws message
      then record { handed = handed ++ message ∷ []; rest = box; threw = true }
      else drain left (handed ++ message ∷ []) box

  -- Execute where its first compare-exchange finds the state.
  unfoldable pub execute_in : ActorState → Block → Block
  unfolding end_alone drain
  execute_in scheduled m = end_alone m (drain message_budget m.handed m.mailbox)
  execute_in _ m = finalize_alone m

  -- Execute, undisturbed by a Send or Stop of another thread or of its own Handle.
  unfoldable pub execute_alone : Block → Block
  unfolding execute_in
  execute_alone m = execute_in m.state m
