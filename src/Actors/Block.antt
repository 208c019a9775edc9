-- ===== src/Actors/Block.antt =====
-- ActorControlBlock, with the parts of the worker pool that it meets, a shared access at a time.
-- A call of Send, Stop, Execute or Finalize is an activation with its own program point; a call
-- made inside a handler or a destructor is an activation of its own. A section under the mailbox
-- lock reads or writes the atomic state once, and is one step, at that access.
use my_utils.Base.{ℕ, ◌+◌, ◌-◌, ◌<◌, ◌≤◌, ◌≡◌, ◌≢◌, ◌⊎◌, Bool, true, false, List, [], ◌∷◌, ◌++◌}

pub data ActorState : Type 0 where
  idle scheduled running stopping dead : ActorState

abbrev pub message_budget : ℕ
message_budget = 32

-- Messages are numbers. The last four fields are history: what Send accepted, what was handed to
-- Handle and what Finalize threw away, in order, and whether Submit ever returned false.
pub record Block : Type 0 where
  pub state : ActorState  -- _state
  pub mailbox : List ℕ  -- _mailbox
  pub finalize_started : Bool  -- _finalizeStarted
  pub has_actor : Bool  -- _actor is not null
  pub registered : Bool  -- in the ActorRegistry
  pub queued : ℕ  -- copies of this task in the queues of the pool
  pub pool_stopping : Bool  -- WorkerPool::_stopping
  pub joined : Bool  -- the workers are joined
  pub accepted : List ℕ
  pub handed : List ℕ
  pub dropped : List ℕ
  pub refused : Bool

-- Where an activation stands, with the locals that are live there.
pub data Pc : Type 0 where
  outside : Pc
  sending : (message : ℕ) → Pc  -- Send, before the acceptance gate
  scheduling : Pc  -- TrySchedule, before its compare-exchange
  submitting : Pc  -- Submit, before the test of _stopping
  pushing : Pc  -- Submit, before the task is queued
  reverting : Pc  -- TrySchedule after a Submit that returned false
  executing : Pc  -- Execute, before its first compare-exchange
  draining : (processed : ℕ) → Pc  -- the head of the loop of Execute
  handling : (processed message : ℕ) → Pc  -- inside Handle
  throwing : (prev : ActorState) → Pc  -- Stop, called where Handle threw
  ending : Pc  -- Execute, before its last compare-exchange
  rechecking : Pc  -- Execute, before MailboxEmpty
  halting : (prev : ActorState) → Pc  -- the loop of Stop
  shutting : (prev : ActorState) → Pc  -- the same, called by FinalizeAll
  finalizing : Pc  -- Finalize, before the once gate
  clearing : Pc  -- Finalize, before the swap of the mailbox
  resetting : Pc  -- Finalize, before _actor.reset()
  unregistering : Pc  -- Finalize, before Unregister
  burying : Pc  -- Finalize, before the store of DEAD

abbrev pub IsClosed : ActorState → Type 0
IsClosed s = (s ≡ stopping) ⊎ (s ≡ dead)

-- One step of one activation.
pub data Move (m : Block) : Pc → Block → Pc → Type 0 where
  calls_send : (message : ℕ) → Move m outside m (sending message)
  accepts :
      {message : ℕ}
      → m.state ≢ stopping
      → m.state ≢ dead
      → Move m
          (sending message)
          (record m { mailbox = m.mailbox ++ message ∷ []; accepted = m.accepted ++ message ∷ [] })
          scheduling
  rejects : {message : ℕ} → IsClosed m.state → Move m (sending message) m outside
  schedules : m.state ≡ idle → Move m scheduling (record m { state = scheduled }) submitting
  schedule_loses : m.state ≢ idle → Move m scheduling m outside
  submit_refuses :
      m.pool_stopping ≡ true → Move m submitting (record m { refused = true }) reverting
  submit_goes_on : m.pool_stopping ≡ false → Move m submitting m pushing
  pushes : Move m pushing (record m { queued = m.queued + 1 }) outside
  -- _injection.enqueue returned false.
  push_fails : Move m pushing (record m { refused = true }) reverting
  reverts : m.state ≡ scheduled → Move m reverting (record m { state = idle }) outside
  revert_loses : m.state ≢ scheduled → Move m reverting m outside
  -- A worker that is not joined yet takes the task out of a queue.
  takes :
      0 < m.queued
      → m.joined ≡ false
      → Move m outside (record m { queued = m.queued - 1 }) executing
  runs : m.state ≡ scheduled → Move m executing (record m { state = running }) (draining 0)
  run_loses : m.state ≢ scheduled → Move m executing m finalizing
  pops :
      {processed message : ℕ} {rest : List ℕ}
      → processed < message_budget
      → m.state ≡ running
      → m.mailbox ≡ message ∷ rest
      → Move m
          (draining processed)
          (record m { mailbox = rest; handed = m.handed ++ message ∷ [] })
          (handling processed message)
  breaks_stopped : {processed : ℕ} → m.state ≢ running → Move m (draining processed) m ending
  breaks_empty : {processed : ℕ} → m.mailbox ≡ [] → Move m (draining processed) m ending
  breaks_budget :
      {processed : ℕ} → message_budget ≤ processed → Move m (draining processed) m ending
  returns :
      {processed message : ℕ} → Move m (handling processed message) m (draining (processed + 1))
  throws : {processed message : ℕ} → Move m (handling processed message) m (throwing m.state)
  throw_closed : {prev : ActorState} → IsClosed prev → Move m (throwing prev) m ending
  throw_stops :
      {prev : ActorState}
      → prev ≢ stopping
      → prev ≢ dead
      → prev ≢ idle
      → m.state ≡ prev
      → Move m (throwing prev) (record m { state = stopping }) ending
  -- Stop would finalize here.
  throw_stops_idle :
      {prev : ActorState}
      → prev ≡ idle
      → m.state ≡ prev
      → Move m (throwing prev) (record m { state = stopping }) finalizing
  throw_retries :
      {prev : ActorState}
      → prev ≢ stopping
      → prev ≢ dead
      → Move m (throwing prev) m (throwing m.state)
  ends : m.state ≡ running → Move m ending (record m { state = idle }) rechecking
  end_loses : m.state ≢ running → Move m ending m finalizing
  finds_empty : m.mailbox ≡ [] → Move m rechecking m outside
  finds_more : m.mailbox ≢ [] → Move m rechecking m scheduling
  calls_stop : Move m outside m (halting m.state)
  stop_closed : {prev : ActorState} → IsClosed prev → Move m (halting prev) m outside
  stops_idle :
      {prev : ActorState}
      → prev ≡ idle
      → m.state ≡ prev
      → Move m (halting prev) (record m { state = stopping }) finalizing
  stops_busy :
      {prev : ActorState}
      → prev ≢ stopping
      → prev ≢ dead
      → prev ≢ idle
      → m.state ≡ prev
      → Move m (halting prev) (record m { state = stopping }) outside
  stop_retries :
      {prev : ActorState}
      → prev ≢ stopping
      → prev ≢ dead
      → Move m (halting prev) m (halting m.state)
  -- FinalizeAll: Stop, and Finalize whatever Stop did. Where Stop finalizes by itself, the call of
  -- Finalize behind it would return at the once gate; it is left out.
  calls_finalize_all : m.joined ≡ true → Move m outside m (shutting m.state)
  shut_closed : {prev : ActorState} → IsClosed prev → Move m (shutting prev) m finalizing
  shuts :
      {prev : ActorState}
      → prev ≢ stopping
      → prev ≢ dead
      → m.state ≡ prev
      → Move m (shutting prev) (record m { state = stopping }) finalizing
  shut_retries :
      {prev : ActorState}
      → prev ≢ stopping
      → prev ≢ dead
      → Move m (shutting prev) m (shutting m.state)
  finalized_before : m.finalize_started ≡ true → Move m finalizing m outside
  finalizes :
      m.finalize_started ≡ false → Move m finalizing (record m { finalize_started = true }) clearing
  clears : Move m clearing (record m { mailbox = []; dropped = m.dropped ++ m.mailbox }) resetting
  resets : Move m resetting (record m { has_actor = false }) unregistering
  unregisters : Move m unregistering (record m { registered = false }) burying
  buries : Move m burying (record m { state = dead }) outside
