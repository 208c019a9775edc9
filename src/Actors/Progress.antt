-- ===== src/Actors/Progress.antt =====
-- No call on an actor waits for another one, whatever the state.
use my_utils.Base.{ℕ, ◌≡◌, ◌≢◌, ◌⊎◌, inl, inr, Bool-cases, List-cases, dec_lt, refl, arith}
use my_utils.Actors.Block.{
  ActorState, idle, scheduled, running, stopping, dead, Block, Pc, outside, sending, scheduling,
  submitting, pushing, reverting, executing, draining, handling, throwing, ending, rechecking,
  halting, shutting, finalizing, clearing, resetting, unregistering, burying, IsClosed, Move,
}
use my_utils.Actors.Block.{
  message_budget, accepts, rejects, schedules, schedule_loses, submit_refuses, submit_goes_on,
  pushes, reverts, revert_loses, runs, run_loses, pops, breaks_stopped, breaks_empty, breaks_budget,
  returns, throw_closed, throw_retries, ends, end_loses, finds_empty, finds_more, stop_closed,
  stop_retries, shut_closed, shut_retries, finalized_before, finalizes, clears, resets, unregisters,
  buries,
}

-- There is a step that an activation at `p` can take.
abbrev pub CanStep : Block → Pc → Type 0
CanStep m p = (m' : Block) × (p' : Pc) × Move m p m' p'

is_open : (s : ActorState) → IsClosed s ⊎ ((s ≢ stopping) × (s ≢ dead))
is_open stopping = inl (inl refl)
is_open dead = inl (inr refl)
is_open s = inr (ground arith)

is_idle : (s : ActorState) → (s ≡ idle) ⊎ (s ≢ idle)
is_idle idle = inl refl
is_idle s = inr (ground arith)

is_scheduled : (s : ActorState) → (s ≡ scheduled) ⊎ (s ≢ scheduled)
is_scheduled scheduled = inl refl
is_scheduled s = inr (ground arith)

is_running : (s : ActorState) → (s ≡ running) ⊎ (s ≢ running)
is_running running = inl refl
is_running s = inr (ground arith)

goes_by : {m m' : Block} {p p' : Pc} → Move m p m' p' → CanStep m p
goes_by {m' = m'} {p' = p'} mv = (m', p', mv)

drain_goes_on : (m : Block) (processed : ℕ) → CanStep m (draining processed)
drain_goes_on m processed = elim (dec_lt processed message_budget) [
  | no over ↦ goes_by (breaks_budget (omega arith))
  | yes within ↦ elim (is_running m.state) [
    | inr e ↦ goes_by (breaks_stopped e)
    | inl e ↦ elim (List-cases m.mailbox) [
      | inl none_left ↦ goes_by (breaks_empty none_left)
      | inr ((message, rest), f) ↦ goes_by (pops within e f)
    ]
  ]
]

-- Whatever the state of the actor and wherever the other calls stand, a call that has not returned
-- can take a step; Handle is taken to return.
pub calls_go_on : (m : Block) (p : Pc) → p ≢ outside → CanStep m p
calls_go_on m outside inside = absurd (inside refl)
calls_go_on m (sending message) _ = elim (is_open m.state) [
  | inl c ↦ goes_by (rejects c)
  | inr o ↦ goes_by (accepts o.0 o.1)
]
calls_go_on m scheduling _ = elim (is_idle m.state) [
  | inl e ↦ goes_by (schedules e)
  | inr e ↦ goes_by (schedule_loses e)
]
calls_go_on m submitting _ = elim (Bool-cases m.pool_stopping) [
  | inl e ↦ goes_by (submit_refuses e)
  | inr e ↦ goes_by (submit_goes_on e)
]
calls_go_on m pushing _ = goes_by pushes
calls_go_on m reverting _ = elim (is_scheduled m.state) [
  | inl e ↦ goes_by (reverts e)
  | inr e ↦ goes_by (revert_loses e)
]
calls_go_on m executing _ = elim (is_scheduled m.state) [
  | inl e ↦ goes_by (runs e)
  | inr e ↦ goes_by (run_loses e)
]
calls_go_on m (draining processed) _ = drain_goes_on m processed
calls_go_on m (handling processed message) _ = goes_by returns
calls_go_on m (throwing prev) _ = elim (is_open prev) [
  | inl c ↦ goes_by (throw_closed c)
  | inr o ↦ goes_by (throw_retries o.0 o.1)
]
calls_go_on m ending _ = elim (is_running m.state) [
  | inl e ↦ goes_by (ends e)
  | inr e ↦ goes_by (end_loses e)
]
calls_go_on m rechecking _ = elim (List-cases m.mailbox) [
  | inl e ↦ goes_by (finds_empty e)
  | inr (c, e) ↦ goes_by (finds_more (ground (arith, e)))
]
calls_go_on m (halting prev) _ = elim (is_open prev) [
  | inl c ↦ goes_by (stop_closed c)
  | inr o ↦ goes_by (stop_retries o.0 o.1)
]
calls_go_on m (shutting prev) _ = elim (is_open prev) [
  | inl c ↦ goes_by (shut_closed c)
  | inr o ↦ goes_by (shut_retries o.0 o.1)
]
calls_go_on m finalizing _ = elim (Bool-cases m.finalize_started) [
  | inl e ↦ goes_by (finalized_before e)
  | inr e ↦ goes_by (finalizes e)
]
calls_go_on m clearing _ = goes_by clears
calls_go_on m resetting _ = goes_by resets
calls_go_on m unregistering _ = goes_by unregisters
calls_go_on m burying _ = goes_by buries
