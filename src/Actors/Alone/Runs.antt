-- ===== src/Actors/Alone/Runs.antt =====
-- A lone call of Execute takes the steps of the model to the result of its function.
use my_utils.Base.{
  ℕ, zero, suc, ◌+◌, ◌≡◌, inl, inr, Bool, true, false, List, [], ◌∷◌, ◌++◌, if◌then◌else◌,
  Bool-cases, refl, arith,
}
use my_utils.Actors.Block.{
  ActorState, idle, scheduled, running, stopping, Block, Pc, outside, submitting, executing,
  draining, handling, ending, finalizing, Move, message_budget,
}
use my_utils.Actors.Block.{
  schedules, submit_refuses, submit_goes_on, pushes, reverts, runs, run_loses, pops, breaks_empty,
  breaks_budget, returns, throws, throw_stops, ends, end_loses, finds_empty, finds_more,
  finalized_before, finalizes, clears, resets, unregisters, buries,
}
use my_utils.Actors.Alone.{
  Drained, finalize_alone, reschedule_alone, drain, end_alone, execute_in, execute_alone,
}

-- Steps of one activation, one after the other.
pub data Chain (m : Block) (p : Pc) : Block → Pc → Type 0 where
  no_move : Chain m p m p
  and_move :
      {m' m'' : Block} {p' p'' : Pc} → Chain m p m' p' → Move m' p' m'' p'' → Chain m p m'' p''

Chain-append :
    {m m' : Block} {p p' : Pc} {m'' : Block} {p'' : Pc}
    → Chain m p m' p'
    → Chain m' p' m'' p''
    → Chain m p m'' p''
Chain-append c no_move = c
Chain-append c (and_move d mv) = and_move (Chain-append c d) mv

Chain-if :
    {m x y : Block} {p q : Pc} (b : Bool)
    → (b ≡ true → Chain m p x q)
    → (b ≡ false → Chain m p y q)
    → Chain m p (if b then x else y) q
Chain-if true f g = f refl
Chain-if false f g = g refl

finalize_alone-Chain : (m : Block) → Chain m finalizing (finalize_alone m) outside
unfolding finalize_alone
finalize_alone-Chain m =
    Chain-if m.finalize_started (λ again. and_move no_move (finalized_before again))
      (λ first.
        and_move
          (and_move (and_move (and_move (and_move no_move (finalizes first)) clears) resets)
            unregisters)
          buries)

reschedule_alone-Chain :
    (m : Block) (rest : List ℕ)
    → m.mailbox ≡ rest
    → m.state ≡ running
    → Chain m ending (reschedule_alone m rest) outside
unfolding reschedule_alone
reschedule_alone-Chain m [] f e = and_move (and_move no_move (ends e)) (finds_empty f)
reschedule_alone-Chain m (message ∷ rest) f e =
    Chain-if m.pool_stopping
      (λ closing. and_move (and_move to_submit (submit_refuses closing)) (reverts refl))
      (λ goes. and_move (and_move to_submit (submit_goes_on goes)) pushes)
  where
    to_submit : Chain m ending (record m { state = scheduled }) submitting
    to_submit =
        and_move (and_move (and_move no_move (ends e)) (finds_more (ground (arith, f))))
          (schedules refl)

module _ (throws_at : ℕ → Bool) (m : Block) (e : m.state ≡ scheduled) where
  -- The block in the loop of Execute.
  abbrev loop : List ℕ → List ℕ → Block
  loop handed box = record m { state = running; mailbox = box; handed = handed }

  -- The block where the loop has ended.
  abbrev after_loop : Drained → Block
  after_loop d = record m {
    state = if d.threw then stopping else running;
    mailbox = d.rest;
    handed = d.handed;
  }

  drain-Chain :
      (left processed : ℕ) (handed box : List ℕ)
      → processed + left ≡ message_budget
      → Chain
          (loop handed box)
          (draining processed)
          (after_loop (drain throws_at left handed box))
          ending
  unfolding drain
  drain-Chain zero processed handed box sum = and_move no_move (breaks_budget (omega arith))
  drain-Chain (suc left) processed handed [] sum = and_move no_move (breaks_empty refl)
  drain-Chain (suc left) processed handed (message ∷ box) sum =
      elim (Bool-cases (throws_at message)) [
        | inl throwing_one ↦ simp throwing_one (
            and_move (and_move handles throws)
              (throw_stops (ground arith) (ground arith) (ground arith) refl))
        | inr fine ↦ simp fine (
            Chain-append (and_move handles returns)
              (drain-Chain left (processed + 1) (handed ++ message ∷ []) box (omega arith)))
      ]
    where
      handles :
          Chain
            (loop handed (message ∷ box))
            (draining processed)
            (loop (handed ++ message ∷ []) box)
            (handling processed message)
      handles = and_move no_move (pops (omega arith) refl refl)

  ended-Chain :
      (b : Bool) (handed rest : List ℕ)
      → Chain
          (record m { state = if b then stopping else running; mailbox = rest; handed = handed })
          ending
          (end_alone m (record { handed = handed; rest = rest; threw = b }))
          outside
  unfolding end_alone
  ended-Chain true handed rest =
      Chain-append (and_move no_move (end_loses (ground arith)))
        (finalize_alone-Chain (record m { state = stopping; mailbox = rest; handed = handed }))
  ended-Chain false handed rest = reschedule_alone-Chain (loop handed rest) rest refl refl

  scheduled-Chain :
      Chain m executing (end_alone m (drain throws_at message_budget m.handed m.mailbox)) outside
  scheduled-Chain =
      let d = drain throws_at message_budget m.handed m.mailbox in
      Chain-append
        (Chain-append (and_move no_move (runs e))
          (drain-Chain message_budget 0 m.handed m.mailbox refl))
        (ended-Chain d.threw d.handed d.rest)

-- A call of Execute that a worker makes while no other call on the actor moves has, in the model of
-- its single steps, the result of its function, whatever Handle throws: it returns, with the
-- messages of one budget handed over in order, and the actor idle, scheduled again or finalized.
pub execute_alone-Chain :
    (throws_at : ℕ → Bool) (m : Block) → Chain m executing (execute_alone throws_at m) outside
unfolding execute_alone
execute_alone-Chain throws_at m = by_state m.state refl
  where
    by_state : (s : ActorState) → m.state ≡ s → Chain m executing (execute_in throws_at s m) outside
    by_state scheduled f = scheduled-Chain throws_at m f
    by_state idle f =
        Chain-append (and_move no_move (run_loses (ground (arith, f)))) (finalize_alone-Chain m)
    by_state s f =
        Chain-append (and_move no_move (run_loses (ground (arith, f)))) (finalize_alone-Chain m)
