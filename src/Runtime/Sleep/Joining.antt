-- ===== src/Runtime/Sleep/Joining.antt =====
-- What StopAndJoin waits for: the runs of the threads after its notify_all, to their ends.
use my_utils.Base.{
  ℕ, suc, ◌+◌, ◌^◌, ◌<◌, ◌≤◌, ◌≡◌, ◌≢◌, ◌⊎◌, inl, inr, Bool, true, false, none, not, if◌then◌else◌,
  ltb, total, le-total, total-pos, dec_lt, ℕ_discrete, Bool-cases, refl, sym, ◌∙◌, subst, arith,
}
use my_utils.Runtime.Sleep.Defs.{
  Shared, Pc, Move, Threads, wake, notified, IsNotifier, Step, moves, notifies_one, notifies_none,
  stops, notifies_all, Reach, at_start, then_step, looping, polling, executing, pushing, pushed,
  signalling, notifying, locking, entered, found, unlocking, waiting, woken, relocked, leaving,
  exited, outside, offering, enqueued, ringing,
}
use my_utils.Runtime.Sleep.Defs.{
  leaves, gives_up, finishes, pushes, skips_notify, signals, passes, enters, exits, counts_out,
  unlocks, relocks, counts_back, resumes, enqueue_fails, rings,
}
use my_utils.Runtime.Sleep.Weights.{holds, checks}
use my_utils.Runtime.Sleep.Steps.{Reach-Inv}
use my_utils.Runtime.Sleep.Shutdown.{steps_left, IsThreadStep, nobody_sleeps_on, threads_run_down}

-- Stands where only a thread that is no worker stands.
abbrev is_other : Pc → Bool
is_other outside = true
is_other offering = true
is_other enqueued = true
is_other ringing = true
is_other _ = false

Move-is_other :
    {n i : ℕ} {m m' : Shared} {p p' : Pc} → Move n i m p m' p' → is_other p' ≡ is_other p
Move-is_other gives_up = refl
Move-is_other mv = ground arith

wake-is_other : (p : Pc) → is_other (wake p) ≡ is_other p
wake-is_other p = ground arith

notified-is_other : (p : Pc) → IsNotifier p → is_other (notified p) ≡ is_other p
notified-is_other notifying h = refl
notified-is_other ringing h = refl
notified-is_other p h = ground (arith, h)

Step-is_other :
    {n k : ℕ} {s t : Threads} → Step n k s t → (j : ℕ) → (is_other (t.pc j) ≡ is_other (s.pc j))
Step-is_other (moves i lt mv) j = ground (arith, Move-is_other mv)
Step-is_other {s = s} (notifies_one i x lt xt h e) j =
    ground (arith, notified-is_other (s.pc i) h, e)
Step-is_other {s = s} (notifies_none i lt h awake) j = ground (arith, notified-is_other (s.pc i) h)
Step-is_other (stops free) j = refl
Step-is_other {s = s} (notifies_all stopped) j = wake-is_other (s.pc j)

Reach-is_other :
    {n k : ℕ} {s : Threads} → Reach n k s → (j : ℕ) → (is_other (s.pc j) ≡ not (ltb j n))
Reach-is_other at_start j = ground arith
Reach-is_other (then_step r st) j = Step-is_other st j ∙ Reach-is_other r j

-- Some thread can move.
abbrev pub CanMove : ℕ → ℕ → Threads → Type 0
CanMove n k s = (t : Threads) × (st : Step n k s t) × IsThreadStep st

module _ {n k : ℕ} {s : Threads} (few : n < 2 ^ 63) (all_few : k < 2 ^ 64) (r : Reach n k s)
    (told : s.announced ≡ true) where
  module _ (i : ℕ) (lt : i < k) where
    moves_on : {m : Shared} {p p' : Pc} → s.pc i ≡ p → Move n i s.shared p m p' → CanMove n k s
    moves_on {m} {p' = p'} e mv =
        (_, moves i lt (subst (λ q. Move n i s.shared q m p') (sym e) mv), tt)

    stopped : s.shared.stopping ≡ true
    stopped = (nobody_sleeps_on few all_few r told i lt).2

    holder_moves : (p : Pc) → s.pc i ≡ p → 0 < holds p → checks p ≡ 0 → CanMove n k s
    holder_moves entered e h c = moves_on e (exits stopped)
    holder_moves found e h c = moves_on e counts_out
    holder_moves unlocking e h c = moves_on e unlocks
    holder_moves relocked e h c = moves_on e counts_back
    holder_moves leaving e h c = moves_on e resumes
    holder_moves p e h c = absurd (ground (arith, h, c))

    notifier_moves : IsNotifier (s.pc i) → CanMove n k s
    notifier_moves h =
        (_, notifies_none i lt h (λ x xt. (nobody_sleeps_on few all_few r told x xt).0), tt)

    -- Where nobody holds the lock.
    free_moves :
        s.shared.locked ≡ false
        → (p : Pc) → s.pc i ≡ p
        → 0 < steps_left p
        → p ≢ waiting
        → checks p ≡ 0
        → CanMove n k s
    free_moves free looping e h w c = moves_on e (leaves stopped)
    free_moves free polling e h w c = moves_on e gives_up
    free_moves free executing e h w c = moves_on e finishes
    free_moves free pushing e h w c = moves_on e pushes
    free_moves free pushed e h w c = elim (ℕ_discrete s.shared.idle_count 0) [
      | yes nobody ↦ moves_on e (skips_notify nobody)
      | no some_idle ↦ moves_on e (signals some_idle)
    ]
    free_moves free signalling e h w c = moves_on e (passes free)
    free_moves free notifying e h w c = notifier_moves (inl e)
    free_moves free locking e h w c = moves_on e (enters free)
    free_moves free woken e h w c = moves_on e (relocks free)
    free_moves free offering e h w c = moves_on e enqueue_fails
    free_moves free enqueued e h w c = moves_on e (rings free)
    free_moves free ringing e h w c = notifier_moves (inr e)
    free_moves free waiting e h w c = absurd (w refl)
    free_moves free p e h w c = holder_moves p e (ground (arith, h, c)) c

  -- As long as a thread has not come to its end, one can move: the thread that holds the lock, or any.
  some_move : (i : ℕ) → i < k → 0 < steps_left (s.pc i) → CanMove n k s
  some_move i lt left = elim (Bool-cases s.shared.locked) [
    | inr free ↦
        let (awake, idle, stopping) = nobody_sleeps_on few all_few r told i lt in
        free_moves i lt free (s.pc i) refl left awake idle
    | inl locked ↦
        let (j, jt, holder) =
          total-pos (λ i. holds) k s.pc
            (ground (arith, locked, ((Reach-Inv few all_few r).queues none tt).locked_once)) in
        let (awake, idle, stopping) = nobody_sleeps_on few all_few r told j jt in
        holder_moves j jt (s.pc j) refl holder idle
  ]

-- `m` steps of the workers and of the threads that submit, the return of Execute among them.
pub data Run (n k : ℕ) (s : Threads) : ℕ → Threads → Type 0 where
  at_rest : Run n k s 0 s
  then_move :
      {m : ℕ} {t u : Threads}
      → Run n k s m t
      → (st : Step n k t u) → IsThreadStep st
      → Run n k s (suc m) u

IsThreadStep-announced :
    {n k : ℕ} {s t : Threads} (st : Step n k s t)
    → IsThreadStep st
    → s.announced ≡ true
    → t.announced ≡ true
IsThreadStep-announced (moves i lt mv) own told = told
IsThreadStep-announced (notifies_one i x lt xt h e) own told = told
IsThreadStep-announced (notifies_none i lt h awake) own told = told
IsThreadStep-announced (stops free) own told = told
IsThreadStep-announced (notifies_all over) own told = absurd own

module _ {n k : ℕ} {s : Threads} (few : n < 2 ^ 63) (all_few : k < 2 ^ 64) (r : Reach n k s)
    (told : s.announced ≡ true) where
  Run-Reach : {m : ℕ} {t : Threads} → Run n k s m t → Reach n k t × (t.announced ≡ true)
  Run-Reach at_rest = (r, told)
  Run-Reach (then_move run st own) =
      let (reached, still) = Run-Reach run in
      (then_step reached st, IsThreadStep-announced st own still)

  Run-steps_left :
      {m : ℕ} {t : Threads}
      → Run n k s m t
      → m + total (λ i. steps_left) k t.pc ≤ total (λ i. steps_left) k s.pc
  Run-steps_left at_rest = omega arith
  Run-steps_left (then_move run st own) =
      let (reached, still) = Run-Reach run in
      omega (arith, Run-steps_left run, threads_run_down few all_few reached still st own)

-- Every thread has come to its end: a worker has left its loop, another thread is not in Submit.
abbrev pub HaveEnded : ℕ → ℕ → Threads → Type 0
HaveEnded n k s = (i : ℕ) → i < k → (s.pc i ≡ (if ltb i n then exited else outside))

ended_at :
    (b : Bool) (p : Pc)
    → is_other p ≡ not b
    → steps_left p ≡ 0
    → p ≡ (if b then exited else outside)
ended_at b p e z = ground (arith, e, z)

-- With fewer than 2 ^ 63 workers and 2 ^ 64 threads, every run of the threads after the notify_all of
-- StopAndJoin, in which every return of Execute is a step, has no more steps than a measure of the
-- state where it begins, and comes to a state from which a thread can still move or in which every
-- worker has exited, as the join waits for, and no other thread is inside Submit.
pub threads_come_to_end :
    {n k m : ℕ} {s t : Threads}
    → n < 2 ^ 63
    → k < 2 ^ 64
    → Reach n k s
    → s.announced ≡ true
    → Run n k s m t
    → (m ≤ total (λ i. steps_left) k s.pc) × (CanMove n k t ⊎ HaveEnded n k t)
threads_come_to_end {n} {k} {m} {s} {t} few all_few r told run = (
  omega (arith, Run-steps_left few all_few r told run),
  elim (dec_lt 0 (total (λ i. steps_left) k t.pc)) [
    | yes left ↦
        let (i, lt, more) = total-pos (λ i. steps_left) k t.pc left in
        inl (some_move few all_few reached still i lt more)
    | no over ↦ inr (λ i lt.
        ended_at (ltb i n) (t.pc i) (Reach-is_other reached i)
          (omega (arith, over, le-total (λ i. steps_left) k t.pc i lt)))
  ],
)
  where
    reached : Reach n k t
    reached = (Run-Reach few all_few r told run).0

    still : t.announced ≡ true
    still = (Run-Reach few all_few r told run).1
