-- ===== src/Runtime/Statics/Order.antt =====
-- Which static objects live as long as the workers run.
use my_utils.Base.{ℕ, ◌≤◌, ◌≡◌, true, false, arith, times}
use my_utils.Runtime.Statics.{
  body, Statics, instance_static, Step, uses, starts, shuts_down, exits, destroys, Reach, at_start,
  then_step, Run, no_step, and_then,
}
use my_utils.Runtime.Statics.Laws.{
  before_body, before_body-le, touch-times, touch_stats_globals-times,
  touch_stats_globals-IsCounter, IsCounter, Inv, Covers, Step-Inv, Reach-Inv, Step-Covers,
}

still_there :
    (s : ℕ) (p : Statics)
    → Inv p
    → 1 ≤ times s (before_body p.alive)
    → (times s p.alive ≡ 1) × (times s p.destroyed ≡ 0)
still_there s p inv below = (
  omega (arith, inv.once s, before_body-le s p.alive),
  omega (arith, inv.once s, before_body-le s p.alive),
)

-- In every reachable state of a process, also while it exits, as long as the workers run the body and
-- the three statics of Runtime::Stats are constructed and not destroyed.
pub counters_outlive_workers :
    {p : Statics} (s : ℕ)
    → Reach p
    → p.workers ≡ true
    → IsCounter s
    → (times s p.alive ≡ 1) × (times s p.destroyed ≡ 0) × (times body p.alive ≡ 1)
counters_outlive_workers {p} s r w counter =
    let (there, kept) = still_there s p (Reach-Inv r) (covers r w) in
    (there, kept, (Reach-Inv r).based w)
  where
    covers : {p : Statics} → Reach p → Covers s p
    covers at_start = λ w. cc w
    covers (then_step {p} r st) =
        Step-Covers s st (Reach-Inv r)
          (λ fresh early. touch_stats_globals-IsCounter s p.alive counter) (covers r)

-- Before the body is constructed `s` is there, unless the process exits.
record Earlier (s : ℕ) (p : Statics) : Type 0 where
  covers : Covers s p
  early : times body p.alive ≡ 0 → p.exiting ≡ false → 1 ≤ times s p.alive

Step-Earlier : {p q : Statics} (s : ℕ) → Step p q → Inv p → Earlier s p → Earlier s q
unfolding instance_static
Step-Earlier {p} {q} s st inv e = record {
  covers =
      Step-Covers s st inv
        (λ fresh early. omega (arith, e.early fresh early, touch_stats_globals-times s p.alive))
        e.covers;
  early = keeps st;
}
  where
    keeps :
        {q : Statics} → Step p q → times body q.alive ≡ 0 → q.exiting ≡ false → 1 ≤ times s q.alive
    keeps (uses t other there) fresh early = omega (
      arith,
      e.early (omega (arith, fresh, touch-times t body p.alive)) early,
      touch-times t s p.alive,
    )
    keeps (starts now) fresh early = ground (arith, e.early, fresh)
    keeps (shuts_down there) fresh early = e.early fresh early
    keeps exits fresh early = cc early
    keeps (destroys t rest out here) fresh early = cc (out, early)

-- Whatever static object was constructed before the body lives as long as the workers run, those of
-- src/SendBuffer.cpp where the program used them early enough.
pub earlier_statics_outlive_workers :
    {p q : Statics} (s : ℕ)
    → Reach p
    → times body p.alive ≡ 0
    → times s p.alive ≡ 1
    → Run p q
    → q.workers ≡ true
    → (times s q.alive ≡ 1) × (times s q.destroyed ≡ 0)
earlier_statics_outlive_workers {p} {q} s r fresh there run w =
    let (inv, e) = along run in still_there s q inv (e.covers w)
  where
    along : {q : Statics} → Run p q → Inv q × Earlier s q
    along no_step = (
      Reach-Inv r,
      record {
        covers = λ w. absurd (omega (arith, fresh, (Reach-Inv r).based w));
        early = λ _ _. omega (arith, there);
      },
    )
    along (and_then run st) = let (inv, e) = along run in (Step-Inv st inv, Step-Earlier s st inv e)
