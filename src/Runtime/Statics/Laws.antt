-- ===== src/Runtime/Statics/Laws.antt =====
-- What every step of the static objects keeps.
use my_utils.Base.{
  ℕ, ◌+◌, ◌≤◌, ◌≡◌, ◌≢◌, ◌⊎◌, inl, inr, true, false, List, [], ◌∷◌, ◌==◌, if◌then◌else◌, Bool-cases,
  refl, ap, arith, times,
}
use my_utils.Runtime.Statics.{
  body, runtime_stats_lock, runtime_stats_registry, runtime_retired_stats, Statics, touch,
  touch_stats_globals, instance_static, Step, uses, starts, shuts_down, exits, destroys, Reach,
  at_start, then_step,
}

-- What was constructed before the body.
abbrev pub before_body : List ℕ → List ℕ
before_body [] = []
before_body (x ∷ xs) = if x == body then xs else before_body xs

pub before_body-le : (s : ℕ) (l : List ℕ) → times s (before_body l) ≤ times s l
before_body-le s [] = omega arith
before_body-le s (x ∷ xs) = ground (arith, before_body-le s xs)

pub touch-times :
    (s t : ℕ) (l : List ℕ)
    → times t (touch s l) ≡ times t l + (if s == t then (if times s l == 0 then 1 else 0) else 0)
unfolding touch
touch-times s t l = ground arith

touch-before_body : (s : ℕ) (l : List ℕ) → s ≢ body → before_body (touch s l) ≡ before_body l
unfolding touch
touch-before_body s l other = ground (arith, other)

pub touch_stats_globals-times : (t : ℕ) (l : List ℕ) → times t l ≤ times t (touch_stats_globals l)
unfolding touch_stats_globals
touch_stats_globals-times t l = omega (
  arith,
  touch-times runtime_stats_lock t l,
  touch-times runtime_stats_registry t (touch runtime_stats_lock l),
  touch-times runtime_retired_stats t (touch runtime_stats_registry (touch runtime_stats_lock l)),
)

abbrev pub IsCounter : ℕ → Type 0
IsCounter s = (s ≡ runtime_stats_lock) ⊎ (s ≡ runtime_stats_registry) ⊎ (s ≡ runtime_retired_stats)

pub touch_stats_globals-IsCounter :
    (s : ℕ) (l : List ℕ) → IsCounter s → 1 ≤ times s (touch_stats_globals l)
unfolding touch_stats_globals
touch_stats_globals-IsCounter s l counter = ground (
  arith,
  counter,
  touch-times runtime_stats_lock s l,
  touch-times runtime_stats_registry s (touch runtime_stats_lock l),
  touch-times runtime_retired_stats s (touch runtime_stats_registry (touch runtime_stats_lock l)),
)

touch_stats_globals-once :
    (s : ℕ) (l : List ℕ) → times s l ≤ 1 → times s (touch_stats_globals l) ≤ 1
unfolding touch_stats_globals
touch_stats_globals-once s l once = ground (
  arith,
  once,
  touch-times runtime_stats_lock s l,
  touch-times runtime_stats_registry s (touch runtime_stats_lock l),
  touch-times runtime_retired_stats s (touch runtime_stats_registry (touch runtime_stats_lock l)),
)

touch_stats_globals-body : (l : List ℕ) → times body (touch_stats_globals l) ≡ times body l
unfolding touch_stats_globals
touch_stats_globals-body l = ground (
  arith,
  touch-times runtime_stats_lock body l,
  touch-times runtime_stats_registry body (touch runtime_stats_lock l),
  touch-times runtime_retired_stats body
      (touch runtime_stats_registry (touch runtime_stats_lock l)),
)

pub record Inv (p : Statics) : Type 0 where
  pub once : (s : ℕ) → times s p.alive + times s p.destroyed ≤ 1
  pub running : p.exiting ≡ false → (s : ℕ) → times s p.destroyed ≡ 0
  pub based : p.workers ≡ true → times body p.alive ≡ 1

-- As long as the workers run, `s` is below the body.
abbrev pub Covers : ℕ → Statics → Type 0
Covers s p = p.workers ≡ true → 1 ≤ times s (before_body p.alive)

pub Step-Inv : {p q : Statics} → Step p q → Inv p → Inv q
unfolding instance_static
Step-Inv {p} (uses s other there) inv = record {
  once = λ t. ground (arith, inv.once t, there, touch-times s t p.alive);
  running = inv.running;
  based = λ w. ground (arith, inv.based w, other, touch-times s body p.alive);
}
Step-Inv {p} (starts early) inv = elim (Bool-cases (times body p.alive == 0)) [
  | inr there ↦ rw there inv
  | inl fresh ↦ rw fresh (record {
    once = λ t. ground (
      arith,
      inv.once t,
      inv.running early t,
      touch_stats_globals-once t p.alive,
      touch_stats_globals-body p.alive,
    );
    running = inv.running;
    based = λ w. ground (arith, fresh, touch_stats_globals-body p.alive);
  })
]
Step-Inv (shuts_down there) inv = record { once = inv.once; running = inv.running; based = λ w. cc }
Step-Inv exits inv = record { once = inv.once; running = λ e. cc e; based = inv.based }
Step-Inv {p} (destroys s rest e here) inv = record {
  once = λ t. ground (arith, inv.once t, here);
  running = λ f. cc (e, f);
  based = λ w. ground (arith, inv.based, here, w);
}

pub Reach-Inv : {p : Statics} → Reach p → Inv p
Reach-Inv at_start = record { once = λ s. omega arith; running = λ e s. refl; based = λ w. cc w }
Reach-Inv (then_step r st) = Step-Inv st (Reach-Inv r)

-- Every step but the start keeps a static below the body.
pub Step-Covers :
    {p q : Statics} (s : ℕ)
    → Step p q
    → Inv p
    → (times body p.alive ≡ 0 → p.exiting ≡ false → 1 ≤ times s (touch_stats_globals p.alive))
    → Covers s p
    → Covers s q
unfolding instance_static
Step-Covers {p} s (uses t other there) inv before c =
    λ w. omega (arith, c w, ap (times s) (touch-before_body t p.alive other))
Step-Covers {p} s (starts early) inv before c = elim (Bool-cases (times body p.alive == 0)) [
  | inr there ↦ rw there c
  | inl fresh ↦ rw fresh (λ w. before (ground (arith, fresh)) early)
]
Step-Covers s (shuts_down there) inv before c = λ w. cc w
Step-Covers s exits inv before c = c
Step-Covers {p} s (destroys t rest e here) inv before c = λ w. ground (arith, c, here, w)
