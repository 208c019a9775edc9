-- ===== src/Runtime/Sleep/Moves.antt =====
-- A step of one thread keeps what is kept for a queue.
use my_utils.Base.{
  ℕ, ◌+◌, ◌-◌, ◌%◌, ◌^◌, ◌<◌, ◌≤◌, ◌≡◌, ◌≢◌, ◌⊎◌, true, Option, ltb, if◌then◌else◌, add64,
  mod-eq_of_lt, add-mod_left, dec_lt, ap, arith,
}
use my_utils.Queue.{one_if}
use my_utils.Runtime.Sleep.Defs.{
  Shared, Pc, Move, victim_empty, victim_taken, gives_up, checking_injection, checking, waiting,
}
use my_utils.Runtime.Sleep.Weights.{waits, checks, Counts, QueueInv, Placed, IsQueue, size}
use my_utils.Runtime.Sleep.Guards.{guard, Shift}

-- Where the loop of TrySteal looks at `offset`: no sum wraps, and `%` takes `n` off at most once.
pub victim_at :
    (n i offset : ℕ)
    → n < 2 ^ 63
    → i < n
    → offset < n
    → add64 i offset % n ≡ (if ltb (i + offset) n then i + offset else i + offset - n)
victim_at n i offset few at small = elim (dec_lt (i + offset) n) [
  | yes straight ↦ ground (arith, ap (λ v. v % n) exact, mod-eq_of_lt straight)
  | no round ↦ ground (
    arith,
    ap (λ v. v % n) (wrapped round),
    add-mod_left n (i + offset - n),
    mod-eq_of_lt {n = i + offset - n} {m = n} (omega arith),
  )
]
  where
    exact : add64 i offset ≡ i + offset
    exact = omega arith

    wrapped : ¬ (i + offset < n) → add64 i offset ≡ n + (i + offset - n)
    wrapped h = omega arith

module _ {n i : ℕ} {q : Option ℕ} {m : Shared} {c : Counts} (few : n < 2 ^ 63)
    (inv : QueueInv m q c) (here : IsQueue n q) where
  Move-locked_once :
      {p p' : Pc} {m' : Shared} {d : Counts}
      → Move n i m p m' p'
      → Placed n i m p
      → Shift n q i p p' c d
      → one_if m'.locked ≡ d.holders
  Move-locked_once (victim_empty {offset = offset} lt e) w s =
      ground (arith, lt, e, victim_at n i offset few w.0 lt)
  Move-locked_once (victim_taken {offset = offset} victim lt at some_left) w s =
      ground (arith, lt, at, some_left, victim_at n i offset few w.0 lt)
  Move-locked_once gives_up w s = ground arith
  Move-locked_once mv w s = ground (arith, guard mv)

  Move-idle_exact :
      {p p' : Pc} {m' : Shared} {d : Counts}
      → Move n i m p m' p'
      → Placed n i m p
      → Shift n q i p p' c d
      → m'.idle_count ≡ d.idlers
  Move-idle_exact (victim_empty {offset = offset} lt e) w s =
      ground (arith, lt, e, victim_at n i offset few w.0 lt)
  Move-idle_exact (victim_taken {offset = offset} victim lt at some_left) w s =
      ground (arith, lt, at, some_left, victim_at n i offset few w.0 lt)
  Move-idle_exact gives_up w s = ground arith
  Move-idle_exact mv w s = ground (arith, guard mv)

  Move-stopped_checks :
      {p p' : Pc} {m' : Shared} {d : Counts}
      → Move n i m p m' p'
      → Placed n i m p
      → Shift n q i p p' c d
      → m'.stopping ≡ true
      → d.checkers ≡ 0
  Move-stopped_checks (victim_empty {offset = offset} lt e) w s h =
      ground (arith, lt, e, victim_at n i offset few w.0 lt)
  Move-stopped_checks (victim_taken {offset = offset} victim lt at some_left) w s h =
      ground (arith, lt, at, some_left, victim_at n i offset few w.0 lt)
  Move-stopped_checks gives_up w s h = ground arith
  Move-stopped_checks mv w s h = ground (arith, guard mv)

  Move-past_owed :
      {p p' : Pc} {m' : Shared} {d : Counts}
      → Move n i m p m' p'
      → Placed n i m p
      → Shift n q i p p' c d
      → 0 < size m' q
      → 0 < d.past
      → 0 < d.owing
  Move-past_owed (victim_empty {offset = offset} lt e) w s h k =
      ground (arith, lt, e, victim_at n i offset few w.0 lt)
  Move-past_owed (victim_taken {offset = offset} victim lt at some_left) w s h k =
      ground (arith, lt, at, some_left, victim_at n i offset few w.0 lt)
  Move-past_owed gives_up w s h k = ground arith
  Move-past_owed mv w s h k = ground (arith, guard mv)

  Move-covered :
      {p p' : Pc} {m' : Shared} {d : Counts}
      → Move n i m p m' p'
      → Placed n i m p
      → Shift n q i p p' c d
      → 0 < size m' q
      → 0 < d.waiters
      → (m'.stopping ≡ true) ⊎ (0 < d.owing + (d.signing + d.lookers))
  Move-covered (victim_empty {offset = offset} lt e) w s h k =
      ground (arith, lt, e, victim_at n i offset few w.0 lt)
  Move-covered (victim_taken {offset = offset} victim lt at some_left) w s h k =
      ground (arith, lt, at, some_left, victim_at n i offset few w.0 lt)
  Move-covered gives_up w s h k = ground arith
  Move-covered mv w s h k = ground (arith, guard mv)

  pub Move-QueueInv :
      {p p' : Pc} {m' : Shared} {d : Counts}
      → Move n i m p m' p'
      → Placed n i m p
      → Shift n q i p p' c d
      → QueueInv m' q d
  Move-QueueInv mv w s = record {
    locked_once = Move-locked_once mv w s;
    idle_exact = Move-idle_exact mv w s;
    stopped_checks = Move-stopped_checks mv w s;
    past_owed = Move-past_owed mv w s;
    covered = Move-covered mv w s;
  }

Placed-le :
    (n j : ℕ) (m m' : Shared) (p : Pc) → m'.local j ≤ m.local j → Placed n j m p → Placed n j m' p
Placed-le n j m m' checking_injection le w = omega arith
Placed-le n j m m' (checking offset) le w = omega arith
Placed-le n j m m' waiting le w = omega arith
Placed-le n j m m' p le w = w

module _ {n i : ℕ} {m : Shared} where
  pub Move-Placed :
      {p p' : Pc} {m' : Shared} → Move n i m p m' p' → Placed n i m p → Placed n i m' p'
  Move-Placed gives_up w = ground arith
  Move-Placed mv w = ground (arith, guard mv)

  -- The deque of a worker grows in the hands of the worker alone.
  local-le : {p p' : Pc} {m' : Shared} (j : ℕ) → j ≢ i → Move n i m p m' p' → m'.local j ≤ m.local j
  local-le j other gives_up = omega arith
  local-le j other mv = ground arith

  pub Move-Placed_other :
      {p p' : Pc} {m' : Shared} (j : ℕ) (r : Pc)
      → j ≢ i
      → Move n i m p m' p'
      → Placed n j m r
      → Placed n j m' r
  Move-Placed_other {m' = m'} j r other mv w = Placed-le n j m m' r (local-le j other mv) w

  pub stopping-Move :
      {p p' : Pc} {m' : Shared} → Move n i m p m' p' → m.stopping ≡ true → m'.stopping ≡ true
  stopping-Move gives_up h = h
  stopping-Move mv h = ground arith

  -- A thread falls asleep from its search under the lock alone.
  pub waits-Move :
      {p p' : Pc} {m' : Shared} → Move n i m p m' p' → checks p ≡ 0 → waits p' ≤ waits p
  waits-Move gives_up h = omega arith
  waits-Move mv h = ground arith
