-- ===== src/Runtime/Sleep/Safety.antt =====
-- What the sleep and wakeup protocol of the pool gives, in every state that the threads reach.
use my_utils.Base.{
  ℕ, ◌^◌, ◌+◌, ◌<◌, ◌≤◌, ◌≡◌, ◌⊎◌, inl, inr, true, false, Option, none, total, total-eq-zero,
  total-pos, le-total, refl, ap, ◌∙◌, dec_lt, arith,
}
use my_utils.Runtime.Sleep.Defs.{Pc, Threads, Reach, waiting, outside}
use my_utils.Runtime.Sleep.Weights.{
  waits, looks, owes, signs, Counts, counts, QueueInv, IsQueue, Inv, size,
}
use my_utils.Runtime.Sleep.Steps.{Reach-Inv}

-- Thread `i` sees to it that a task of the queue does not lie there while others sleep: it has put
-- a task there and its notify is still to come, or it is awake and looks there before it sleeps.
abbrev pub Attends : ℕ → Option ℕ → ℕ → Pc → Type 0
Attends n q i p = 0 < owes q i p + (signs q i p + looks n q i p)

-- In every reachable state of fewer than 2 ^ 63 workers and 2 ^ 64 threads, where a queue holds a
-- task and a worker sleeps, the pool is stopping or some thread attends to the queue: one whose
-- notify for it is still to come, or a worker, for a deque another one than its owner, that is awake
-- and looks there before it sleeps. The test of _idleCount that lets Submit skip its notify loses no
-- such thread.
pub sleepers_are_covered :
    {n k : ℕ} {s : Threads}
    → n < 2 ^ 63
    → k < 2 ^ 64
    → Reach n k s
    → (q : Option ℕ) → IsQueue n q
    → (x : ℕ) → x < k
    → 0 < size s.shared q
    → s.pc x ≡ waiting
    → (s.shared.stopping ≡ true) ⊎ ((i : ℕ) × (i < k) × Attends n q i (s.pc i))
sleepers_are_covered {n} {k} {s} few all_few r q here x xt holds_task asleep =
    elim (inv.covered holds_task
      (omega (arith, le-total (λ i. waits) k s.pc x xt, ap waits asleep))) [
        | inl stopped ↦ inl stopped
        | inr cover ↦ inr (attends cover)
      ]
  where
    inv : QueueInv s.shared q (counts n q k s.pc)
    inv = (Reach-Inv few all_few r).queues q here

    c : Counts
    c = counts n q k s.pc

    attends : 0 < c.owing + (c.signing + c.lookers) → (i : ℕ) × (i < k) × Attends n q i (s.pc i)
    attends h = elim (positive c.owing c.signing c.lookers h) [
      | inl o ↦ let (i, lt, w) = total-pos (owes q) k s.pc o in (i, lt, omega arith)
      | inr (inl o) ↦ let (i, lt, w) = total-pos (signs q) k s.pc o in (i, lt, omega arith)
      | inr (inr o) ↦ let (i, lt, w) = total-pos (looks n q) k s.pc o in (i, lt, omega arith)
    ]
      where
        positive : (a b d : ℕ) → 0 < a + (b + d) → (0 < a) ⊎ (0 < b) ⊎ (0 < d)
        positive a b d h = omega arith

-- In every reachable state where every worker sleeps and no other thread is inside Submit, and the
-- pool is not stopping, every queue is empty. There is at least one worker, and there are fewer than
-- 2 ^ 63 workers and 2 ^ 64 threads.
pub asleep_means_empty :
    {n k : ℕ} {s : Threads}
    → n < 2 ^ 63
    → k < 2 ^ 64
    → 1 ≤ n
    → n ≤ k
    → Reach n k s
    → ((i : ℕ) → i < n → s.pc i ≡ waiting)
    → ((i : ℕ) → n ≤ i → s.pc i ≡ outside)
    → s.shared.stopping ≡ false
    → (j : ℕ) → j < n
    → (s.shared.injection ≡ 0) × (s.shared.local j ≡ 0)
asleep_means_empty {n} {k} {s} few all_few some_worker within r asleep out goes j jt = (
  ground (
    arith,
    goes,
    inv.queues none tt,
    no_weight (owes none) (λ i. refl) (λ i. refl),
    no_weight (signs none) (λ i. refl) (λ i. refl),
    no_weight (looks n none) (λ i. refl) (λ i. refl),
    le-total (λ i. waits) k s.pc 0 (omega arith),
    asleep 0 (omega arith),
  ),
  own_empty,
)
  where
    inv : Inv n k s
    inv = Reach-Inv few all_few r

    no_weight :
        (w : ℕ → Pc → ℕ)
        → ((i : ℕ) → w i waiting ≡ 0)
        → ((i : ℕ) → w i outside ≡ 0)
        → total w k s.pc ≡ 0
    no_weight w a b = total-eq-zero w k s.pc λ i lt. elim (dec_lt i n) [
      | yes worker ↦ ap (w i) (asleep i worker) ∙ a i
      | no other ↦ ap (w i) (out i (omega arith)) ∙ b i
    ]

    own_empty : s.shared.local j ≡ 0
    own_empty = ground (arith, asleep j jt, inv.placed j (omega arith))
