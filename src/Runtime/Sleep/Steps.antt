-- ===== src/Runtime/Sleep/Steps.antt =====
-- Every state that the threads reach keeps the invariant.
use my_utils.Base.{
  ℕ, ◌^◌, ◌<◌, ◌≤◌, ◌≡◌, ◌≢◌, true, false, none, update, total, total-update, total-eq-zero,
  total-le-total, le-total, ℕ_discrete, refl, arith,
}
use my_utils.Runtime.Sleep.Defs.{
  Shared, Pc, Move, Threads, Step, moves, notifies_one, notifies_none, stops, notifies_all, started,
  Reach, at_start, then_step, counting, waiting,
}
use my_utils.Runtime.Sleep.Weights.{holds, idles, waits, checks, is_past, Placed, Inv}
use my_utils.Runtime.Sleep.Guards.{Shift-update}
use my_utils.Runtime.Sleep.Notify.{notifies_one-Inv, notifies_none-Inv, notifies_all-Inv}
use my_utils.Runtime.Sleep.Moves.{
  stopping-Move, waits-Move, Move-QueueInv, Move-Placed, Move-Placed_other,
}

module _ {n k : ℕ} (workers_few : n < 2 ^ 63) (few : k < 2 ^ 64) where
  started-Inv : Inv n k (started n)
  started-Inv = record {
    queues = λ q here. ground (
      arith,
      nothing (λ i. holds) (λ i. ground arith),
      nothing (λ i. idles) (λ i. ground arith),
      nothing (λ i. waits) (λ i. ground arith),
      nothing (λ i. checks) (λ i. ground arith),
      nothing (is_past n q) (λ i. ground arith),
    );
    placed = λ i lt. ground arith;
    announced_stops = λ h. cc;
    announced_wakes = λ h. nothing (λ i. waits) (λ i. ground arith);
  }
    where
      nothing :
          (w : ℕ → Pc → ℕ) → ((i : ℕ) → w i ((started n).pc i) ≡ 0) → total w k (started n).pc ≡ 0
      nothing w e = total-eq-zero w k (started n).pc λ i lt. e i

  moves-Inv :
      {s : Threads} {m : Shared} {p : Pc} (i : ℕ)
      → i < k
      → Inv n k s
      → Move n i s.shared (s.pc i) m p
      → Inv n k (record s { shared = m; pc = update s.pc i p })
  moves-Inv {s} {m} {p} i lt inv mv = record {
    queues = λ q here.
        Move-QueueInv workers_few (inv.queues q here) here mv (inv.placed i lt)
          (Shift-update n k q s.pc i p few lt);
    placed = λ j jt. elim (ℕ_discrete j i) [
      | yes same ↦ rw (same, mine) (Move-Placed mv (inv.placed i lt))
      | no other ↦ rw (theirs j other) (Move-Placed_other j (s.pc j) other mv (inv.placed j jt))
    ];
    announced_stops = λ h. stopping-Move mv (inv.announced_stops h);
    announced_wakes = λ h. omega (
      arith,
      inv.announced_wakes h,
      (inv.queues none tt).stopped_checks (inv.announced_stops h),
      le-total (λ j. checks) k s.pc i lt,
      total-update (λ j. waits) k s.pc i p lt,
      waits-Move mv,
    );
  }
    where
      mine : update s.pc i p i ≡ p
      mine = ground arith

      theirs : (j : ℕ) → j ≢ i → update s.pc i p j ≡ s.pc j
      theirs j other = ground arith

  stops-Inv :
      {s : Threads}
      → s.shared.locked ≡ false
      → Inv n k s
      → Inv n k (record s { shared = record s.shared { stopping = true } })
  stops-Inv {s} free inv = record {
    queues = λ q here. ground (
      arith,
      free,
      inv.queues q here,
      total-le-total (λ i. checks) (λ i. holds) (λ i. checks-le-holds) k s.pc,
    );
    placed = λ j jt. stopped-Placed j s.shared (s.pc j) (inv.placed j jt);
    announced_stops = λ a. refl;
    announced_wakes = inv.announced_wakes;
  }
    where
      checks-le-holds : (p : Pc) → checks p ≤ holds p
      checks-le-holds counting = omega arith
      checks-le-holds p = omega arith

      stopped-Placed :
          (j : ℕ) (m : Shared) (p : Pc)
          → Placed n j m p
          → Placed n j (record m { stopping = true }) p
      stopped-Placed j m waiting w = w
      stopped-Placed j m p w = w

  Step-Inv : {s t : Threads} → Inv n k s → Step n k s t → Inv n k t
  Step-Inv inv (moves i lt mv) = moves-Inv i lt inv mv
  Step-Inv inv (notifies_one i x lt xt h e) = notifies_one-Inv n k few i x lt xt h e inv
  Step-Inv {s} inv (notifies_none i lt h awake) =
      notifies_none-Inv n k few i lt h (total-eq-zero (λ j. waits) k s.pc none_waits) inv
    where
      asleep_only : (p : Pc) → p ≢ waiting → waits p ≡ 0
      asleep_only waiting ne = absurd (ne refl)
      asleep_only p ne = refl

      none_waits : (j : ℕ) → j < k → waits (s.pc j) ≡ 0
      none_waits j jt = asleep_only (s.pc j) (awake j jt)
  Step-Inv inv (stops free) = stops-Inv free inv
  Step-Inv inv (notifies_all stopped) = notifies_all-Inv n k few stopped inv

  pub Reach-Inv : {s : Threads} → Reach n k s → Inv n k s
  Reach-Inv at_start = started-Inv
  Reach-Inv (then_step r st) = Step-Inv (Reach-Inv r) st
