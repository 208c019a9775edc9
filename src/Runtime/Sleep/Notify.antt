-- ===== src/Runtime/Sleep/Notify.antt =====
-- notify_one and notify_all keep the invariant.
use my_utils.Base.{
  ℕ, ◌^◌, ◌<◌, ◌≡◌, ◌≢◌, true, Option, update, total, total-update, total-eq-zero, total-map,
  le-total, ℕ_discrete, refl, subst, sym, ap, arith,
}
use my_utils.Runtime.Sleep.Defs.{
  Shared, Pc, Threads, wake, notified, IsNotifier, notifying, waiting, woken, ringing,
}
use my_utils.Runtime.Sleep.Weights.{
  holds, idles, waits, checks, is_past, owes, Counts, counts, QueueInv, Placed, Inv,
}
use my_utils.Runtime.Sleep.Guards.{Shift, Shift-update}

module _ (n k : ℕ) (few : k < 2 ^ 64) where
  -- A notify_one by thread `i` that wakes thread `x`.
  notifies_one-QueueInv :
      {q : Option ℕ} {m : Shared} {i x : ℕ} (p : Pc) {c d e : Counts}
      → x ≢ i
      → IsNotifier p
      → QueueInv m q c
      → Shift n q x waiting woken c d
      → Shift n q i p (notified p) d e
      → QueueInv m q e
  notifies_one-QueueInv notifying ne h inv s t = ground arith
  notifies_one-QueueInv ringing ne h inv s t = ground arith
  notifies_one-QueueInv p ne h inv s t = ground arith

  notifies_none-QueueInv :
      {q : Option ℕ} {m : Shared} {i : ℕ} (p : Pc) {c d : Counts}
      → c.waiters ≡ 0
      → IsNotifier p
      → QueueInv m q c
      → Shift n q i p (notified p) c d
      → QueueInv m q d
  notifies_none-QueueInv notifying none_waits h inv s = ground arith
  notifies_none-QueueInv ringing none_waits h inv s = ground arith
  notifies_none-QueueInv p none_waits h inv s = ground arith

  notified-Placed :
      (i : ℕ) (m : Shared) (p : Pc) → IsNotifier p → Placed n i m p → Placed n i m (notified p)
  notified-Placed i m notifying h w = w
  notified-Placed i m ringing h w = tt
  notified-Placed i m p h w = ground (arith, h)

  waits-notified : (p : Pc) → waits (notified p) ≡ 0
  waits-notified notifying = refl
  waits-notified p = refl

  -- A write of a notifier's next place.
  notifier-Placed :
      (m : Shared) (pc : ℕ → Pc) (i : ℕ)
      → IsNotifier (pc i)
      → ((j : ℕ) → j < k → Placed n j m (pc j))
      → (j : ℕ) → j < k
      → Placed n j m (update pc i (notified (pc i)) j)
  notifier-Placed m pc i h placed j jt = elim (ℕ_discrete j i) [
    | yes same ↦ rw (same, mine) (notified-Placed i m (pc i) h (rw same at (placed j jt)))
    | no other ↦ rw (theirs other) (placed j jt)
  ]
    where
      mine : update pc i (notified (pc i)) i ≡ notified (pc i)
      mine = ground arith

      theirs : j ≢ i → update pc i (notified (pc i)) j ≡ pc j
      theirs other = ground arith

  pub notifies_none-Inv :
      {s : Threads} (i : ℕ)
      → i < k
      → IsNotifier (s.pc i)
      → total (λ j. waits) k s.pc ≡ 0
      → Inv n k s
      → Inv n k (record s { pc = update s.pc i (notified (s.pc i)) })
  notifies_none-Inv {s} i lt h asleep inv = record {
    queues = λ q here.
        notifies_none-QueueInv (s.pc i) asleep h (inv.queues q here)
          (Shift-update n k q s.pc i (notified (s.pc i)) few lt);
    placed = notifier-Placed s.shared s.pc i h inv.placed;
    announced_stops = inv.announced_stops;
    announced_wakes = λ a. omega (
      arith,
      asleep,
      total-update (λ j. waits) k s.pc i (notified (s.pc i)) lt,
      waits-notified (s.pc i),
    );
  }

  pub notifies_one-Inv :
      {s : Threads} (i x : ℕ)
      → i < k
      → x < k
      → IsNotifier (s.pc i)
      → s.pc x ≡ waiting
      → Inv n k s
      → Inv n k (record s { pc = update (update s.pc x woken) i (notified (s.pc i)) })
  notifies_one-Inv {s} i x lt xt h e inv = record {
    queues = λ q here.
        notifies_one-QueueInv (s.pc i) apart h (inv.queues q here)
          (subst (λ p. Shift n q x p woken (counts n q k s.pc) (counts n q k (update s.pc x woken)))
            e (Shift-update n k q s.pc x woken few xt))
          (subst
            (λ p.
              Shift n q i p (notified (s.pc i)) (counts n q k (update s.pc x woken))
                (counts n q k (update (update s.pc x woken) i (notified (s.pc i)))))
            unmoved (Shift-update n k q (update s.pc x woken) i (notified (s.pc i)) few lt));
    placed =
        subst
          (λ p.
            (j : ℕ) → j < k → Placed n j s.shared (update (update s.pc x woken) i (notified p) j))
          unmoved
          (notifier-Placed s.shared (update s.pc x woken) i (subst IsNotifier (sym unmoved) h)
            woken_placed);
    announced_stops = inv.announced_stops;
    announced_wakes = λ a.
        absurd
          (omega (arith, inv.announced_wakes a, le-total (λ j. waits) k s.pc x xt, ap waits e));
  }
    where
      apart : x ≢ i
      apart same = ground (arith, h, e, same)

      unmoved : update s.pc x woken i ≡ s.pc i
      unmoved = ground (arith, apart)

      woken_placed : (j : ℕ) → j < k → Placed n j s.shared (update s.pc x woken j)
      woken_placed j jt = elim (ℕ_discrete j x) [
        | yes same ↦ ground (arith, e, same, inv.placed x xt)
        | no other ↦ subst (Placed n j s.shared) (sym (untouched j other)) (inv.placed j jt)
      ]
        where
          untouched : (j : ℕ) → j ≢ x → update s.pc x woken j ≡ s.pc j
          untouched j other = ground (arith, other)

  wake-Placed : (j : ℕ) (m : Shared) (p : Pc) → Placed n j m p → Placed n j m (wake p)
  wake-Placed j m waiting w = w.0
  wake-Placed j m p w = w

  -- Whoever slept counts as idle still, and holds no lock.
  holds-wake : (i : ℕ) (p : Pc) → holds (wake p) ≡ holds p
  holds-wake i waiting = refl
  holds-wake i p = refl

  idles-wake : (i : ℕ) (p : Pc) → idles (wake p) ≡ idles p
  idles-wake i waiting = refl
  idles-wake i p = refl

  checks-wake : (i : ℕ) (p : Pc) → checks (wake p) ≡ checks p
  checks-wake i waiting = refl
  checks-wake i p = refl

  is_past-wake : (q : Option ℕ) (i : ℕ) (p : Pc) → is_past n q i (wake p) ≡ is_past n q i p
  is_past-wake q i waiting = refl
  is_past-wake q i p = refl

  owes-wake : (q : Option ℕ) (i : ℕ) (p : Pc) → owes q i (wake p) ≡ owes q i p
  owes-wake q i waiting = refl
  owes-wake q i p = refl

  waits-wake : (p : Pc) → waits (wake p) ≡ 0
  waits-wake waiting = refl
  waits-wake p = refl

  pub notifies_all-Inv :
      {s : Threads}
      → s.shared.stopping ≡ true
      → Inv n k s
      → Inv n k (record s { pc = λ i. wake (s.pc i); announced = true })
  notifies_all-Inv {s} stopped inv = record {
    queues = λ q here. ground (
      arith,
      stopped,
      inv.queues q here,
      total-map (λ i. holds) wake holds-wake k s.pc,
      total-map (λ i. idles) wake idles-wake k s.pc,
      total-map (λ i. checks) wake checks-wake k s.pc,
      total-map (is_past n q) wake (is_past-wake q) k s.pc,
      total-map (owes q) wake (owes-wake q) k s.pc,
    );
    placed = λ j jt. wake-Placed j s.shared (s.pc j) (inv.placed j jt);
    announced_stops = λ a. stopped;
    announced_wakes =
        λ a. total-eq-zero (λ i. waits) k (λ i. wake (s.pc i)) (λ i lt. waits-wake (s.pc i));
  }
