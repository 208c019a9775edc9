-- ===== src/Runtime/Flags.antt =====
-- What the calls on the queues of the pool leave as it is, and what DiscardPending leaves in them.
use my_utils.Base.{
  ℕ, zero, suc, ◌-◌, ◌≡◌, ◌⊎◌, inl, inr, Option, none, some, ◌==◌, add64, leb, ◌%◌, total-eq-zero,
  Bool-cases, Option-cases, List-cases, refl, ap, ◌∙◌, subst, arith,
}
use my_utils.Queue.{ConcurrentQueue, IsExact}
use my_utils.Queue.Fifo.{copies}
use my_utils.Runtime.Pool.{
  Pool, WorkerIdentity, injection_poll_interval, take_back, pop_local, steal_from, try_steal,
  take_injected, or_else, push_task, acquire_anywhere, next_task,
}
use my_utils.Runtime.Conservation.{copies_in}
use my_utils.Runtime.Discard.{
  clear_local, clear_local-worker_count, clear_local-local, discard_injected,
  discard_injected-worker_count, discard_injected-miss, discard_injected-hit, discard_pending,
}

module _ {Q : Type 0} where
  abbrev SameFlags : Pool Q → Option (ℕ × Pool Q) → Type 0
  SameFlags p none = Unit {0}
  SameFlags p (some (task, p')) = (p'.stopping ≡ p.stopping) × (p'.worker_count ≡ p.worker_count)

  pop_local-SameFlags : (p : Pool Q) (index : ℕ) → SameFlags p (pop_local p index)
  unfolding pop_local
  pop_local-SameFlags p index = elim (Option-cases (take_back (p.local index))) [
    | inl f ↦ rw (f, SameFlags) tt
    | inr (x, f) ↦ rw (f, SameFlags) (refl, refl)
  ]

  steal_from-SameFlags :
      (p : Pool Q) (index offset left : ℕ) → SameFlags p (steal_from p index offset left)
  unfolding steal_from
  steal_from-SameFlags p index offset zero = tt
  steal_from-SameFlags p index offset (suc left) =
      elim (List-cases (p.local (add64 index offset % p.worker_count))) [
        | inl f ↦ rw (f, SameFlags) (steal_from-SameFlags p index (add64 offset 1) left)
        | inr (x, f) ↦ rw (f, SameFlags) (refl, refl)
      ]

  try_steal-SameFlags : (p : Pool Q) (index : ℕ) → SameFlags p (try_steal p index)
  unfolding try_steal
  try_steal-SameFlags p index = elim (Bool-cases (leb p.worker_count 1)) [
    | inl f ↦ rw (f, SameFlags) tt
    | inr f ↦ rw f (steal_from-SameFlags p index 1 (p.worker_count - 1))
  ]

  or_else-SameFlags :
      (p : Pool Q) (o u : Option (ℕ × Pool Q))
      → SameFlags p o
      → SameFlags p u
      → SameFlags p (or_else o u)
  unfolding or_else
  or_else-SameFlags p none u a b = b
  or_else-SameFlags p (some x) u a b = a

module _ {Q : Type 0} where
  clear_local-stopping : (k : ℕ) (p : Pool Q) → (clear_local k p).stopping ≡ p.stopping
  unfolding clear_local
  clear_local-stopping zero p = refl
  clear_local-stopping (suc k) p = clear_local-stopping k p

module _ {Q : Type 0} (queue : ConcurrentQueue Q) where
  take_injected-SameFlags : (p : Pool Q) → SameFlags p (take_injected queue p)
  unfolding take_injected
  take_injected-SameFlags p = elim (Option-cases (queue.try_dequeue p.injection)) [
    | inl f ↦ rw (f, SameFlags) tt
    | inr (x, f) ↦ rw (f, SameFlags) (refl, refl)
  ]

  acquire_anywhere-SameFlags :
      (p : Pool Q) (index : ℕ) → SameFlags p (acquire_anywhere queue p index)
  unfolding acquire_anywhere
  acquire_anywhere-SameFlags p index =
      or_else-SameFlags p (pop_local p index) _ (pop_local-SameFlags p index) (
        or_else-SameFlags p (take_injected queue p) _ (take_injected-SameFlags p)
          (try_steal-SameFlags p index))

  next_task-SameFlags : (p : Pool Q) (index tick : ℕ) → SameFlags p (next_task queue p index tick)
  unfolding next_task
  next_task-SameFlags p index tick = elim (Bool-cases (tick % injection_poll_interval == 0)) [
    | inl f ↦ rw f (
        or_else-SameFlags p (take_injected queue p) _ (take_injected-SameFlags p) (
          or_else-SameFlags p (pop_local p index) _ (pop_local-SameFlags p index)
            (try_steal-SameFlags p index)))
    | inr f ↦ rw f (
        or_else-SameFlags p (pop_local p index) _ (pop_local-SameFlags p index) (
          or_else-SameFlags p (take_injected queue p) _ (take_injected-SameFlags p)
            (try_steal-SameFlags p index)))
  ]

  pub search-SameFlags :
      (p p' : Pool Q) (index tick task : ℕ)
      → (next_task queue p index tick ≡ some (task, p'))
        ⊎ (acquire_anywhere queue p index ≡ some (task, p'))
      → (p'.stopping ≡ p.stopping) × (p'.worker_count ≡ p.worker_count)
  search-SameFlags p p' index tick task (inl e) =
      subst (SameFlags p) e (next_task-SameFlags p index tick)
  search-SameFlags p p' index tick task (inr e) =
      subst (SameFlags p) e (acquire_anywhere-SameFlags p index)

  pub push_task-flags :
      (p : Pool Q) (self : WorkerIdentity) (task : ℕ)
      → ((push_task queue p self task).pool.stopping ≡ p.stopping)
        × ((push_task queue p self task).pool.worker_count ≡ p.worker_count)
  unfolding push_task
  push_task-flags p self task = ground arith

  discard_injected-stopping :
      (rounds : ℕ) (p : Pool Q) → (discard_injected queue rounds p).stopping ≡ p.stopping
  unfolding discard_injected
  discard_injected-stopping zero p = refl
  discard_injected-stopping (suc rounds) p = elim (Option-cases (queue.try_dequeue p.injection)) [
    | inl miss ↦ ap (λ p'. p'.stopping) (discard_injected-miss queue (suc rounds) p miss)
    | inr ((task, rest), hit) ↦
        ap (λ p'. p'.stopping) (discard_injected-hit queue rounds task p rest hit)
        ∙ discard_injected-stopping rounds (record p { injection = rest })
  ]

  pub discard_pending-stopping :
      (rounds : ℕ) (p : Pool Q) → (discard_pending queue rounds p).stopping ≡ p.stopping
  unfolding discard_pending
  discard_pending-stopping rounds p =
      clear_local-stopping (discard_injected queue rounds p).worker_count
        (discard_injected queue rounds p)
      ∙ discard_injected-stopping rounds p

  -- Where its loop has come to its end, DiscardPending leaves no task in a queue.
  pub discard_pending-copies :
      (rounds : ℕ) (p : Pool Q) (y : ℕ)
      → IsExact queue
      → queue.try_dequeue (discard_pending queue rounds p).injection ≡ none
      → copies_in queue (discard_pending queue rounds p) y ≡ 0
  unfolding discard_pending copies_in
  discard_pending-copies rounds p y exact ended = omega (
    arith,
    exact (discard_pending queue rounds p).injection ended y,
    total-eq-zero (λ _ items. copies items y) (discard_pending queue rounds p).worker_count
        (discard_pending queue rounds p).local
        (λ j lt.
          ap (λ items. copies items y)
            (clear_local-local left.worker_count j left
              (omega (arith, lt, clear_local-worker_count left.worker_count left)))),
  )
    where
      left : Pool Q
      left = discard_injected queue rounds p

  pub discard_pending-worker_count :
      (rounds : ℕ) (p : Pool Q) → (discard_pending queue rounds p).worker_count ≡ p.worker_count
  unfolding discard_pending
  discard_pending-worker_count rounds p =
      clear_local-worker_count (discard_injected queue rounds p).worker_count
        (discard_injected queue rounds p)
      ∙ discard_injected-worker_count queue rounds p
