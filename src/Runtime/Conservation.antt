-- ===== src/Runtime/Conservation.antt =====
-- No task is lost or doubled on its way through the queues of the pool.
use my_utils.Base.{
  ℕ, ◌+◌, ◌<◌, ◌≡◌, zero, suc, List, [], ◌∷◌, ◌++◌, Option, none, some, ◌==◌, tally, ap, sym, subst,
  false, Bool-cases, true, List-cases, mod-lt, leb, ◌-◌, tally-update, Option-cases, arith, ◌⊎◌,
  inl, inr, ◌%◌, add64, if◌then◌else◌,
}
use my_utils.Queue.{ConcurrentQueue, one_if}
use my_utils.Queue.Fifo.{copies, copies-append}
use my_utils.Runtime.Pool.{
  WorkerIdentity, injection_poll_interval, Pool, take_back, pop_local, steal_from, try_steal,
  push_task, submit, take_injected, or_else, acquire_anywhere, next_task,
}

copies-take_back :
    (xs rest : List ℕ) (x y : ℕ)
    → take_back xs ≡ some (x, rest)
    → copies xs y ≡ copies rest y + one_if (x == y)
unfolding take_back
copies-take_back [] rest x y e = cc
copies-take_back (a ∷ []) rest x y e = ground arith
copies-take_back (a ∷ b ∷ xs) rest x y e = elim (Option-cases (take_back (b ∷ xs))) [
  | inl f ↦ ground (arith, f)
  | inr ((z, r), f) ↦ ground (arith, f, copies-take_back (b ∷ xs) r z y f)
]

module _ {Q : Type 0} (queue : ConcurrentQueue Q) where
  -- The copies of task `y` in all queues of the pool.
  unfoldable pub copies_in : Pool Q → ℕ → ℕ
  copies_in p y =
      queue.copies p.injection y + tally (λ items. copies items y) p.worker_count p.local

  -- What a search for a task may do: it takes one copy of the task that it returns.
  abbrev Takes : Pool Q → ℕ → Option (ℕ × Pool Q) → Type 0
  Takes p y none = Unit {0}
  Takes p y (some (task, p')) = copies_in p y ≡ copies_in p' y + one_if (task == y)

  pop_local-Takes :
      (p : Pool Q) (index y : ℕ) → index < p.worker_count → Takes p y (pop_local p index)
  unfolding pop_local copies_in
  pop_local-Takes p index y lt = elim (Option-cases (take_back (p.local index))) [
    | inl f ↦ rw (f, Takes) tt
    | inr ((task, rest), f) ↦
        rw (f, Takes)
          (omega (
            arith,
            copies-take_back (p.local index) rest task y f,
            tally-update (λ items. copies items y) p.worker_count p.local index rest lt,
          ))
  ]

  take_injected-Takes : (p : Pool Q) (y : ℕ) → Takes p y (take_injected queue p)
  unfolding take_injected copies_in
  take_injected-Takes p y = elim (Option-cases (queue.try_dequeue p.injection)) [
    | inl f ↦ rw (f, Takes) tt
    | inr ((task, rest), f) ↦
        rw (f, Takes) (omega (arith, queue.copies-try_dequeue p.injection rest task y f))
  ]

  steal_from-Takes :
      (p : Pool Q) (index offset left y : ℕ)
      → 0 < p.worker_count
      → Takes p y (steal_from p index offset left)
  unfolding steal_from copies_in
  steal_from-Takes p index offset zero y pos = tt
  steal_from-Takes p index offset (suc left) y pos =
      elim (List-cases (p.local (add64 index offset % p.worker_count))) [
        | inl f ↦ rw (f, Takes) (steal_from-Takes p index (add64 offset 1) left y pos)
        | inr ((task, rest), f) ↦
            rw (f, Takes)
              (omega (
                arith,
                ap (λ items. copies items y) f,
                tally-update (λ items. copies items y) p.worker_count p.local
                    (add64 index offset % p.worker_count) rest (mod-lt (add64 index offset) pos),
              ))
      ]

  try_steal-Takes : (p : Pool Q) (index y : ℕ) → 0 < p.worker_count → Takes p y (try_steal p index)
  unfolding try_steal
  try_steal-Takes p index y pos = elim (Bool-cases (leb p.worker_count 1)) [
    | inl f ↦ rw (f, Takes) tt
    | inr f ↦ rw f (steal_from-Takes p index 1 (p.worker_count - 1) y pos)
  ]

  or_else-Takes :
      (p : Pool Q) (y : ℕ) (o u : Option (ℕ × Pool Q))
      → Takes p y o
      → Takes p y u
      → Takes p y (or_else o u)
  unfolding or_else
  or_else-Takes p y none u a b = b
  or_else-Takes p y (some x) u a b = a

  acquire_anywhere-Takes :
      (p : Pool Q) (index y : ℕ)
      → index < p.worker_count
      → Takes p y (acquire_anywhere queue p index)
  unfolding acquire_anywhere
  acquire_anywhere-Takes p index y lt =
      or_else-Takes p y (pop_local p index) _ (pop_local-Takes p index y lt) (
        or_else-Takes p y (take_injected queue p) _ (take_injected-Takes p y)
          (try_steal-Takes p index y (omega arith)))

  next_task-Takes :
      (p : Pool Q) (index tick y : ℕ)
      → index < p.worker_count
      → Takes p y (next_task queue p index tick)
  unfolding next_task
  next_task-Takes p index tick y lt = elim (Bool-cases (tick % injection_poll_interval == 0)) [
    | inl f ↦ rw f (
        or_else-Takes p y (take_injected queue p) _ (take_injected-Takes p y) (
          or_else-Takes p y (pop_local p index) _ (pop_local-Takes p index y lt)
            (try_steal-Takes p index y (omega arith))))
    | inr f ↦ rw f (
        or_else-Takes p y (pop_local p index) _ (pop_local-Takes p index y lt) (
          or_else-Takes p y (take_injected queue p) _ (take_injected-Takes p y)
            (try_steal-Takes p index y (omega arith))))
  ]

  pub search-conserves :
      (p p' : Pool Q) (index tick task y : ℕ)
      → index < p.worker_count
      → (next_task queue p index tick ≡ some (task, p'))
        ⊎ (acquire_anywhere queue p index ≡ some (task, p'))
      → copies_in p y ≡ copies_in p' y + one_if (task == y)
  search-conserves p p' index tick task y lt (inl e) =
      subst (Takes p y) e (next_task-Takes p index tick y lt)
  search-conserves p p' index tick task y lt (inr e) =
      subst (Takes p y) e (acquire_anywhere-Takes p index y lt)

  pub push_task-conserves :
      (p : Pool Q) (self : WorkerIdentity) (task y : ℕ)
      → (self.is_worker ≡ true → self.index < p.worker_count)
      → copies_in (push_task queue p self task).pool y
        ≡ copies_in p y + (if (push_task queue p self task).accepted then one_if (task == y) else 0)
  unfolding push_task copies_in
  push_task-conserves p self task y own = elim (Bool-cases self.is_worker) [
    | inl w ↦ rw w (
        omega (
          arith,
          copies-append (p.local self.index) task y,
          tally-update (λ items. copies items y) p.worker_count p.local self.index
              (p.local self.index ++ task ∷ []) (own w),
        ))
    | inr w ↦ elim (Bool-cases (queue.enqueue p.injection task).1) [
      | inl g ↦ rw (w, g) (omega (arith, queue.copies-enqueue p.injection task y g))
      | inr g ↦ rw (w, g) (omega (arith, queue.copies-enqueue_failed p.injection task y g))
    ]
  ]

  submit-push_task :
      (p : Pool Q) (self : WorkerIdentity) (task : ℕ)
      → p.stopping ≡ false
      → submit queue p self task ≡ push_task queue p self task
  unfolding submit
  submit-push_task p self task goes =
      ap
        (λ stops.
          if stops
          then record { pool = p; accepted = false; notified = false }
          else push_task queue p self task)
        goes

  -- Submit puts exactly one copy of the task into the queues of the pool when it returns true, and
  -- leaves their contents as they are when it returns false, where a calling worker has a deque.
  pub submit-conserves :
      (p : Pool Q) (self : WorkerIdentity) (task y : ℕ)
      → (self.is_worker ≡ true → self.index < p.worker_count)
      → copies_in (submit queue p self task).pool y
        ≡ copies_in p y + (if (submit queue p self task).accepted then one_if (task == y) else 0)
  unfolding submit
  submit-conserves p self task y own = elim (Bool-cases p.stopping) [
    | inl f ↦ simp f (omega arith)
    | inr f ↦
        subst
          (λ r. copies_in r.pool y ≡ copies_in p y + (if r.accepted then one_if (task == y) else 0))
          (sym (submit-push_task p self task f)) (push_task-conserves p self task y own)
  ]
