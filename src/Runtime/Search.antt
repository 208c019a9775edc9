-- ===== src/Runtime/Search.antt =====
-- What a worker finds: AcquireAnywhere looks into every queue, and NextTask takes the newest task
-- of the worker's own deque.
use my_utils.Base.{
  ℕ, ◌+◌, ◌-◌, ◌%◌, ◌^◌, ◌<◌, ◌≤◌, ◌≡◌, ◌≢◌, inl, inr, zero, suc, false, List, [], ◌∷◌, ◌++◌,
  Option, none, some, ◌==◌, update, update-update, update_self, add64, List-cases, Option-cases,
  dec_lt, ℕ_discrete, mod-eq_of_lt, add-mod_left, refl, sym, ◌∙◌, ap, subst, arith,
}
use my_utils.Queue.{ConcurrentQueue}
use my_utils.Runtime.Pool.{
  enter_worker, Pool, injection_poll_interval, take_back, pop_local, steal_from, try_steal, submit,
  take_injected, or_else, acquire_anywhere, next_task,
}

take_back-append : (xs : List ℕ) (x : ℕ) → take_back (xs ++ x ∷ []) ≡ some (x, xs)
unfolding take_back
take_back-append [] x = refl
take_back-append (a ∷ []) x = refl
take_back-append (a ∷ b ∷ xs) x = rw (take_back-append (b ∷ xs) x) refl

take_back-none : (xs : List ℕ) → take_back xs ≡ none → xs ≡ []
unfolding take_back
take_back-none [] e = refl
take_back-none (a ∷ []) e = cc
take_back-none (a ∷ b ∷ xs) e = elim (Option-cases (take_back (b ∷ xs))) [
  | inl f ↦ absurd (cons-not_nil (take_back-none (b ∷ xs) f))
  | inr ((z, r), f) ↦ ground (arith, f)
]
  where
    cons-not_nil : (b ∷ xs) ≢ []
    cons-not_nil h = cc

or_else-none {ℓ} : {A : Type ℓ} (o u : Option A) → or_else o u ≡ none → (o ≡ none) × (u ≡ none)
unfolding or_else
or_else-none none u e = (refl, e)
or_else-none (some a) u e = absurd (ground (arith, e))

module _ {Q : Type 0} where
  abbrev pushed : Pool Q → ℕ → ℕ → Pool Q
  pushed p index task = record p { local = update p.local index (p.local index ++ task ∷ []) }

  pop_local-take_back :
      (p : Pool Q) (index task : ℕ) (rest : List ℕ)
      → take_back (p.local index) ≡ some (task, rest)
      → pop_local p index ≡ some (task, record p { local = update p.local index rest })
  unfolding pop_local
  pop_local-take_back p index task rest e = rw (e, pop_local) refl

  pop_local-pushed :
      (p : Pool Q) (index task : ℕ) → pop_local (pushed p index task) index ≡ some (task, p)
  pop_local-pushed p index task =
      pop_local-take_back (pushed p index task) index task (p.local index)
        (ap take_back here ∙ take_back-append (p.local index) task)
      ∙ ap (λ l. some (task, record p { local = l })) restored
    where
      here : (pushed p index task).local index ≡ p.local index ++ task ∷ []
      here = ground arith

      restored :
          update (update p.local index (p.local index ++ task ∷ [])) index (p.local index) ≡ p.local
      restored =
          update-update p.local index _ (p.local index)
          ∙ update_self p.local index (p.local index) refl

  pop_local-none : (p : Pool Q) (index : ℕ) → pop_local p index ≡ none → p.local index ≡ []
  unfolding pop_local
  pop_local-none p index e = elim (Option-cases (take_back (p.local index))) [
    | inl f ↦ take_back-none (p.local index) f
    | inr ((z, r), f) ↦ ground (arith, f)
  ]

  -- A loop of TrySteal that finds nothing has seen only empty deques.
  steal_from-none :
      (p : Pool Q) (index offset left d : ℕ)
      → offset + left < 2 ^ 64
      → steal_from p index offset left ≡ none
      → offset ≤ d
      → d < offset + left
      → p.local (add64 index d % p.worker_count) ≡ []
  unfolding steal_from
  steal_from-none p index offset zero d small e lo hi = absurd (omega arith)
  steal_from-none p index offset (suc left) d small e lo hi =
      elim (List-cases (p.local (add64 index offset % p.worker_count))) [
        | inr ((z, r), f) ↦ ground (arith, f)
        | inl f ↦ elim (ℕ_discrete offset d) [
          | yes here ↦ subst (λ o. p.local (add64 index o % p.worker_count) ≡ []) here f
          | no further ↦
              steal_from-none p index (add64 offset 1) left d (omega arith)
                (subst (λ o. o ≡ none) (ground (arith, f)) e) (omega arith) (omega arith)
        ]
      ]

  try_steal-none :
      (p : Pool Q) (index j : ℕ)
      → p.worker_count < 2 ^ 63
      → index < p.worker_count
      → j < p.worker_count
      → j ≢ index
      → try_steal p index ≡ none
      → p.local j ≡ []
  unfolding try_steal
  try_steal-none p index j few at jt ne e = elim (dec_lt index j) [
    | yes above ↦
        subst (λ v. p.local v ≡ [])
          (ap (λ v. v % p.worker_count) (straight above) ∙ mod-eq_of_lt jt)
          (seen (j - index) (omega arith) (omega arith))
    | no below ↦
        subst (λ v. p.local v ≡ [])
          (ap (λ v. v % p.worker_count) (around below)
            ∙ add-mod_left p.worker_count j
            ∙ mod-eq_of_lt jt)
          (seen (p.worker_count - index + j) (omega arith) (omega arith))
  ]
    where
      straight : index < j → add64 index (j - index) ≡ j
      straight h = omega arith

      around : ¬ (index < j) → add64 index (p.worker_count - index + j) ≡ p.worker_count + j
      around h = omega arith

      seen : (d : ℕ) → 1 ≤ d → d < p.worker_count → p.local (add64 index d % p.worker_count) ≡ []
      seen d lo hi =
          steal_from-none p index 1 (p.worker_count - 1) d (omega arith) (ground arith) lo
            (omega arith)

module _ {Q : Type 0} (queue : ConcurrentQueue Q) where
  take_injected-none :
      (p : Pool Q) → take_injected queue p ≡ none → queue.try_dequeue p.injection ≡ none
  unfolding take_injected
  take_injected-none p e = elim (Option-cases (queue.try_dequeue p.injection)) [
    | inl f ↦ f
    | inr (x, f) ↦ ground (arith, f)
  ]

  -- Where AcquireAnywhere of one of fewer than 2 ^ 63 workers finds no task, the deque of every
  -- worker is empty and the injection queue gave nothing.
  pub acquire_anywhere-none :
      (p : Pool Q) (index j : ℕ)
      → p.worker_count < 2 ^ 63
      → index < p.worker_count
      → j < p.worker_count
      → acquire_anywhere queue p index ≡ none
      → (p.local j ≡ []) × (queue.try_dequeue p.injection ≡ none)
  unfolding acquire_anywhere
  acquire_anywhere-none p index j few at jt e =
      let (own, rest) = or_else-none (pop_local p index) _ e in
      let (injected, others) = or_else-none (take_injected queue p) (try_steal p index) rest in
      (
        elim (ℕ_discrete j index) [
          | yes mine ↦ subst (λ v. p.local v ≡ []) (sym mine) (pop_local-none p index own)
          | no other ↦ try_steal-none p index j few at jt other others
        ],
        take_injected-none p injected,
      )

  submit-pushed :
      (p : Pool Q) (index task : ℕ)
      → p.stopping ≡ false
      → (submit queue p (enter_worker index) task).pool ≡ pushed p index task
  unfolding submit
  submit-pushed p index task goes = simp goes

  next_task-pop_local :
      (p : Pool Q) (index tick : ℕ) (x : ℕ × Pool Q)
      → (tick % injection_poll_interval == 0) ≡ false
      → pop_local p index ≡ some x
      → next_task queue p index tick ≡ some x
  unfolding next_task or_else
  next_task-pop_local p index tick x off e = rw (off, e) refl

  -- A worker that submits a task to a pool that is not stopping and then looks for one, off the
  -- ticks that poll the injection queue, gets that task, and the pool is as it was before.
  pub next_task-submit :
      (p : Pool Q) (index tick task : ℕ)
      → p.stopping ≡ false
      → tick % injection_poll_interval ≢ 0
      → next_task queue (submit queue p (enter_worker index) task).pool index tick ≡ some (task, p)
  next_task-submit p index tick task goes off =
      subst (λ p'. next_task queue p' index tick ≡ some (task, p))
        (sym (submit-pushed p index task goes))
        (next_task-pop_local (pushed p index task) index tick (task, p) (ground (arith, off))
          (pop_local-pushed p index task))
