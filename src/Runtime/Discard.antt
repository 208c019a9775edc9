-- ===== src/Runtime/Discard.antt =====
-- WorkerPool::DiscardPending, after the join of the workers. Its loop over the injection queue takes a
-- number of rounds.
use my_utils.Base.{
  ℕ, zero, suc, ◌-◌, ◌%◌, ◌<◌, ◌≤◌, ◌≡◌, inl, inr, [], none, some, update, add64, leb, Option-cases,
  Bool-cases, mod-lt, refl, sym, ap, ◌∙◌, arith,
}
use my_utils.Queue.{ConcurrentQueue, Shrinks}
use my_utils.Runtime.Pool.{
  Pool, take_back, pop_local, steal_from, try_steal, take_injected, or_else, acquire_anywhere,
}

module _ {Q : Type 0} where
  -- The loop over the first `n` deques.
  unfoldable pub clear_local : (n : ℕ) → Pool Q → Pool Q
  clear_local zero p = p
  clear_local (suc n) p = let p' = clear_local n p in record p' { local = update p'.local n [] }

  pub clear_local-injection : (n : ℕ) (p : Pool Q) → (clear_local n p).injection ≡ p.injection
  unfolding clear_local
  clear_local-injection zero p = refl
  clear_local-injection (suc n) p = clear_local-injection n p

  pub clear_local-worker_count :
      (n : ℕ) (p : Pool Q) → (clear_local n p).worker_count ≡ p.worker_count
  unfolding clear_local
  clear_local-worker_count zero p = refl
  clear_local-worker_count (suc n) p = clear_local-worker_count n p

  pub clear_local-local : (n j : ℕ) (p : Pool Q) → j < n → (clear_local n p).local j ≡ []
  unfolding clear_local
  clear_local-local zero j p lt = absurd (omega arith)
  clear_local-local (suc n) j p lt = ground (arith, clear_local-local n j p)

  steal_from-empty :
      (p : Pool Q) (index offset left : ℕ)
      → 0 < p.worker_count
      → ((j : ℕ) → j < p.worker_count → p.local j ≡ [])
      → steal_from p index offset left ≡ none
  unfolding steal_from
  steal_from-empty p index offset zero pos empty = refl
  steal_from-empty p index offset (suc left) pos empty =
      rw (steal_from, empty (add64 index offset % p.worker_count) (mod-lt (add64 index offset) pos))
        (steal_from-empty p index (add64 offset 1) left pos empty)

  try_steal-empty :
      (p : Pool Q) (index : ℕ)
      → 0 < p.worker_count
      → ((j : ℕ) → j < p.worker_count → p.local j ≡ [])
      → try_steal p index ≡ none
  unfolding try_steal
  try_steal-empty p index pos empty = elim (Bool-cases (leb p.worker_count 1)) [
    | inl alone ↦ rw alone refl
    | inr others ↦ rw others (steal_from-empty p index 1 (p.worker_count - 1) pos empty)
  ]

module _ {Q : Type 0} (queue : ConcurrentQueue Q) where
  -- A worker finds nothing in a pool whose queues are empty.
  acquire_anywhere-empty :
      (p : Pool Q) (index : ℕ)
      → index < p.worker_count
      → ((j : ℕ) → j < p.worker_count → p.local j ≡ [])
      → queue.try_dequeue p.injection ≡ none
      → acquire_anywhere queue p index ≡ none
  unfolding acquire_anywhere
  acquire_anywhere-empty p index lt empty miss =
      rw
        (
          acquire_anywhere,
          pop_local,
          empty index lt,
          take_back,
          or_else,
          take_injected,
          miss,
          try_steal,
        )
        (try_steal-empty p index (omega (arith, lt)) empty)

  -- The loop over the injection queue.
  unfoldable pub discard_injected : (rounds : ℕ) → Pool Q → Pool Q
  unfolding take_injected
  discard_injected zero p = p
  discard_injected (suc rounds) p = elim (take_injected queue p) [
    | none ↦ p
    | some (task, p') ↦ discard_injected rounds p'
  ]

  -- WorkerPool::DiscardPending
  unfoldable pub discard_pending : (rounds : ℕ) → Pool Q → Pool Q
  unfolding clear_local discard_injected
  discard_pending rounds p = let p' = discard_injected rounds p in clear_local p'.worker_count p'

  pub discard_injected-miss :
      (rounds : ℕ) (p : Pool Q)
      → queue.try_dequeue p.injection ≡ none
      → discard_injected rounds p ≡ p
  unfolding discard_injected
  discard_injected-miss zero p miss = refl
  discard_injected-miss (suc rounds) p miss = rw (discard_injected, take_injected, miss) refl

  pub discard_injected-hit :
      (rounds task : ℕ) (p : Pool Q) (rest : Q)
      → queue.try_dequeue p.injection ≡ some (task, rest)
      → discard_injected (suc rounds) p ≡ discard_injected rounds (record p { injection = rest })
  unfolding discard_injected
  discard_injected-hit rounds task p rest hit = rw (discard_injected, take_injected, hit) refl

  pub discard_injected-worker_count :
      (rounds : ℕ) (p : Pool Q) → (discard_injected rounds p).worker_count ≡ p.worker_count
  unfolding discard_injected
  discard_injected-worker_count zero p = refl
  discard_injected-worker_count (suc rounds) p =
      elim (Option-cases (queue.try_dequeue p.injection)) [
        | inl miss ↦ ap (λ p'. p'.worker_count) (discard_injected-miss (suc rounds) p miss)
        | inr ((task, rest), hit) ↦
            ap (λ p'. p'.worker_count) (discard_injected-hit rounds task p rest hit)
            ∙ discard_injected-worker_count rounds (record p { injection = rest })
      ]

  module _ (size : Q → ℕ) (shrinks : Shrinks queue size) where
    -- Enough rounds end the loop, and more of them do no more.
    discard_injected-ends :
        (rounds rounds' : ℕ) (p : Pool Q)
        → size p.injection ≤ rounds
        → rounds ≤ rounds'
        → (queue.try_dequeue (discard_injected rounds p).injection ≡ none)
          × (discard_injected rounds' p ≡ discard_injected rounds p)
    unfolding discard_injected
    discard_injected-ends zero rounds' p few more =
        elim (Option-cases (queue.try_dequeue p.injection)) [
          | inl miss ↦ (miss, discard_injected-miss rounds' p miss)
          | inr ((task, rest), hit) ↦ absurd (omega (arith, shrinks p.injection rest task hit))
        ]
    discard_injected-ends (suc rounds) zero p few more = absurd (omega arith)
    discard_injected-ends (suc rounds) (suc rounds') p few more =
        elim (Option-cases (queue.try_dequeue p.injection)) [
          | inl miss ↦ (
            ap (λ p'. queue.try_dequeue p'.injection) (discard_injected-miss (suc rounds) p miss)
                ∙ miss,
            discard_injected-miss (suc rounds') p miss
                ∙ sym (discard_injected-miss (suc rounds) p miss),
          )
          | inr ((task, rest), hit) ↦
              let (stops, same) =
                discard_injected-ends rounds rounds' (record p { injection = rest })
                  (omega (arith, shrinks p.injection rest task hit)) (omega arith) in
              (
                ap (λ p'. queue.try_dequeue p'.injection)
                      (discard_injected-hit rounds task p rest hit)
                    ∙ stops,
                discard_injected-hit rounds' task p rest hit
                    ∙ same
                    ∙ sym (discard_injected-hit rounds task p rest hit),
              )
        ]

    -- With as many rounds as the injection queue stores tasks, where a try_dequeue that succeeds leaves
    -- fewer of them, DiscardPending has come to its end: more rounds change nothing, the deques of all workers are empty, and no search of a worker
    -- finds a task any more.
    pub discard_pending-ends :
        (rounds rounds' index : ℕ) (p : Pool Q)
        → size p.injection ≤ rounds
        → rounds ≤ rounds'
        → index < p.worker_count
        → (discard_pending rounds' p ≡ discard_pending rounds p)
          × ((discard_pending rounds p).local index ≡ [])
          × (acquire_anywhere queue (discard_pending rounds p) index ≡ none)
    unfolding discard_pending acquire_anywhere
    discard_pending-ends rounds rounds' index p few more lt = (
      ap (λ p'. clear_local p'.worker_count p') (discard_injected-ends rounds rounds' p few more).1,
      empty index (omega (arith, count)),
      acquire_anywhere-empty (clear_local left.worker_count left) index (omega (arith, lt, count))
          empty
          (ap queue.try_dequeue (clear_local-injection left.worker_count left)
            ∙ (discard_injected-ends rounds rounds' p few more).0),
    )
      where
        left : Pool Q
        left = discard_injected rounds p

        count : (clear_local left.worker_count left).worker_count ≡ p.worker_count
        count =
            clear_local-worker_count left.worker_count left ∙ discard_injected-worker_count rounds p

        empty :
            (j : ℕ)
            → j < (clear_local left.worker_count left).worker_count
            → (clear_local left.worker_count left).local j ≡ []
        empty j jt =
            clear_local-local left.worker_count j left
              (omega (arith, jt, clear_local-worker_count left.worker_count left))
