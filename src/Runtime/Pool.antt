-- ===== src/Runtime/Pool.antt =====
-- The queues of WorkerPool: the injection queue and a deque for each worker. Each access to one
-- of them is a critical section or a call of the concurrent queue; tasks are named by numbers.
use my_utils.Base.{
  ℕ, zero, suc, ◌-◌, ◌%◌, Bool, true, false, not, List, [], ◌∷◌, ◌++◌, Option, none, some, leb,
  ◌==◌, if◌then◌else◌, update, add64,
}
use my_utils.Queue.{ConcurrentQueue}

abbrev pub injection_poll_interval : ℕ
injection_poll_interval = 61

pub record Pool (Q : Type 0) : Type 0 where
  pub injection : Q  -- _injection
  pub local : ℕ → List ℕ  -- _local, the items of each
  pub worker_count : ℕ  -- _workerCount
  pub idle_count : ℕ  -- _idleCount
  pub stopping : Bool  -- _stopping

-- back and pop_back
unfoldable pub take_back : List ℕ → Option (ℕ × List ℕ)
take_back [] = none
take_back (x ∷ []) = some (x, [])
take_back (x ∷ y ∷ ys) = elim (take_back (y ∷ ys)) [
  | none ↦ none
  | some (z, rest) ↦ some (z, x ∷ rest)
]

-- CurrentWorker of a thread.
pub record WorkerIdentity : Type 0 where
  pub is_worker : Bool  -- isWorker
  pub index : ℕ  -- index

-- WorkerScope: its constructor in WorkerLoop, and its destructor.
abbrev pub enter_worker : ℕ → WorkerIdentity
enter_worker index = record { is_worker = true; index = index }

abbrev pub leave_worker : WorkerIdentity
leave_worker = record { is_worker = false; index = 0 }

-- What Submit did: its result, and whether it woke a worker.
pub record Submitted (Q : Type 0) : Type 0 where
  pub pool : Pool Q
  pub accepted : Bool
  pub notified : Bool

-- `if (first) return true;` and on to the second.
unfoldable pub or_else {ℓ} : {A : Type ℓ} → Option A → Option A → Option A
or_else (some a) o = some a
or_else none o = o

module _ {Q : Type 0} where
  -- WorkerPool::PopLocal
  unfoldable pub pop_local : Pool Q → ℕ → Option (ℕ × Pool Q)
  unfolding take_back
  pop_local p index = elim (take_back (p.local index)) [
    | none ↦ none
    | some (task, rest) ↦ some (task, record p { local = update p.local index rest })
  ]

  -- The loop of TrySteal from `offset` on, with `left` victims to go.
  unfoldable pub steal_from : Pool Q → ℕ → (offset left : ℕ) → Option (ℕ × Pool Q)
  steal_from p index offset zero = none
  steal_from p index offset (suc left) =
      let victim = add64 index offset % p.worker_count in
      elim (p.local victim) [
        | [] ↦ steal_from p index (add64 offset 1) left
        | task ∷ rest ↦ some (task, record p { local = update p.local victim rest })
      ]

  -- WorkerPool::TrySteal
  unfoldable pub try_steal : Pool Q → ℕ → Option (ℕ × Pool Q)
  unfolding steal_from
  try_steal p index =
      if leb p.worker_count 1 then none else steal_from p index 1 (p.worker_count - 1)

module _ {Q : Type 0} (queue : ConcurrentQueue Q) where
  -- WorkerPool::Submit, behind its test of _stopping. `self` is CurrentWorker of the thread that
  -- calls.
  unfoldable pub push_task : Pool Q → WorkerIdentity → ℕ → Submitted Q
  push_task p self task =
      if self.is_worker
      then record {
        pool = record p { local = update p.local self.index (p.local self.index ++ task ∷ []) };
        accepted = true;
        notified = not (p.idle_count == 0);
      }
      else let (injection', stored) = queue.enqueue p.injection task in
        record { pool = record p { injection = injection' }; accepted = stored; notified = stored }

  -- WorkerPool::Submit
  unfoldable pub submit : Pool Q → WorkerIdentity → ℕ → Submitted Q
  unfolding push_task
  submit p self task =
      if p.stopping
      then record { pool = p; accepted = false; notified = false }
      else push_task p self task

  -- _injection.try_dequeue(out)
  unfoldable pub take_injected : Pool Q → Option (ℕ × Pool Q)
  take_injected p = elim (queue.try_dequeue p.injection) [
    | none ↦ none
    | some (task, rest) ↦ some (task, record p { injection = rest })
  ]

  -- WorkerPool::AcquireAnywhere
  unfoldable pub acquire_anywhere : Pool Q → ℕ → Option (ℕ × Pool Q)
  unfolding pop_local take_injected try_steal or_else
  acquire_anywhere p index =
      or_else (pop_local p index) (or_else (take_injected p) (try_steal p index))

  -- WorkerPool::NextTask
  unfoldable pub next_task : Pool Q → ℕ → (tick : ℕ) → Option (ℕ × Pool Q)
  unfolding pop_local take_injected try_steal or_else
  next_task p index tick =
      if tick % injection_poll_interval == 0
      then or_else (take_injected p) (or_else (pop_local p index) (try_steal p index))
      else or_else (pop_local p index) (or_else (take_injected p) (try_steal p index))
