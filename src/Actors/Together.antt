-- ===== src/Actors/Together.antt =====
-- Any number of actors on one worker pool: the calls of Actors/Block.antt, each on an actor, with the
-- queues of Runtime/Pool.antt in place of the number of copies that one actor sees.
pub mod Projection
pub mod Queues
pub mod Quiet
pub mod Counting
mod Tests
use my_utils.Base.{ℕ, ◌+◌, ◌-◌, ◌<◌, ◌≡◌, ◌⊎◌, Bool, true, false, none, some, update}
use my_utils.Queue.{ConcurrentQueue}
use my_utils.Actors.Block.{
  Block, Pc, outside, executing, pushing, reverting, Move, takes, pushes, push_fails,
}
use my_utils.Actors.System.{System, is_executing, spawned}
use my_utils.Runtime.Pool.{Pool, WorkerIdentity, push_task, acquire_anywhere, next_task}
use my_utils.Runtime.Config.{empty_pool}
use my_utils.Runtime.Discard.{discard_pending}

-- A call, and the actor that it is on.
pub record Call : Type 0 where
  pub actor : ℕ
  pub pc : Pc

-- Actors and their tasks are named by one number. `queued` of a block is the number of copies of its
-- task, which the pool holds; `pool_stopping` and `joined` are the same in every block.
pub record Together (Q : Type 0) : Type 0 where
  pub pool : Pool Q
  pub blocks : ℕ → Block
  pub calls : ℕ → Call
  pub joined : Bool

-- The accesses that Actors/Block.antt makes to the queues of the pool.
abbrev pub IsQueueMove : {m m' : Block} {p p' : Pc} → Move m p m' p' → Type 0
IsQueueMove pushes = Unit
IsQueueMove push_fails = Unit
IsQueueMove (takes _ _) = Unit
IsQueueMove _ = ⊥

module _ {Q : Type 0} where
  -- The system after the call at place `i` has moved on the actor `a`.
  abbrev pub moved : Together Q → ℕ → ℕ → Block → Pc → Together Q
  moved s i a m p = record s {
    blocks = update s.blocks a m;
    calls = update s.calls i (record { actor = a; pc = p });
  }

  abbrev pub with_pool : Pool Q → Together Q → Together Q
  with_pool pool s = record s { pool = pool }

module _ {Q : Type 0} (queue : ConcurrentQueue Q) (n : ℕ) where
  pub data Step (s : Together Q) : Together Q → Type 0 where
    -- A place without a call is for a call on any actor.
    turns :
        (i a : ℕ)
        → (s.calls i).pc ≡ outside
        → Step s (record s { calls = update s.calls i (record { actor = a; pc = outside }) })
    -- Everything but the queues.
    goes_on :
        (i a : ℕ) {m : Block} {p p' : Pc}
        → i < n
        → s.calls i ≡ record { actor = a; pc = p }
        → (mv : Move (s.blocks a) p m p') → ¬ (IsQueueMove mv)
        → Step s (moved s i a m p')
    -- Submit puts the task into a queue: the deque of a worker, or the injection queue.
    submits :
        (i a : ℕ) (self : WorkerIdentity)
        → i < n
        → s.calls i ≡ record { actor = a; pc = pushing }
        → (self.is_worker ≡ true → self.index < s.pool.worker_count)
        → (push_task queue s.pool self a).accepted ≡ true
        → Step s (
            with_pool
              (push_task queue s.pool self a).pool
              (moved s i a (record (s.blocks a) { queued = (s.blocks a).queued + 1 }) outside))
    submit_fails :
        (i a : ℕ) (self : WorkerIdentity)
        → i < n
        → s.calls i ≡ record { actor = a; pc = pushing }
        → (self.is_worker ≡ true → self.index < s.pool.worker_count)
        → (push_task queue s.pool self a).accepted ≡ false
        → Step s (
            with_pool
              (push_task queue s.pool self a).pool
              (moved s i a (record (s.blocks a) { refused = true }) reverting))
    -- A worker that is not joined takes a task out of a queue and calls its Execute.
    works :
        (i index tick a : ℕ) (pool' : Pool Q)
        → i < n
        → (s.calls i).pc ≡ outside
        → index < s.pool.worker_count
        → s.joined ≡ false
        → (next_task queue s.pool index tick ≡ some (a, pool'))
          ⊎ (acquire_anywhere queue s.pool index ≡ some (a, pool'))
        → Step s (
            with_pool pool'
              (moved s i a (record (s.blocks a) { queued = (s.blocks a).queued - 1 }) executing))
    -- StopAndJoin, its store and its join, which waits for every Execute.
    stops_pool : Step s (record s {
      pool = record s.pool { stopping = true };
      blocks = λ a. record (s.blocks a) { pool_stopping = true };
    })
    joins :
        s.pool.stopping ≡ true
        → ((i : ℕ) → i < n → is_executing (s.calls i).pc ≡ 0)
        → Step s (record s { blocks = λ a. record (s.blocks a) { joined = true }; joined = true })
    -- DiscardPending, which has come to its end.
    discards :
        (rounds : ℕ)
        → s.joined ≡ true
        → queue.try_dequeue (discard_pending queue rounds s.pool).injection ≡ none
        → Step s (record s {
          pool = discard_pending queue rounds s.pool;
          blocks = λ a. record (s.blocks a) { queued = 0 };
        })

  -- Before the first call. An actor that Spawn has not made yet is like one on which nobody calls.
  abbrev pub initial : (worker_count : ℕ) → Together Q
  initial worker_count = record {
    pool = empty_pool queue worker_count;
    blocks = λ _. spawned.block;
    calls = λ _. record { actor = 0; pc = outside };
    joined = false;
  }

  pub data Reach (worker_count : ℕ) : Together Q → Type 0 where
    at_start : Reach worker_count (initial worker_count)
    then_step : {s t : Together Q} → Reach worker_count s → Step s t → Reach worker_count t
