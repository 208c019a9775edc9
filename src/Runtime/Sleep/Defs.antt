-- ===== src/Runtime/Sleep/Defs.antt =====
-- What the threads share, where a thread stands, and one step of one thread.
use my_utils.Base.{
  ℕ, ◌+◌, ◌-◌, ◌%◌, ◌<◌, ◌≤◌, ◌≡◌, ◌≢◌, ◌⊎◌, Bool, true, false, update, add64, sub64, ltb,
  if◌then◌else◌,
}

pub record Shared : Type 0 where
  pub injection : ℕ  -- tasks in _injection
  pub local : ℕ → ℕ  -- tasks in each deque of _local
  pub idle_count : ℕ  -- _idleCount
  pub locked : Bool  -- _sleepLock is held
  pub stopping : Bool  -- _stopping

pub data Pc : Type 0 where
  -- A worker.
  looping : Pc  -- the head of the loop
  polling : Pc  -- NextTask
  executing : Pc  -- Execute
  pushing : Pc  -- Submit in a task, after its test of _stopping
  pushed : Pc  -- before it reads _idleCount
  signalling : Pc  -- before its empty section
  notifying : Pc  -- before its notify_one
  locking : Pc  -- before the lock of _sleepLock
  entered : Pc  -- before the test of _stopping under the lock
  counting : Pc  -- before fetch_add
  checking_own : Pc  -- AcquireAnywhere, PopLocal
  checking_injection : Pc  -- AcquireAnywhere, try_dequeue
  checking : (offset : ℕ) → Pc  -- AcquireAnywhere, the loop of TrySteal
  found : Pc  -- before fetch_sub
  unlocking : Pc  -- before unlock
  waiting : Pc  -- in wait
  woken : Pc  -- in wait, before it takes the lock again
  relocked : Pc  -- before fetch_sub
  leaving : Pc  -- before the lock is let go at the end of the round
  exited : Pc
  -- Any other thread.
  outside : Pc
  offering : Pc  -- Submit, after its test of _stopping
  enqueued : Pc  -- before its empty section
  ringing : Pc  -- before its notify_one

-- One step of thread `i`, with `n` workers. NextTask is one step, which takes any task or gives up
-- whatever the queues hold, since they can fill behind its search. A try_dequeue that fails under
-- the sleep lock is taken to have seen an empty queue.
pub data Move (n i : ℕ) (m : Shared) : Pc → Shared → Pc → Type 0 where
  starts : m.stopping ≡ false → Move n i m looping m polling
  leaves : m.stopping ≡ true → Move n i m looping m exited
  polls_injection :
      0 < m.injection → Move n i m polling (record m { injection = m.injection - 1 }) executing
  polls_deque :
      (j : ℕ)
      → j < n
      → 0 < m.local j
      → Move n i m polling (record m { local = update m.local j (m.local j - 1) }) executing
  gives_up : Move n i m polling m locking
  finishes : Move n i m executing m looping
  submits : m.stopping ≡ false → Move n i m executing m pushing
  pushes : Move n i m pushing (record m { local = update m.local i (m.local i + 1) }) pushed
  skips_notify : m.idle_count ≡ 0 → Move n i m pushed m executing
  signals : m.idle_count ≢ 0 → Move n i m pushed m signalling
  passes : m.locked ≡ false → Move n i m signalling m notifying
  enters : m.locked ≡ false → Move n i m locking (record m { locked = true }) entered
  exits : m.stopping ≡ true → Move n i m entered (record m { locked = false }) exited
  stays : m.stopping ≡ false → Move n i m entered m counting
  counts_in : Move n i m counting (record m { idle_count = add64 m.idle_count 1 }) checking_own
  own_empty : m.local i ≡ 0 → Move n i m checking_own m checking_injection
  own_taken :
      0 < m.local i
      → Move n i m checking_own (record m { local = update m.local i (m.local i - 1) }) found
  injection_empty : m.injection ≡ 0 → Move n i m checking_injection m (checking 1)
  injection_taken :
      0 < m.injection
      → Move n i m checking_injection (record m { injection = m.injection - 1 }) found
  victim_empty :
      {offset : ℕ}
      → offset < n
      → m.local (add64 i offset % n) ≡ 0
      → Move n i m (checking offset) m (checking (offset + 1))
  victim_taken :
      {offset : ℕ} (victim : ℕ)
      → offset < n
      → victim ≡ add64 i offset % n
      → 0 < m.local victim
      → Move n i m
          (checking offset)
          (record m { local = update m.local victim (m.local victim - 1) })
          found
  sleeps :
      {offset : ℕ} → n ≤ offset → Move n i m (checking offset) (record m { locked = false }) waiting
  counts_out : Move n i m found (record m { idle_count = sub64 m.idle_count 1 }) unlocking
  unlocks : Move n i m unlocking (record m { locked = false }) executing
  wakes_spuriously : Move n i m waiting m woken
  relocks : m.locked ≡ false → Move n i m woken (record m { locked = true }) relocked
  counts_back : Move n i m relocked (record m { idle_count = sub64 m.idle_count 1 }) leaving
  resumes : Move n i m leaving (record m { locked = false }) looping
  offers : m.stopping ≡ false → Move n i m outside m offering
  enqueues : Move n i m offering (record m { injection = m.injection + 1 }) enqueued
  enqueue_fails : Move n i m offering m outside
  rings : m.locked ≡ false → Move n i m enqueued m ringing

-- The threads, and whether StopAndJoin is past its notify_all.
pub record Threads : Type 0 where
  pub shared : Shared
  pub pc : ℕ → Pc
  pub announced : Bool

-- What a notify does to a thread.
abbrev pub wake : Pc → Pc
wake waiting = woken
wake p = p

-- Where a thread goes on after its notify_one.
abbrev pub notified : Pc → Pc
notified notifying = executing
notified _ = outside

abbrev pub IsNotifier : Pc → Type 0
IsNotifier p = (p ≡ notifying) ⊎ (p ≡ ringing)

-- A step of `n` workers and others, `k` threads in all. notify_one wakes one waiting thread where
-- there is one.
pub data Step (n k : ℕ) (s : Threads) : Threads → Type 0 where
  moves :
      (i : ℕ) {m : Shared} {p : Pc}
      → i < k
      → Move n i s.shared (s.pc i) m p
      → Step n k s (record s { shared = m; pc = update s.pc i p })
  notifies_one :
      (i x : ℕ)
      → i < k
      → x < k
      → IsNotifier (s.pc i)
      → s.pc x ≡ waiting
      → Step n k s (record s { pc = update (update s.pc x woken) i (notified (s.pc i)) })
  notifies_none :
      (i : ℕ)
      → i < k
      → IsNotifier (s.pc i)
      → ((x : ℕ) → x < k → s.pc x ≢ waiting)
      → Step n k s (record s { pc = update s.pc i (notified (s.pc i)) })
  stops :
      s.shared.locked ≡ false
      → Step n k s (record s { shared = record s.shared { stopping = true } })
  notifies_all :
      s.shared.stopping ≡ true → Step n k s (record s { pc = λ i. wake (s.pc i); announced = true })

-- The workers start at the head of their loops.
abbrev pub started : ℕ → Threads
started n = record {
  shared = record {
    injection = 0;
    local = λ _. 0;
    idle_count = 0;
    locked = false;
    stopping = false;
  };
  pc = λ i. if ltb i n then looping else outside;
  announced = false;
}

pub data Reach (n k : ℕ) : Threads → Type 0 where
  at_start : Reach n k (started n)
  then_step : {s t : Threads} → Reach n k s → Step n k s t → Reach n k t
