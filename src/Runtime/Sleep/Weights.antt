-- ===== src/Runtime/Sleep/Weights.antt =====
-- The weights of the threads for one queue, and what every reachable state keeps.
use my_utils.Base.{
  ℕ, ◌+◌, ◌-◌, ◌<◌, ◌≤◌, ◌≡◌, ◌⊎◌, Bool, true, false, not, ◌&&◌, Option, none, some, ltb, leb, ◌==◌,
  if◌then◌else◌, total,
}
use my_utils.Queue.{one_if}
use my_utils.Runtime.Sleep.Defs.{
  Shared, Pc, Threads, looping, polling, executing, pushing, pushed, signalling, notifying, locking,
  entered, counting, checking_own, checking_injection, found, unlocking, woken, relocked, leaving,
  checking, waiting, exited, enqueued, ringing,
}

-- Holds _sleepLock.
abbrev pub holds : Pc → ℕ
holds entered = 1
holds counting = 1
holds checking_own = 1
holds checking_injection = 1
holds (checking _) = 1
holds found = 1
holds unlocking = 1
holds relocked = 1
holds leaving = 1
holds _ = 0

-- Is counted in _idleCount.
abbrev pub idles : Pc → ℕ
idles checking_own = 1
idles checking_injection = 1
idles (checking _) = 1
idles found = 1
idles waiting = 1
idles woken = 1
idles relocked = 1
idles _ = 0

-- Sleeps.
abbrev pub waits : Pc → ℕ
waits waiting = 1
waits _ = 0

-- Can go to sleep before it looks at _stopping again.
abbrev pub checks : Pc → ℕ
checks counting = 1
checks checking_own = 1
checks checking_injection = 1
checks (checking _) = 1
checks _ = 0

-- How many victims worker `i` passes before it comes to deque `j`.
abbrev pub distance : ℕ → ℕ → ℕ → ℕ
distance n i j = if leb i j then j - i else j + n - i

-- A queue: the injection queue, or the deque of a worker.
abbrev pub size : Shared → Option ℕ → ℕ
size m none = m.injection
size m (some j) = m.local j

abbrev pub seen : ℕ → Option ℕ → ℕ → ℕ → Bool
seen n none i offset = true
seen n (some j) i offset = ltb (distance n i j) offset

abbrev pub owns : Option ℕ → ℕ → Bool
owns none i = false
owns (some j) i = i == j

module _ (n : ℕ) (q : Option ℕ) where
  -- Has looked at the queue under the lock and can go to sleep now.
  abbrev pub is_past : ℕ → Pc → ℕ
  is_past i (checking offset) = one_if (not (owns q i) && seen n q i offset)
  is_past i _ = 0

  -- Awake, not the owner, and looks at the queue before it sleeps.
  abbrev pub looks : ℕ → Pc → ℕ
  looks i looping = one_if (not (owns q i))
  looks i polling = one_if (not (owns q i))
  looks i executing = one_if (not (owns q i))
  looks i pushing = one_if (not (owns q i))
  looks i pushed = one_if (not (owns q i))
  looks i signalling = one_if (not (owns q i))
  looks i notifying = one_if (not (owns q i))
  looks i locking = one_if (not (owns q i))
  looks i entered = one_if (not (owns q i))
  looks i counting = one_if (not (owns q i))
  looks i checking_own = one_if (not (owns q i))
  looks i checking_injection = one_if (not (owns q i))
  looks i found = one_if (not (owns q i))
  looks i unlocking = one_if (not (owns q i))
  looks i woken = one_if (not (owns q i))
  looks i relocked = one_if (not (owns q i))
  looks i leaving = one_if (not (owns q i))
  looks i (checking offset) = one_if (not (owns q i) && not (seen n q i offset))
  looks i _ = 0

abbrev pub is_injection : Option ℕ → Bool
is_injection none = true
is_injection (some j) = false

module _ (q : Option ℕ) where
  -- Has put a task into the queue, and has not passed the lock.
  abbrev pub owes : ℕ → Pc → ℕ
  owes i pushed = one_if (owns q i)
  owes i signalling = one_if (owns q i)
  owes i enqueued = one_if (is_injection q)
  owes i _ = 0

  -- The same, and is about to notify.
  abbrev pub signs : ℕ → Pc → ℕ
  signs i notifying = one_if (owns q i)
  signs i ringing = one_if (is_injection q)
  signs i _ = 0

pub record Counts : Type 0 where
  pub holders : ℕ
  pub idlers : ℕ
  pub waiters : ℕ
  pub checkers : ℕ
  pub past : ℕ
  pub lookers : ℕ
  pub owing : ℕ
  pub signing : ℕ

abbrev pub counts : ℕ → Option ℕ → ℕ → (ℕ → Pc) → Counts
counts n q k pc = record {
  holders = total (λ i. holds) k pc;
  idlers = total (λ i. idles) k pc;
  waiters = total (λ i. waits) k pc;
  checkers = total (λ i. checks) k pc;
  past = total (is_past n q) k pc;
  lookers = total (looks n q) k pc;
  owing = total (owes q) k pc;
  signing = total (signs q) k pc;
}

-- What is kept for each queue.
pub record QueueInv (m : Shared) (q : Option ℕ) (c : Counts) : Type 0 where
  pub locked_once : one_if m.locked ≡ c.holders
  pub idle_exact : m.idle_count ≡ c.idlers
  pub stopped_checks : m.stopping ≡ true → c.checkers ≡ 0
  pub past_owed : 0 < size m q → 0 < c.past → 0 < c.owing
  pub covered :
      0 < size m q → 0 < c.waiters → (m.stopping ≡ true) ⊎ (0 < c.owing + (c.signing + c.lookers))

-- What is kept for each thread: who is a worker, how far it has searched, and that a worker that
-- has looked at its own deque under the lock has left it empty.
abbrev pub Placed : ℕ → ℕ → Shared → Pc → Type 0
Placed n i m looping = i < n
Placed n i m polling = i < n
Placed n i m executing = i < n
Placed n i m pushing = i < n
Placed n i m pushed = i < n
Placed n i m signalling = i < n
Placed n i m notifying = i < n
Placed n i m locking = i < n
Placed n i m entered = i < n
Placed n i m counting = i < n
Placed n i m checking_own = i < n
Placed n i m checking_injection = (i < n) × (m.local i ≡ 0)
Placed n i m found = i < n
Placed n i m unlocking = i < n
Placed n i m woken = i < n
Placed n i m relocked = i < n
Placed n i m leaving = i < n
Placed n i m (checking offset) = (i < n) × (m.local i ≡ 0) × (1 ≤ offset) × (offset ≤ n)
Placed n i m waiting = (i < n) × (m.local i ≡ 0)
Placed n i m exited = i < n
Placed n i m _ = Unit {0}

abbrev pub IsQueue : ℕ → Option ℕ → Type 0
IsQueue n none = Unit {0}
IsQueue n (some j) = j < n

pub record Inv (n k : ℕ) (s : Threads) : Type 0 where
  pub queues : (q : Option ℕ) → IsQueue n q → QueueInv s.shared q (counts n q k s.pc)
  pub placed : (i : ℕ) → i < k → Placed n i s.shared (s.pc i)
  pub announced_stops : s.announced ≡ true → s.shared.stopping ≡ true
  pub announced_wakes : s.announced ≡ true → total (λ i. waits) k s.pc ≡ 0
