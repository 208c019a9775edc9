-- ===== src/Runtime/Config.antt =====
-- The number of workers: SetWorkerCount, WorkerCount and the start of the pool. What
-- std::thread::hardware_concurrency returns is an argument.
use my_utils.Base.{ℕ, ◌≤◌, ◌≡◌, Bool, true, false, not, [], leb, ◌==◌, if◌then◌else◌, arith}
use my_utils.Assert.{Checked, ok, abort, assert, Succeeds, ◌>>=◌, ◌>>◌}
use my_utils.Queue.{ConcurrentQueue}
use my_utils.Runtime.Pool.{Pool}

pub record Config : Type 0 where
  pub desired_worker_count : ℕ  -- GDesiredWorkerCount
  pub started : Bool  -- GStarted

unfoldable pub set_worker_count : Config → ℕ → Checked Config
set_worker_count c count = do
  assert (leb 1 count)
  assert (not c.started)
  ok (record c { desired_worker_count = count })

-- ResolveWorkerCount, which WorkerCount returns.
unfoldable pub resolve_worker_count : (hardware : ℕ) → Config → ℕ
resolve_worker_count hardware c =
    if not (c.desired_worker_count == 0)
    then c.desired_worker_count
    else if hardware == 0
    then 1
    else hardware

unfoldable pub start_worker_count : (hardware : ℕ) → Config → ℕ × Config
unfolding resolve_worker_count
start_worker_count hardware c = (resolve_worker_count hardware c, record c { started = true })

module _ {Q : Type 0} (queue : ConcurrentQueue Q) where
  abbrev pub empty_pool : ℕ → Pool Q
  empty_pool worker_count = record {
    injection = queue.empty;
    local = λ _. [];
    worker_count = worker_count;
    idle_count = 0;
    stopping = false;
  }

  -- WorkerPool::WorkerPool
  pub new_pool : ℕ → Checked (Pool Q)
  new_pool worker_count = do assert (leb 1 worker_count); ok (empty_pool worker_count)

  -- From any configuration the runtime starts without a failed assertion, with at least one
  -- worker and with as many as WorkerCount tells before and after; from then on SetWorkerCount
  -- ends the process.
  pub start_settles_count :
      (hardware count : ℕ) (c : Config)
      → Succeeds (new_pool (start_worker_count hardware c).0) (λ p.
        (1 ≤ p.worker_count)
        × (p.worker_count ≡ resolve_worker_count hardware c)
        × (resolve_worker_count hardware (start_worker_count hardware c).1 ≡ p.worker_count)
        × (set_worker_count (start_worker_count hardware c).1 count ≡ abort))
  unfolding new_pool start_worker_count resolve_worker_count set_worker_count
  start_settles_count hardware count c =
      (empty_pool (resolve_worker_count hardware c), ground arith, ground arith)

-- Before the start, SetWorkerCount with a positive count returns, and the runtime then starts with
-- that count; the last of two settings counts.
pub set_worker_count-start :
    (hardware first count : ℕ) (c : Config)
    → c.started ≡ false
    → 1 ≤ first
    → 1 ≤ count
    → Succeeds
        (do c' ← set_worker_count c first; set_worker_count c' count)
        (λ c'. (start_worker_count hardware c').0 ≡ count)
unfolding set_worker_count start_worker_count resolve_worker_count
set_worker_count-start hardware first count c off a b =
    (record c { desired_worker_count = count }, ground arith, ground arith)
