-- ===== src/Runtime/Lifecycle.antt =====
-- The process-wide runtime from its first use on: Instance, RuntimeBody, and the calls of the public
-- API that reach it. The worker threads are counted; what they do until the join is `join`.
mod Tests
use my_utils.Base.{
  ℕ, ◌≤◌, ◌≡◌, ◌⊎◌, ◌↔◌, inl, inr, Bool, true, false, not, List, [], ◌∷◌, Option, none, some, leb,
  ◌==◌, if◌then◌else◌, Bool-cases, update, refl, arith,
}
use my_utils.Assert.{
  Checked, Succeeds, Returns, Returns-bind, Returns-apply, ok, abort, assert, ◌>>=◌, ◌>>◌,
}
use my_utils.Actors.Registry.{Registry, Body, shutdown, finalized}
use my_utils.Actors.Shutdown.{Joins, shutdown-accepting}
use my_utils.Counters.{remove}
use my_utils.Actors.Refs.{register_new, new_block, spawn}
use my_utils.Runtime.Config.{Config, set_worker_count, resolve_worker_count, start_worker_count}

-- RuntimeBody, with its pool seen through the number of workers and of threads that run.
pub record Runtime : Type 0 where
  pub body : Body
  pub worker_count : ℕ  -- _pool, WorkerPool::_workerCount
  pub workers : ℕ  -- _pool, WorkerPool::_workers that are not joined

pub record Process : Type 0 where
  pub config : Config
  pub instance_body : Option Runtime  -- the static of Instance

abbrev pub initial_body : Body
initial_body = record {
  shutdown_started = false;
  pool_stopping = false;
  registry = record { accepting = true; members = []; blocks = λ _. new_block };
}

-- RuntimeBody(): StartWorkerCount, the assertion of WorkerPool, and Start.
unfoldable pub start_runtime : (hardware : ℕ) → Config → Checked (Config × Runtime)
unfolding start_worker_count
start_runtime hardware c = do
  let (count, c') = start_worker_count hardware c
  assert (leb 1 count)
  ok (c', record { body = initial_body; worker_count = count; workers = count })

-- Instance
unfoldable pub instance_in : (hardware : ℕ) → Config → Option Runtime → Checked (Config × Runtime)
unfolding start_runtime
instance_in hardware c (some r) = ok (c, r)
instance_in hardware c none = start_runtime hardware c

pub data Call : Type 0 where
  sets_worker_count : (count : ℕ) → Call
  gets_worker_count : Call
  spawns : (c : ℕ) (actor : Bool) → Call
  shuts_down : Call

module _ (hardware : ℕ) (join : Registry → Registry) where
  -- Runtime::Shutdown of a body that is there. The join leaves no worker thread.
  abbrev pub shut_down : Runtime → Runtime
  shut_down r = record r {
    body = shutdown join r.body;
    workers = if r.body.shutdown_started then r.workers else 0;
  }

  unfoldable pub run : Process → Call → Checked Process
  unfolding instance_in set_worker_count shutdown spawn
  run p (sets_worker_count count) = do
    c ← set_worker_count p.config count
    ok (record p { config = c })
  run p gets_worker_count = ok p
  run p (spawns c actor) = do
    assert actor
    (config', r) ← instance_in hardware p.config p.instance_body
    (body', ref) ← spawn (λ registry. registry) r.body c actor
    ok (record { config = config'; instance_body = some (record r { body = body' }) })
  run p shuts_down = do
    (config', r) ← instance_in hardware p.config p.instance_body
    ok (record { config = config'; instance_body = some (shut_down r) })

  -- What every process keeps.
  abbrev pub IsConsistent : Config → Option Runtime → Type 0
  IsConsistent c none = c.started ≡ false
  IsConsistent c (some r) =
      (c.started ≡ true)
      × (1 ≤ r.worker_count)
      × (r.worker_count ≡ resolve_worker_count hardware c)
      × (r.workers ≡ (if r.body.shutdown_started then 0 else r.worker_count))
      × (r.body.registry.accepting ≡ not r.body.shutdown_started)
      × (r.body.pool_stopping ≡ r.body.shutdown_started)

  pub data Reach : Process → Type 0 where
    at_start : Reach (record {
      config = record { desired_worker_count = 0; started = false };
      instance_body = none;
    })
    then_call : {p p' : Process} → Reach p → (call : Call) → run p call ≡ ok p' → Reach p'

  resolve-pos : (c : Config) → 1 ≤ resolve_worker_count hardware c
  unfolding resolve_worker_count
  resolve-pos c = ground arith

  abbrev started_runtime : Config → Runtime
  started_runtime c = record {
    body = initial_body;
    worker_count = resolve_worker_count hardware c;
    workers = resolve_worker_count hardware c;
  }

  -- The assertion of WorkerPool holds for every configuration.
  start_runtime_lem :
      (c : Config) → start_runtime hardware c ≡ ok (record c { started = true }, started_runtime c)
  unfolding start_runtime start_worker_count
  start_runtime_lem c = ground (arith, resolve-pos c)

  instance_in-IsConsistent :
      (c : Config) (o : Option Runtime)
      → IsConsistent c o
      → Succeeds (instance_in hardware c o) (λ r. IsConsistent r.0 (some r.1))
  unfolding instance_in resolve_worker_count
  instance_in-IsConsistent c (some r) here = ((c, r), refl, here)
  instance_in-IsConsistent c none here = (
    (record c { started = true }, started_runtime c),
    start_runtime_lem c,
    (refl, resolve-pos c, refl, refl, refl, refl),
  )

  spawn-IsConsistent :
      (conf : Config) (r : Runtime) (c : ℕ)
      → IsConsistent conf (some r)
      → Succeeds
          (spawn (λ registry. registry) r.body c true)
          (λ x. IsConsistent conf (some (record r { body = x.0 })))
  unfolding spawn
  spawn-IsConsistent conf r c here = elim (Bool-cases r.body.registry.accepting) [
    | inl gate ↦ (
      (
        record r.body {
          registry = record r.body.registry {
            members = c ∷ remove c r.body.registry.members;
            blocks = update r.body.registry.blocks c new_block;
          };
        },
        some c,
      ),
      rw (gate, register_new) refl,
      here,
    )
    | inr closed ↦ ((r.body, none), rw closed refl, here)
  ]

  shut_down-IsConsistent :
      (conf : Config) (r : Runtime)
      → Joins join
      → IsConsistent conf (some r)
      → IsConsistent conf (some (shut_down r))
  unfolding shutdown
  shut_down-IsConsistent conf r joins here = elim (Bool-cases r.body.shutdown_started) [
    | inl again ↦ rw again (ground (arith, here))
    | inr first ↦ ground (arith, first, here, shutdown-accepting join r.body joins first)
  ]

  set_worker_count-IsConsistent :
      (c : Config) (o : Option Runtime) (count : ℕ)
      → IsConsistent c o
      → Returns (set_worker_count c count) (λ c'. IsConsistent c' o)
  unfolding set_worker_count
  set_worker_count-IsConsistent c o count here = elim (Bool-cases (leb 1 count)) [
    | inr nobody ↦ rw nobody tt
    | inl good ↦ rw good (before_start o here)
  ]
    where
      before_start :
          (o : Option Runtime)
          → IsConsistent c o
          → Returns
              (do assert (not c.started); ok (record c { desired_worker_count = count }))
              (λ c'. IsConsistent c' o)
      before_start (some r) here = rw here.0 tt
      before_start none here = rw here refl

  run-IsConsistent :
      (p : Process) (call : Call)
      → Joins join
      → IsConsistent p.config p.instance_body
      → Returns (run p call) (λ p'. IsConsistent p'.config p'.instance_body)
  unfolding run
  run-IsConsistent p (sets_worker_count count) joins here =
      Returns-bind (λ c. IsConsistent c p.instance_body) _ (set_worker_count p.config count) _
        (set_worker_count-IsConsistent p.config p.instance_body count here) (λ c h. h)
  run-IsConsistent p gets_worker_count joins here = here
  run-IsConsistent p (spawns c false) joins here = tt
  run-IsConsistent p (spawns c true) joins here =
      let ((conf, r), started, there) = instance_in-IsConsistent p.config p.instance_body here in
      let ((b, ref), spawned, kept) = spawn-IsConsistent conf r c there in
      rw (started, spawned) kept
  run-IsConsistent p shuts_down joins here =
      let ((conf, r), started, there) = instance_in-IsConsistent p.config p.instance_body here in
      rw started (shut_down-IsConsistent conf r joins there)

  Reach-IsConsistent : {p : Process} → Joins join → Reach p → IsConsistent p.config p.instance_body
  Reach-IsConsistent joins at_start = refl
  Reach-IsConsistent joins (then_call {p} r call ran) =
      Returns-apply (λ p'. IsConsistent p'.config p'.instance_body)
        (run-IsConsistent p call joins (Reach-IsConsistent joins r)) ran

  -- The calls that the documentation forbids: SetWorkerCount of 0 or after the start, and Spawn of a
  -- null actor.
  abbrev pub IsMisuse : Process → Call → Type 0
  IsMisuse p (sets_worker_count count) = (count ≡ 0) ⊎ (p.config.started ≡ true)
  IsMisuse p (spawns c actor) = actor ≡ false
  IsMisuse p _ = ⊥

  call_aborts :
      (p : Process) (call : Call)
      → IsConsistent p.config p.instance_body
      → (run p call ≡ abort → IsMisuse p call) × (IsMisuse p call → run p call ≡ abort)
  unfolding run set_worker_count
  call_aborts p (sets_worker_count count) here = (λ e. ground (arith, e), λ m. ground (arith, m))
  call_aborts p gets_worker_count here = (λ e. cc, λ m. absurd m)
  call_aborts p (spawns c false) here = (λ e. refl, λ m. refl)
  call_aborts p (spawns c true) here =
      let ((conf, r), started, there) = instance_in-IsConsistent p.config p.instance_body here in
      let ((b, ref), spawned, kept) = spawn-IsConsistent conf r c there in
      (λ e. cc (started, spawned, e), λ m. cc m)
  call_aborts p shuts_down here =
      let ((conf, r), started, there) = instance_in-IsConsistent p.config p.instance_body here in
      (λ e. cc (started, e), λ m. absurd m)

  -- Whatever calls a program has made, in whatever order, where the workers leave the gate of the
  -- registry as it is: GStarted tells whether the runtime is there; it then has at least one worker
  -- and as many as WorkerCount tells, a thread for each until Shutdown and none after it, and takes
  -- new actors and tasks exactly until Shutdown. The next call ends the process exactly where it is
  -- SetWorkerCount of 0 or after the start, or Spawn of a null actor.
  pub runtime_follows_calls :
      (p : Process)
      → Joins join
      → Reach p
      → IsConsistent p.config p.instance_body
        × ((call : Call)
            → (run p call ≡ abort → IsMisuse p call) × (IsMisuse p call → run p call ≡ abort))
  runtime_follows_calls p joins reached =
      let inv = Reach-IsConsistent joins reached in (inv, λ call. call_aborts p call inv)
