-- ===== src/Runtime/Lifecycle/Tests.antt =====
-- A program that asks for three workers, spawns an actor and shuts down.
use my_utils.Base.{◌≡◌, refl, inl, true, false, none}
use my_utils.Assert.{Checked, ok, abort}
use my_utils.Actors.Registry.{Registry, shutdown}
use my_utils.Actors.Refs.{spawn}
use my_utils.Actors.Shutdown.{Joins}
use my_utils.Runtime.Config.{set_worker_count, start_worker_count}
use my_utils.Runtime.Lifecycle.{
  Process, Call, sets_worker_count, spawns, shuts_down, run, IsConsistent, IsMisuse, Reach,
  at_start, then_call, runtime_follows_calls,
}

abbrev idle_workers : Registry → Registry
idle_workers r = r

idle_workers-Joins : Joins idle_workers
idle_workers-Joins = record {
  keeps_gate = λ r. refl;
  settles = λ r h. h;
  keeps_members = λ r c h. inl h;
}

abbrev untouched : Process
untouched = record {
  config = record { desired_worker_count = 0; started = false };
  instance_body = none;
}

abbrev get : Checked Process → Process
get (ok p) = p
get abort = untouched

unfoldable run_all : Process → Call → Checked Process
unfolding run set_worker_count start_worker_count spawn shutdown
run_all = run 8 idle_workers

abbrev three_workers : Process
three_workers = get (run_all untouched (sets_worker_count 3))

abbrev with_actor : Process
with_actor = get (run_all three_workers (spawns 5 true))

abbrev ended : Process
ended = get (run_all with_actor shuts_down)

ended-Reach : Reach 8 idle_workers ended
unfolding run_all
ended-Reach =
    then_call (then_call (then_call at_start (sets_worker_count 3) refl) (spawns 5 true) refl)
      shuts_down refl

runtime_follows_calls_example :
    IsConsistent 8 idle_workers ended.config ended.instance_body
    × ((call : Call)
        → (run 8 idle_workers ended call ≡ abort → IsMisuse 8 idle_workers ended call)
          × (IsMisuse 8 idle_workers ended call → run 8 idle_workers ended call ≡ abort))
runtime_follows_calls_example =
    runtime_follows_calls 8 idle_workers ended idle_workers-Joins ended-Reach
