-- ===== src/Runtime/Statics/Tests.antt =====
-- A process that starts the runtime, uses the send buffers afterwards and exits without Shutdown.
use my_utils.Base.{◌≡◌, true, false, [], ◌∷◌, inl, inr, refl, arith, times}
use my_utils.Runtime.Statics.{
  body, runtime_stats_registry, buffer_stats_registry, global_pool_ref, touch, touch_stats_globals,
  instance_static, Statics, Reach, at_start, then_step, Run, no_step, and_then, uses, starts, exits,
  destroys,
}
use my_utils.Runtime.Statics.Order.{counters_outlive_workers, earlier_statics_outlive_workers}

abbrev begun : Statics
begun = record { alive = []; destroyed = []; workers = false; exiting = false }

-- Reserve on the main thread, before anything else.
abbrev with_pool : Statics
with_pool = record begun { alive = global_pool_ref ∷ [] }

abbrev started : Statics
started = record begun { alive = body ∷ 2 ∷ 1 ∷ 0 ∷ global_pool_ref ∷ []; workers = true }

-- A handler uses the send buffers for the first time.
abbrev handled : Statics
handled = record started { alive = buffer_stats_registry ∷ started.alive }

abbrev at_exit : Statics
at_exit = record started { destroyed = buffer_stats_registry ∷ []; exiting = true }

with_pool-Reach : Reach with_pool
unfolding touch
with_pool-Reach = then_step at_start (uses global_pool_ref (omega arith) refl)

late_exit : Run with_pool at_exit
unfolding touch instance_static touch_stats_globals
late_exit =
    and_then
      (and_then
        (and_then (and_then no_step (starts refl)) (uses buffer_stats_registry (omega arith) refl))
        exits)
      (destroys buffer_stats_registry started.alive refl refl)

at_exit-Reach : Reach at_exit
unfolding touch instance_static touch_stats_globals
at_exit-Reach =
    then_step
      (then_step
        (then_step (then_step with_pool-Reach (starts refl))
          (uses buffer_stats_registry (omega arith) refl))
        exits)
      (destroys buffer_stats_registry started.alive refl refl)

counters_outlive_workers_example :
    (times runtime_stats_registry at_exit.alive ≡ 1)
    × (times runtime_stats_registry at_exit.destroyed ≡ 0)
    × (times body at_exit.alive ≡ 1)
counters_outlive_workers_example =
    counters_outlive_workers runtime_stats_registry at_exit-Reach refl (inr (inl refl))

earlier_statics_outlive_workers_example :
    (times global_pool_ref at_exit.alive ≡ 1) × (times global_pool_ref at_exit.destroyed ≡ 0)
earlier_statics_outlive_workers_example =
    earlier_statics_outlive_workers global_pool_ref with_pool-Reach refl refl late_exit refl
