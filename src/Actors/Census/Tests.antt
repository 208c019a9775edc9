-- ===== src/Actors/Census/Tests.antt =====
-- Two actors are spawned, one is stopped, and the runtime shuts down.
use my_utils.Base.{◌+◌, ◌%◌, ◌^◌, ◌≤◌, ◌≡◌, ◌⊎◌, inl, true, false, [], times, refl, arith}
use my_utils.Actors.Registry.{close_gate, finalize, stop}
use my_utils.Actors.Refs.{new_block}
use my_utils.Runtime.Stats.{zero_stats}
use my_utils.Counters.{remove}
use my_utils.Actors.Census.{
  Census, live_actor_count, census_spawn, census_stop, census_finalize_all, Reach, at_start,
  then_step, spawns, stops, closes_gate, finalizes_all,
}
use my_utils.Actors.Census.Balance.{live_actors_counted}

abbrev empty : Census
empty = record {
  registry = record { accepting = true; members = []; blocks = λ _. new_block };
  stats = zero_stats;
}

abbrev two : Census
two = census_spawn (census_spawn empty 4) 7

abbrev one : Census
one = census_stop two 4

abbrev over : Census
over = census_finalize_all (record one { registry = close_gate one.registry })

two-Reach : Reach two
unfolding census_spawn remove
two-Reach = then_step (then_step at_start (spawns 4 refl)) (spawns 7 refl)

one-Reach : Reach one
unfolding census_spawn remove
one-Reach = then_step two-Reach (stops 4 (inl (omega arith)))

over-Reach : Reach over
over-Reach = then_step (then_step one-Reach closes_gate) finalizes_all

one_actor_is_left : live_actor_count one.registry ≡ 1
unfolding census_spawn census_stop stop finalize remove
one_actor_is_left = refl

all_are_counted : over.stats.finalize_count ≡ 2
unfolding census_spawn census_stop census_finalize_all stop finalize remove
all_are_counted = refl

live_actors_counted_example :
    (over.stats.spawn_count ≡ (over.stats.finalize_count + live_actor_count over.registry) % 2 ^ 64)
    × (times 7 over.registry.members ≤ 1)
    × ((times 7 over.registry.members ≡ 0) ⊎ ((over.registry.blocks 7).finalize_started ≡ false))
live_actors_counted_example = live_actors_counted 7 over-Reach
