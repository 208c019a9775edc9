-- ===== src/Actors/Refs/Tests.antt =====
-- A reference from Spawn before and after a Shutdown.
use my_utils.Base.{◌≡◌, inl, refl, true, false, none, some, arith}
use my_utils.Assert.{Checked, ok, abort}
use my_utils.Actors.Registry.{Registry, Body, finalized, finalize, shutdown}
use my_utils.Actors.Shutdown.{IsSettled}
use my_utils.Actors.Tests.{two_actors, last_worker, last_worker-Joins}
use my_utils.Actors.Refs.{ActorRef, spawn, send, stop_ref, spawn-In, refs_end_with_runtime}

abbrev quiet : Registry → Registry
quiet r = r

abbrev get : Checked (Body × ActorRef) → Body × ActorRef
get (ok r) = r
get abort = (two_actors, none)

-- Actor 5 joins the two that are registered.
abbrev three_actors : Body
three_actors = (get (spawn quiet two_actors 5 true)).0

spawned_ref : spawn quiet two_actors 5 true ≡ ok (three_actors, some 5)
unfolding spawn
spawned_ref = refl

null_actor_aborts : spawn quiet two_actors 5 false ≡ abort
unfolding spawn
null_actor_aborts = refl

accepts_before_shutdown : (send three_actors (some 5) (some 8)).1 ≡ true
unfolding send spawn
accepts_before_shutdown = refl

keeps : (r : Registry) → r.blocks 5 ≡ finalized → (last_worker r).blocks 5 ≡ finalized
unfolding finalize
keeps r e = ground (arith, e)

settled : IsSettled three_actors.registry
unfolding spawn
settled c = ground arith

refs_end_with_runtime_example :
    (send (shutdown last_worker three_actors) (some 5) (some 8)
      ≡ (shutdown last_worker three_actors, false))
    × (stop_ref (shutdown last_worker three_actors) (some 5) ≡ shutdown last_worker three_actors)
    × (spawn quiet (shutdown last_worker three_actors) 6 true
        ≡ ok (shutdown last_worker three_actors, none))
unfolding spawn
refs_end_with_runtime_example =
    refs_end_with_runtime last_worker quiet three_actors 5 6 8 last_worker-Joins keeps refl settled
      (inl (spawn-In quiet two_actors three_actors 5 true refl))
