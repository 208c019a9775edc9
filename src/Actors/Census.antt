-- ===== src/Actors/Census.antt =====
-- What Spawn, Stop, Finalize and FinalizeAll count, and LiveActorCount. A call is taken whole, as in
-- Actors/Registry.antt.
pub mod Balance
mod Tests
use my_utils.Base.{
  ℕ, ◌≤◌, ◌≡◌, ◌⊎◌, Bool, true, false, List, [], ◌∷◌, if◌then◌else◌, add64, update, length, times,
}
use my_utils.Actors.Block.{idle, scheduled, running, stopping, dead}
use my_utils.Actors.Registry.{Registry, try_register, close_gate, finalize, stop}
use my_utils.Actors.Refs.{new_block}
use my_utils.Actors.Counting.{count_finalize}
use my_utils.Runtime.Stats.{Stats, zero_stats}

-- The registry, with the counters of all threads.
pub record Census : Type 0 where
  pub registry : Registry
  pub stats : Stats

-- ActorRegistry::LiveActorCount
abbrev pub live_actor_count : Registry → ℕ
live_actor_count r = length r.members

-- Spawn, after TryRegister.
abbrev pub count_spawn : Bool → Stats → Stats
count_spawn registered s =
    if registered then record s { spawn_count = add64 s.spawn_count 1 } else s

-- Spawn, from the construction of the control block on.
abbrev pub census_register : Census → ℕ → Census
census_register e c =
    let made = record e.registry { blocks = update e.registry.blocks c new_block } in
    let (registry', registered) = try_register made c in
    record { registry = registry'; stats = count_spawn registered e.stats }

-- Spawn, where the runtime is there already.
unfoldable pub census_spawn : Census → ℕ → Census
census_spawn e c = if e.registry.accepting then census_register e c else e

-- ActorControlBlock::Finalize
unfoldable pub census_finalize : Census → ℕ → Census
unfolding finalize
census_finalize e c = record {
  registry = finalize e.registry c;
  stats = if (e.registry.blocks c).finalize_started then e.stats else count_finalize e.stats;
}

-- ActorControlBlock::Stop, which calls Finalize where the actor is idle.
unfoldable pub census_stop : Census → ℕ → Census
unfolding stop
census_stop e c =
    let finalizes : Bool = elim (e.registry.blocks c).state [ idle ↦ true | _ ↦ false ] in
    let counted : Stats =
      if (e.registry.blocks c).finalize_started then e.stats else count_finalize e.stats in
    record { registry = stop e.registry c; stats = if finalizes then counted else e.stats }

-- The loop of FinalizeAll.
unfoldable pub census_finalize_each : List ℕ → Census → Census
unfolding census_finalize census_stop
census_finalize_each [] e = e
census_finalize_each (c ∷ cs) e = census_finalize_each cs (census_finalize (census_stop e c) c)

-- ActorRegistry::FinalizeAll
unfoldable pub census_finalize_all : Census → Census
unfolding census_finalize_each
census_finalize_all e =
    let e' = census_finalize_each e.registry.members e in
    record e' { registry = record e'.registry { members = [] } }

-- The control block exists: it is registered, or it went through Finalize.
abbrev pub IsMade : Registry → ℕ → Type 0
IsMade r c = (1 ≤ times c r.members) ⊎ ((r.blocks c).finalize_started ≡ true)

pub data Step (e : Census) : Census → Type 0 where
  spawns : (c : ℕ) → times c e.registry.members ≡ 0 → Step e (census_spawn e c)
  stops : (c : ℕ) → IsMade e.registry c → Step e (census_stop e c)
  finalizes : (c : ℕ) → IsMade e.registry c → Step e (census_finalize e c)
  closes_gate : Step e (record e { registry = close_gate e.registry })
  finalizes_all : Step e (census_finalize_all e)

pub data Reach : Census → Type 0 where
  at_start : Reach (record {
    registry = record { accepting = true; members = []; blocks = λ _. new_block };
    stats = zero_stats;
  })
  then_step : {e e' : Census} → Reach e → Step e e' → Reach e'
