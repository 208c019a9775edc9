-- ===== src/Actors/Registry.antt =====
-- ActorRegistry and RuntimeBody::Shutdown. From the join of the workers on, the calls run one
-- after the other, each to its end; Stop and Finalize are here whole calls on an actor.
use my_utils.Base.{ℕ, Bool, true, false, List, [], ◌∷◌, if◌then◌else◌, update}
use my_utils.Counters.{remove}
use my_utils.Actors.Block.{ActorState, idle, scheduled, running, stopping, dead}

pub record Acb : Type 0 where
  pub state : ActorState  -- _state
  pub finalize_started : Bool  -- _finalizeStarted
  pub mailbox : List ℕ  -- _mailbox
  pub has_actor : Bool  -- _actor is not null

-- What Finalize leaves.
abbrev pub finalized : Acb
finalized = record { state = dead; finalize_started = true; mailbox = []; has_actor = false }

pub record Registry : Type 0 where
  pub accepting : Bool  -- _accepting
  pub members : List ℕ  -- _registry
  pub blocks : ℕ → Acb  -- the control blocks, by name

-- ActorRegistry::TryRegister
abbrev pub try_register : Registry → ℕ → Registry × Bool
try_register r c =
    if r.accepting then (record r { members = c ∷ remove c r.members }, true) else (r, false)

-- ActorRegistry::CloseGate
abbrev pub close_gate : Registry → Registry
close_gate r = record r { accepting = false }

-- ActorControlBlock::Finalize, with the call of Unregister.
unfoldable pub finalize : Registry → ℕ → Registry
finalize r c =
    if (r.blocks c).finalize_started
    then r
    else record r { members = remove c r.members; blocks = update r.blocks c finalized }

abbrev set_stopping : Registry → ℕ → Registry
set_stopping r c = record r {
  blocks = update r.blocks c (record (r.blocks c) { state = stopping });
}

-- ActorControlBlock::Stop
unfoldable pub stop : Registry → ℕ → Registry
unfolding finalize
stop r c = elim (r.blocks c).state [
  | idle ↦ finalize (set_stopping r c) c
  | scheduled ↦ set_stopping r c
  | running ↦ set_stopping r c
  | stopping ↦ r
  | dead ↦ r
]

-- The loop of FinalizeAll over its snapshot.
unfoldable pub finalize_each : List ℕ → Registry → Registry
unfolding finalize stop
finalize_each [] r = r
finalize_each (c ∷ cs) r = finalize_each cs (finalize (stop r c) c)

-- ActorRegistry::FinalizeAll
unfoldable pub finalize_all : Registry → Registry
unfolding finalize_each
finalize_all r = record (finalize_each r.members r) { members = [] }

pub record Body : Type 0 where
  pub shutdown_started : Bool  -- _shutdownStarted
  pub pool_stopping : Bool  -- _pool, WorkerPool::_stopping
  pub registry : Registry  -- _registry

-- RuntimeBody::Shutdown. `join` is what the workers and other threads still do to the actors until
-- StopAndJoin returns; from there on nobody else moves: a thread that is no worker and still inside a
-- Stop would let the Stop and the Finalize of FinalizeAll return before its own Finalize is done. The
-- tasks that DiscardPending drops are not part of this state.
unfoldable pub shutdown : (join : Registry → Registry) → Body → Body
unfolding finalize_all
shutdown join b = if b.shutdown_started then b else record {
  shutdown_started = true;
  pool_stopping = true;
  registry = finalize_all (join (close_gate b.registry));
}
