-- ===== src/Actors/System.antt =====
-- One actor after Spawn, any number of activations, and the shutdown of the runtime around them.
use my_utils.Base.{ℕ, ◌<◌, ◌≡◌, true, false, [], update, tally}
use my_utils.Actors.Block.{
  ActorState, Block, Pc, outside, executing, draining, handling, throwing, ending, Move,
}

pub record System : Type 0 where
  pub block : Block
  pub pc : ℕ → Pc

-- The activations that stand in Execute, up to its last compare-exchange.
abbrev pub is_executing : Pc → ℕ
is_executing executing = 1
is_executing (draining _) = 1
is_executing (handling _ _) = 1
is_executing (throwing _) = 1
is_executing ending = 1
is_executing _ = 0

-- At most `n` activations at a time; a place that is done is used again.
pub data Step (n : ℕ) (s : System) : System → Type 0 where
  pick :
      (i : ℕ) {m : Block} {p : Pc}
      → i < n
      → Move s.block (s.pc i) m p
      → Step n s (record { block = m; pc = update s.pc i p })
  -- StopAndJoin, its store and its join, which waits for every Execute; and DiscardPending.
  stops_pool : Step n s (record s { block = record s.block { pool_stopping = true } })
  joins :
      s.block.pool_stopping ≡ true
      → tally is_executing n s.pc ≡ 0
      → Step n s (record s { block = record s.block { joined = true } })
  discards : s.block.joined ≡ true → Step n s (record s { block = record s.block { queued = 0 } })

-- After Spawn: registered, idle, and known to nobody yet.
abbrev pub spawned : System
spawned = record {
  block = record {
    state = ActorState.idle;
    mailbox = [];
    finalize_started = false;
    has_actor = true;
    registered = true;
    queued = 0;
    pool_stopping = false;
    joined = false;
    accepted = [];
    handed = [];
    dropped = [];
    refused = false;
  };
  pc = λ _. outside;
}

pub data Reach (n : ℕ) : System → Type 0 where
  at_spawn : Reach n spawned
  then_step : {s t : System} → Reach n s → Step n s t → Reach n t

-- Any number of steps.
pub data Run (n : ℕ) (s : System) : System → Type 0 where
  no_step : Run n s s
  and_then : {t u : System} → Run n s t → Step n t u → Run n s u
