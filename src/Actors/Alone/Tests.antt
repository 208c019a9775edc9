-- ===== src/Actors/Alone/Tests.antt =====
-- An actor with three messages in a pool that runs.
use my_utils.Base.{ℕ, ◌≡◌, Bool, true, false, [], ◌∷◌, ◌==◌, refl, arith}
use my_utils.Actors.Block.{scheduled, dead, Block, executing, outside}
use my_utils.Actors.Alone.{execute_alone}
use my_utils.Actors.Alone.Runs.{Chain, execute_alone-Chain}
use my_utils.Actors.Alone.Batches.{execute_alone-throws}

abbrev three_waiting : Block
three_waiting = record {
  state = scheduled;
  mailbox = 4 ∷ 5 ∷ 6 ∷ [];
  finalize_started = false;
  has_actor = true;
  registered = true;
  queued = 1;
  pool_stopping = false;
  joined = false;
  accepted = 4 ∷ 5 ∷ 6 ∷ [];
  handed = [];
  dropped = [];
  refused = false;
}

abbrev never : ℕ → Bool
never x = false

abbrev at_five : ℕ → Bool
at_five x = x == 5

execute_alone-Chain_example :
    Chain three_waiting executing (execute_alone at_five three_waiting) outside
execute_alone-Chain_example = execute_alone-Chain at_five three_waiting

execute_alone-throws_example : execute_alone at_five three_waiting ≡ record three_waiting {
  state = dead;
  finalize_started = true;
  mailbox = [];
  handed = 4 ∷ 5 ∷ [];
  dropped = 6 ∷ [];
  has_actor = false;
  registered = false;
}
execute_alone-throws_example =
    execute_alone-throws at_five three_waiting (4 ∷ []) (6 ∷ []) 5 refl refl refl (refl, tt) refl
      (omega arith)
