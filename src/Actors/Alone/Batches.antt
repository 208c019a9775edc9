-- ===== src/Actors/Alone/Batches.antt =====
-- What the batches of Execute come to, against a reading of them without a budget.
use my_utils.Base.{
  ℕ, zero, suc, ◌-◌, ◌<◌, ◌≡◌, Bool, true, false, List, [], ◌∷◌, ◌++◌, append_assoc, ◌==◌, length,
  ◌∙◌, arith,
}
use my_utils.Actors.Block.{scheduled, dead, Block, message_budget}
use my_utils.Actors.Alone.{finalize_alone, drain, end_alone, execute_alone}

-- None of the messages makes Handle throw.
abbrev pub NoneThrows : (ℕ → Bool) → List ℕ → Type 0
NoneThrows throws [] = Unit {0}
NoneThrows throws (x ∷ xs) = (throws x ≡ false) × NoneThrows throws xs

module _ (throws : ℕ → Bool) where
  drain_throws :
      (left : ℕ) (handed before after : List ℕ) (x : ℕ)
      → NoneThrows throws before
      → throws x ≡ true
      → length before < left
      → drain throws left handed (before ++ x ∷ after)
        ≡ record { handed = handed ++ (before ++ x ∷ []); rest = after; threw = true }
  unfolding drain
  drain_throws zero handed before after x h t lt = absurd (omega arith)
  drain_throws (suc left) handed [] after x h t lt = simp t
  drain_throws (suc left) handed (y ∷ before) after x h t lt =
      simp h.0 (
        drain_throws left (handed ++ y ∷ []) before after x h.1 t (omega arith) ∙ simp append_assoc)

  -- Where no other call on the actor moves and Handle makes no call on its own actor (no Send or Stop
  -- to itself), and Handle throws of a message within the budget, and of none before it, Execute hands
  -- over the messages up to this one, drops the others and leaves the actor finalized.
  pub execute_alone-throws :
      (m : Block) (before after : List ℕ) (x : ℕ)
      → m.state ≡ scheduled
      → m.finalize_started ≡ false
      → m.mailbox ≡ before ++ x ∷ after
      → NoneThrows throws before
      → throws x ≡ true
      → length before < message_budget
      → execute_alone throws m ≡ record m {
        state = dead;
        finalize_started = true;
        mailbox = [];
        handed = m.handed ++ (before ++ x ∷ []);
        dropped = m.dropped ++ after;
        has_actor = false;
        registered = false;
      }
  unfolding execute_alone end_alone finalize_alone
  execute_alone-throws m before after x e f g h t lt =
      simp (e, g, drain_throws message_budget m.handed before after x h t lt, f)

  -- The worker executes the task as long as it is queued, `rounds` times at most.
  pub serve : (rounds : ℕ) → Block → Block
  serve zero m = m
  serve (suc rounds) m = elim (m.queued == 0) [
    | true ↦ m
    | false ↦ serve rounds (execute_alone throws (record m { queued = m.queued - 1 }))
  ]
