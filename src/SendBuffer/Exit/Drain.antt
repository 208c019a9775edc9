-- ===== src/SendBuffer/Exit/Drain.antt =====
-- What ~ChunkPool leaves.
use my_utils.Base.{ℕ, zero, suc, ◌≤◌, ◌≡◌, inl, inr, none, some, Option-cases, refl, ap, ◌∙◌, arith}
use my_utils.Queue.{ConcurrentQueue, Shrinks}
use my_utils.SendBuffer.Memory.{Memory, delete_chunk}
use my_utils.SendBuffer.World.{Object}
use my_utils.SendBuffer.Invariant.Defs.{Inv}
use my_utils.SendBuffer.Invariant.Cells.{delete_chunk-Inv}
use my_utils.SendBuffer.Invariant.Acquire.{dequeue-Inv}
use my_utils.SendBuffer.Ledger.{Ledger}
use my_utils.SendBuffer.Ledger.Cells.{dequeue-Ledger, delete_chunk-Ledger}
use my_utils.SendBuffer.Ledger.Refs.{unmarked}
use my_utils.SendBuffer.Exit.{drain_idle}

module _ {Q : Type 0} (queue : ConcurrentQueue Q) where
  drain_idle-miss :
      (rounds : ℕ) (m : Memory Q) → queue.try_dequeue m.idle ≡ none → drain_idle queue rounds m ≡ m
  unfolding drain_idle
  drain_idle-miss zero m miss = refl
  drain_idle-miss (suc rounds) m miss = rw (drain_idle, miss) refl

  drain_idle-hit :
      (rounds c : ℕ) (m : Memory Q) (rest : Q)
      → queue.try_dequeue m.idle ≡ some (c, rest)
      → drain_idle queue (suc rounds) m
        ≡ drain_idle queue rounds (delete_chunk c (record m { idle = rest }))
  unfolding drain_idle
  drain_idle-hit rounds c m rest hit = rw (drain_idle, hit) refl

  -- Enough rounds end the loop.
  pub drain_idle-ends :
      (size : Q → ℕ) (rounds : ℕ) (m : Memory Q)
      → Shrinks queue size
      → size m.idle ≤ rounds
      → queue.try_dequeue (drain_idle queue rounds m).idle ≡ none
  unfolding drain_idle delete_chunk
  drain_idle-ends size zero m shrinks few = elim (Option-cases (queue.try_dequeue m.idle)) [
    | inl miss ↦ miss
    | inr ((c, rest), hit) ↦ absurd (omega (arith, shrinks m.idle rest c hit))
  ]
  drain_idle-ends size (suc rounds) m shrinks few = elim (Option-cases (queue.try_dequeue m.idle)) [
    | inl miss ↦ ap (λ m'. queue.try_dequeue m'.idle) (drain_idle-miss (suc rounds) m miss) ∙ miss
    | inr ((c, rest), hit) ↦
        ap (λ m'. queue.try_dequeue m'.idle) (drain_idle-hit rounds c m rest hit)
        ∙ drain_idle-ends size rounds (delete_chunk c (record m { idle = rest })) shrinks
            (omega (arith, shrinks m.idle rest c hit))
  ]

  pub drain_idle-cells :
      (rounds : ℕ) (m : Memory Q) (d : ℕ)
      → (((drain_idle queue rounds m).cells d).refs ≡ (m.cells d).refs)
        × (((drain_idle queue rounds m).cells d).deleter ≡ (m.cells d).deleter)
  unfolding drain_idle delete_chunk
  drain_idle-cells zero m d = (refl, refl)
  drain_idle-cells (suc rounds) m d = elim (Option-cases (queue.try_dequeue m.idle)) [
    | inl miss ↦ rw (drain_idle-miss (suc rounds) m miss) (refl, refl)
    | inr ((c, rest), hit) ↦
        let (refs, deleter) =
          drain_idle-cells rounds (delete_chunk c (record m { idle = rest })) d in
        rw (drain_idle-hit rounds c m rest hit) (refs ∙ ground arith, deleter ∙ ground arith)
  ]

  module _ {n : ℕ} {objects : ℕ → Object} where
    pub drain_idle-Inv :
        (rounds : ℕ) (m : Memory Q)
        → Inv queue n (λ _. 0) m objects
        → Ledger queue none m
        → Inv queue n (λ _. 0) (drain_idle queue rounds m) objects
          × Ledger queue none (drain_idle queue rounds m)
    unfolding drain_idle
    drain_idle-Inv zero m inv led = (inv, led)
    drain_idle-Inv (suc rounds) m inv led = elim (Option-cases (queue.try_dequeue m.idle)) [
      | inl miss ↦ rw (drain_idle-miss (suc rounds) m miss) (inv, led)
      | inr ((c, rest), hit) ↦
          let (inv', spare, _) = dequeue-Inv inv c rest hit in
          let (led', spare') = dequeue-Ledger led c rest refl hit in
          rw (drain_idle-hit rounds c m rest hit) (
            drain_idle-Inv rounds (delete_chunk c (record m { idle = rest }))
              (delete_chunk-Inv inv' c spare.unheld spare.not_idle)
              (delete_chunk-Ledger led' c spare' (λ d ne. unmarked c d ne)))
    ]
