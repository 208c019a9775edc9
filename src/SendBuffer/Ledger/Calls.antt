-- ===== src/SendBuffer/Ledger/Calls.antt =====
-- The ledger through the calls of the API.
use my_utils.Base.{
  ℕ, ◌^◌, ◌<◌, ◌≡◌, ◌≢◌, refl, inl, inr, Bool, true, false, Option, none, some, arith, ◌==◌, leb,
  ltb, ◌||◌, add64, subst, Bool-cases, Option-cases,
}
use my_utils.Assert.{Returns, Returns-bind, Returns-assert}
use my_utils.Queue.{ConcurrentQueue}
use my_utils.SendBuffer.Constants.{max_send_buffer_size, large_allocation_threshold}
use my_utils.SendBuffer.Memory.{
  Memory, plain, with_chunk, new_chunk, own, add_ref, bump_at, rewind_at, release_ref, acquire,
}
use my_utils.SendBuffer.Buffer.{
  Caller, SendBuffer, is_valid, is_some, same_chunk, rewind_if_tail, try_rewind, destroy_buffer,
  assign_buffer, commit,
}
use my_utils.SendBuffer.Manager.{reserve_solo, replace_chunk, reserve_small, reserve}
use my_utils.SendBuffer.Calls.Runs.{reserve_small-none}
use my_utils.SendBuffer.Ledger.{Ledger}
use my_utils.SendBuffer.Ledger.Refs.{
  IsHeld, IsHeld-same, add_ref-Ledger, bump_at-Ledger, rewind_at-Ledger, release_ref-Ledger,
  new_chunk-Ledger,
}
use my_utils.SendBuffer.Ledger.Taking.{Taken, release_ref-refs, bump_at-refs, acquire-Taken}

module _ {Q : Type 0} {queue : ConcurrentQueue Q} (e : Caller Q)
    (led : Ledger queue none e.memory) where
  abbrev Rewound : Caller Q → Type 0
  Rewound e' =
      Ledger queue none e'.memory × ((c : ℕ) → (e'.memory.cells c).refs ≡ (e.memory.cells c).refs)

  rewind_if_tail-Ledger :
      (b : SendBuffer) (used c : ℕ)
      → 0 < (e.memory.cells c).refs
      → Returns (rewind_if_tail e b used c) Rewound
  unfolding rewind_if_tail
  rewind_if_tail-Ledger b used c held = elim (Bool-cases (same_chunk e.current (some c))) [
    | inr other ↦ rw other (led, λ d. refl)
    | inl here ↦ elim (Bool-cases ((e.memory.cells c).chunk.offset == add64 b.offset b.capacity)) [
      | inr inner ↦ rw (here, inner) (led, λ d. refl)
      | inl tail ↦
          rw (here, tail)
            (Returns-bind _ Rewound (rewind_at e.memory c (add64 b.offset used)) _
              (rewind_at-Ledger led c (add64 b.offset used) held) (λ m h. h))
    ]
  ]

  try_rewind-Ledger :
      (b : SendBuffer) (used : ℕ) → IsHeld e.memory b.chunk → Returns (try_rewind e b used) Rewound
  unfolding try_rewind
  try_rewind-Ledger b used held = elim (Option-cases b.chunk) [
    | inl no_chunk ↦ rw no_chunk (led, λ d. refl)
    | inr (c, chunk) ↦
        rw chunk (rewind_if_tail-Ledger b used c (subst (IsHeld e.memory) chunk held))
  ]

  pub destroy_buffer-Ledger :
      (b : SendBuffer)
      → IsHeld e.memory b.chunk
      → Returns (destroy_buffer queue e b) (λ e'. Ledger queue none e'.memory)
  unfolding destroy_buffer
  destroy_buffer-Ledger b held =
      Returns-bind Rewound _ (try_rewind e b 0) _ (try_rewind-Ledger b 0 held) (λ e' (led', same).
        release_ref-Ledger led' b.chunk (IsHeld-same e.memory e'.memory b.chunk held same))

  pub assign_buffer-Ledger :
      (same : Bool) (this other : SendBuffer)
      → IsHeld e.memory this.chunk
      → Returns (assign_buffer queue e same this other) (λ r. Ledger queue none r.0.memory)
  unfolding assign_buffer
  assign_buffer-Ledger true this other held = led
  assign_buffer-Ledger false this other held =
      Returns-bind Rewound _ (try_rewind e this 0) _ (try_rewind-Ledger this 0 held)
        (λ e' (led', same).
          release_ref-Ledger led' this.chunk (IsHeld-same e.memory e'.memory this.chunk held same))

  pub commit-Ledger :
      (b : SendBuffer) (size : ℕ)
      → IsHeld e.memory b.chunk
      → Returns (commit queue e b size) (λ r. Ledger queue none r.0.memory)
  unfolding commit
  commit-Ledger b size held = Returns-assert _ (is_valid b) _ (
      Returns-assert _ (leb size b.capacity) _ (
        Returns-bind Rewound _ (try_rewind e b size) _ (try_rewind-Ledger b size held)
          (λ e' (led', same). led')))

module _ {Q : Type 0} {queue : ConcurrentQueue Q} (e : Caller Q) (led : Ledger queue none e.memory)
    (capacity : ℕ) where
  reserve_solo-Ledger :
      capacity < 2 ^ 64 → Returns (reserve_solo e capacity) (λ r. Ledger queue none r.0.memory)
  unfolding reserve_solo new_chunk own
  reserve_solo-Ledger few = elim (Bool-cases (ltb 0 capacity)) [
    | inr bad ↦ rw bad tt
    | inl good ↦ rw good (
        Returns-assert _ (is_some (bump_at owned e.memory.next capacity).0) _ (
          bump_at-Ledger (new_chunk-Ledger led capacity plain few) e.memory.next capacity
            (ground arith)))
  ]
    where
      owned : Memory Q
      owned = own e.memory.next plain (with_chunk capacity e.memory)

  -- What Reserve does to a chunk that Acquire gave it.
  adopt-Ledger :
      (c : ℕ) (m : Memory Q)
      → IsHeld e.memory e.current
      → Taken queue e.memory c m
      → Ledger queue none (add_ref (bump_at (release_ref queue m e.current) c capacity).1 (some c))
  adopt-Ledger c m held taken =
      add_ref-Ledger
        (bump_at-Ledger (release_ref-Ledger taken.ledger e.current (still e.current held)) c
          capacity stays)
        (some c)
        (omega (arith, stays, bump_at-refs queue (release_ref queue m e.current) c capacity c))
    where
      still : (o : Option ℕ) → IsHeld e.memory o → IsHeld m o
      still none h = tt
      still (some d) h = omega (arith, taken.others d h)

      apart : (o : Option ℕ) → IsHeld e.memory o → o ≢ some c
      apart o h current = omega (arith, taken.unheld, subst (IsHeld e.memory) current h)

      stays : 0 < ((release_ref queue m e.current).cells c).refs
      stays = omega (arith, taken.held, release_ref-refs queue m e.current c (apart e.current held))

  replace_chunk-Ledger :
      IsHeld e.memory e.current
      → Returns (replace_chunk queue e capacity) (λ r. Ledger queue none r.0.memory)
  unfolding replace_chunk
  replace_chunk-Ledger held =
      Returns-bind (λ r. Taken queue e.memory r.0 r.1) _ (acquire queue e.memory e.stats) _
        (acquire-Taken led e.stats)
        (λ (c, m, s) taken.
          Returns-assert _ (is_some (bump_at (release_ref queue m e.current) c capacity).0) _
            (adopt-Ledger c m held taken))

module _ {Q : Type 0} {queue : ConcurrentQueue Q} (e : Caller Q) (led : Ledger queue none e.memory)
    (capacity : ℕ) (held : IsHeld e.memory e.current) where
  reserve_current-Ledger :
      (c : ℕ)
      → e.current ≡ some c
      → Returns (reserve_small queue e capacity) (λ r. Ledger queue none r.0.memory)
  unfolding reserve_small
  reserve_current-Ledger c current = elim (Bool-cases (is_some (bump_at e.memory c capacity).0)) [
    | inl room ↦
        rw (current, room)
          (add_ref-Ledger bumped (some c)
            (omega (arith, holds_it, bump_at-refs queue e.memory c capacity c)))
    | inr full ↦
        rw (current, full)
          (replace_chunk-Ledger _ bumped capacity
            (omega (arith, holds_it, bump_at-refs queue e.memory c capacity c)))
  ]
    where
      holds_it : 0 < (e.memory.cells c).refs
      holds_it = subst (IsHeld e.memory) current held

      bumped : Ledger queue none (bump_at e.memory c capacity).1
      bumped = bump_at-Ledger led c capacity holds_it

  reserve_small-Ledger :
      Returns (reserve_small queue e capacity) (λ r. Ledger queue none r.0.memory)
  unfolding reserve_small
  reserve_small-Ledger = elim (Option-cases e.current) [
    | inl none_yet ↦
        rw (reserve_small-none queue e capacity none_yet) (replace_chunk-Ledger e led capacity held)
    | inr (c, current) ↦ reserve_current-Ledger c current
  ]

module _ {Q : Type 0} {queue : ConcurrentQueue Q} (e : Caller Q) (led : Ledger queue none e.memory)
    (capacity : ℕ) (held : IsHeld e.memory e.current) where
  pub reserve-Ledger : Returns (reserve queue e capacity) (λ r. Ledger queue none r.0.memory)
  unfolding reserve
  reserve-Ledger = elim (Bool-cases (capacity == 0 || ltb max_send_buffer_size capacity)) [
    | inl bad ↦ rw bad led
    | inr good ↦ elim (Bool-cases (ltb large_allocation_threshold capacity)) [
      | inl large ↦ rw (good, large) (reserve_solo-Ledger _ led capacity (ground arith))
      | inr small ↦ rw (good, small) (reserve_small-Ledger _ led capacity held)
    ]
  ]
