-- ===== src/SendBuffer/Calls/Reserve.antt =====
-- Reserve on each of its paths: it never aborts, and gives out bytes that no object uses.
use my_utils.Base.{
  ℕ, ◌+◌, ◌≤◌, ◌<◌, ◌≡◌, ◌⊎◌, refl, inl, inr, true, Option, some, arith, ◌==◌, ◌||◌, ltb, add64,
  Option-cases, Bool-cases, dec_le,
}
use my_utils.Assert.{Checked, Succeeds}
use my_utils.Queue.{ConcurrentQueue}
use my_utils.SendBuffer.Constants.{
  default_chunk_capacity, large_allocation_threshold, max_send_buffer_size,
}
use my_utils.SendBuffer.Memory.{add_ref, release_ref}
use my_utils.SendBuffer.Buffer.{Caller, SendBuffer, empty_buffer, is_valid}
use my_utils.SendBuffer.Manager.{buffer_at, replace_chunk, reserve_small, reserve}
use my_utils.SendBuffer.World.{World, Object, free, manager, buffer, caller, after, place}
use my_utils.SendBuffer.Invariant.Defs.{Inv}
use my_utils.SendBuffer.Invariant.Cells.{refs_pos}
use my_utils.SendBuffer.Invariant.Transfers.{place-Inv}
use my_utils.SendBuffer.Invariant.Acquire.{acquire-Acquired}
use my_utils.SendBuffer.Invariant.Cursor.{bump_at-refuses, set_cursor-Inv}
use my_utils.SendBuffer.Invariant.Moves.{IsEmpty-Fits, replace_self-Inv}
use my_utils.SendBuffer.Calls.Threads.{WorldInv}
use my_utils.SendBuffer.Calls.Replace.{bumped, bump_held, carve-Inv, replaced_bump, replaced-Inv}
use my_utils.SendBuffer.Calls.Solo.{Reserved, reserve_solo-Reserved}
use my_utils.SendBuffer.Calls.Runs.{
  replace_chunk_lem, reserve_small-fits, reserve_small-refuses, reserve_small-none,
}

module _ {Q : Type 0} {queue : ConcurrentQueue Q} {n : ℕ} (e : Caller Q) {objects : ℕ → Object}
    (inv : Inv queue n (λ _. 0) e.memory objects) (t i capacity : ℕ) (lt_t : t < n) (lt_i : i < n)
    (here : objects t ≡ manager e.current) (target : objects i ≡ free) (pos : 0 < capacity) where
  replace_chunk-Reserved :
      capacity ≤ default_chunk_capacity
      → Succeeds (replace_chunk queue e capacity) (Reserved queue n objects t i capacity)
  replace_chunk-Reserved small =
      let (c, m, s, ran, acquired) = acquire-Acquired inv e.stats in
      (
        (
          record {
            memory = add_ref (bumped (release_ref queue m e.current) c capacity) (some c);
            current = some c;
            stats = record s { chunk_acquire_count = add64 s.chunk_acquire_count 1 };
          },
          buffer_at c 0 capacity,
        ),
        replace_chunk_lem queue e capacity c ran
            (replaced_bump acquired t i capacity e.current lt_t lt_i here target pos small),
        (replaced-Inv acquired t i capacity e.current lt_t lt_i here target pos small, refl, refl),
      )

module _ {Q : Type 0} {queue : ConcurrentQueue Q} {n : ℕ} (e : Caller Q) {objects : ℕ → Object}
    (inv : Inv queue n (λ _. 0) e.memory objects) (t i capacity : ℕ) (lt_t : t < n) (lt_i : i < n)
    (here : objects t ≡ manager e.current) (target : objects i ≡ free) (pos : 0 < capacity)
    (small : capacity ≤ default_chunk_capacity) where
  reserve_full-Reserved :
      (c : ℕ)
      → e.current ≡ some c
      → (e.memory.cells c).chunk.capacity < (e.memory.cells c).chunk.offset + capacity
      → Succeeds (reserve_small queue e capacity) (Reserved queue n objects t i capacity)
  reserve_full-Reserved c current full =
      rw
        (reserve_small-refuses queue e capacity c current
          (bump_at-refuses inv c capacity (inv.held_alive c held) full))
        (replace_chunk-Reserved _
          (set_cursor-Inv inv c (e.memory.cells c).chunk.offset
            (ground (arith, inv.fits c, inv.held_alive c held)) (λ j. inv.within j c))
          t i capacity lt_t lt_i here target pos small)
    where
      held : 0 < (e.memory.cells c).refs
      held = refs_pos inv t c (ground arith)

  reserve_small-Reserved :
      Succeeds (reserve_small queue e capacity) (Reserved queue n objects t i capacity)
  reserve_small-Reserved = elim (Option-cases e.current) [
    | inl none_yet ↦
        rw (reserve_small-none queue e capacity none_yet)
          (replace_chunk-Reserved e inv t i capacity lt_t lt_i here target pos small)
    | inr (c, current) ↦
        elim (dec_le ((e.memory.cells c).chunk.offset + capacity)
          (e.memory.cells c).chunk.capacity) [
            | no full ↦ reserve_full-Reserved c current (omega arith)
            | yes room ↦
                let held = refs_pos inv t c (ground arith) in
                (
                  (
                    record e { memory = add_ref (bumped e.memory c capacity) (some c) },
                    buffer_at c (e.memory.cells c).chunk.offset capacity,
                  ),
                  reserve_small-fits queue e capacity c current
                      (bump_held inv c capacity held room),
                  (
                    carve-Inv (replace_self-Inv inv t (manager e.current) here) c capacity held room
                        i lt_i (ground arith) pos,
                    refl,
                    refl,
                  ),
                )
          ]
  ]

-- The outcome of Reserve: an empty buffer exactly for a size of 0 and above the limit, else a
-- buffer of the size.
abbrev pub ReserveOutcome : ℕ → SendBuffer → Type 0
ReserveOutcome capacity b =
    (((capacity ≡ 0) ⊎ (max_send_buffer_size < capacity)) × (b ≡ empty_buffer))
    ⊎ ((0 < capacity)
        × (capacity ≤ max_send_buffer_size)
        × (b.capacity ≡ capacity)
        × (is_valid b ≡ true))

abbrev refused : {Q : Type 0} → Caller Q → Caller Q
refused e = record e {
  stats = record e.stats {
    reserve_count = add64 e.stats.reserve_count 1;
    reserve_fail_count = add64 e.stats.reserve_fail_count 1;
  };
}

-- The counters after the checks of Reserve.
abbrev counted : {Q : Type 0} → Caller Q → ℕ → Caller Q
counted e capacity = record e {
  stats = record e.stats {
    reserve_count = add64 e.stats.reserve_count 1;
    reserved_bytes = add64 e.stats.reserved_bytes capacity;
  };
}

module _ {Q : Type 0} {queue : ConcurrentQueue Q} {n : ℕ} (w : World Q)
    (inv : WorldInv queue n w) where
  accepted :
      (t i capacity : ℕ) {m : Checked (Caller Q × SendBuffer)}
      → 0 < capacity
      → capacity ≤ max_send_buffer_size
      → Succeeds m (Reserved queue n w.objects t i capacity)
      → Succeeds m (λ r.
        ReserveOutcome capacity r.1 × WorldInv queue n (place (after w t r.0) i (buffer r.1)))
  accepted t i capacity pos small (r, ran, given) =
      (r, ran, (inr (pos, small, given.1, given.2), given.0))

  pub reserves-Inv :
      (t i capacity : ℕ) (current : Option ℕ)
      → t < n
      → i < n
      → w.objects t ≡ manager current
      → w.objects i ≡ free
      → Succeeds (reserve queue (caller w t current) capacity) (λ r.
        ReserveOutcome capacity r.1 × WorldInv queue n (place (after w t r.0) i (buffer r.1)))
  unfolding reserve
  reserves-Inv t i capacity current lt_t lt_i here target =
      elim (Bool-cases (capacity == 0 || ltb max_send_buffer_size capacity)) [
        | inl bad ↦ (
          (refused (caller w t current), empty_buffer),
          rw bad refl,
          (
            inl (ground arith, refl),
            place-Inv (replace_self-Inv inv t (manager current) here) i (buffer empty_buffer) _ lt_i
                (λ d. ground arith)
                (IsEmpty-Fits i (buffer empty_buffer) (record { no_chunk = refl; formed = tt })),
          ),
        )
        | inr good ↦
            accepted t i capacity (ground arith) (ground arith)
              (elim (Bool-cases (ltb large_allocation_threshold capacity)) [
                | inl large ↦
                    rw (good, large)
                      (reserve_solo-Reserved (counted (caller w t current) capacity) inv t i
                        capacity lt_i here target (ground arith) (ground arith))
                | inr small ↦
                    rw (good, small)
                      (reserve_small-Reserved (counted (caller w t current) capacity) inv t i
                        capacity lt_t lt_i here target (ground arith) (ground arith))
              ])
      ]
