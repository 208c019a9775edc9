-- ===== src/SendBuffer/Calls/Solo.antt =====
-- Reserve above the threshold: a chunk for one buffer.
use my_utils.Base.{ℕ, ◌+◌, ◌≤◌, ◌<◌, ◌≡◌, ◌≢◌, refl, true, some, arith, add64, update}
use my_utils.Assert.{Succeeds, ok}
use my_utils.Queue.{ConcurrentQueue}
use my_utils.SendBuffer.Constants.{max_send_buffer_size}
use my_utils.SendBuffer.Memory.{Memory, plain, with_chunk, new_chunk, own}
use my_utils.SendBuffer.Buffer.{Caller, SendBuffer, is_valid}
use my_utils.SendBuffer.Manager.{buffer_at, reserve_solo}
use my_utils.SendBuffer.World.{Object, free, manager, buffer}
use my_utils.SendBuffer.Invariant.Defs.{Inv, chunk_of}
use my_utils.SendBuffer.Invariant.Cells.{plus}
use my_utils.SendBuffer.Invariant.Transfers.{place-Inv}
use my_utils.SendBuffer.Invariant.Acquire.{
  with_chunk-Inv, with_chunk-IsSpare, own-Inv, owned_cell, next_unknown,
}
use my_utils.SendBuffer.Invariant.Cursor.{buffer_at-Fits}
use my_utils.SendBuffer.Invariant.Moves.{replace_self-Inv}
use my_utils.SendBuffer.Calls.Replace.{bumped, bumped-Inv, bump_held}
use my_utils.SendBuffer.Calls.Runs.{reserve_solo_lem}

-- What a successful Reserve gives: a buffer of the size asked for, placed at `i`, in a world that
-- satisfies the invariant.
abbrev pub Reserved :
    {Q : Type 0} → ConcurrentQueue Q → ℕ → (ℕ → Object) → ℕ → ℕ → ℕ → Caller Q × SendBuffer → Type 0
Reserved queue n objects t i capacity r =
    Inv queue n (λ _. 0) r.0.memory (update (update objects t (manager r.0.current)) i (buffer r.1))
    × (r.1.capacity ≡ capacity)
    × (is_valid r.1 ≡ true)

module _ {Q : Type 0} {queue : ConcurrentQueue Q} {n : ℕ} (e : Caller Q) {objects : ℕ → Object}
    (inv : Inv queue n (λ _. 0) e.memory objects) (t i capacity : ℕ) (lt_i : i < n)
    (here : objects t ≡ manager e.current) (target : objects i ≡ free) (pos : 0 < capacity)
    (small : capacity ≤ max_send_buffer_size) where
  abbrev solo : Memory Q
  solo = own e.memory.next plain (with_chunk capacity e.memory)

  solo-Inv : Inv queue n (plus (λ _. 0) (some e.memory.next)) solo objects
  solo-Inv =
      own-Inv (with_chunk-Inv inv capacity pos small) e.memory.next plain
        (with_chunk-IsSpare inv capacity)

  solo_cell : solo.cells e.memory.next ≡ owned_cell capacity plain
  unfolding own
  solo_cell = ground arith

  held : 0 < (solo.cells e.memory.next).refs
  held = ground (arith, solo_cell)

  room :
      (solo.cells e.memory.next).chunk.offset + capacity ≤ (solo.cells e.memory.next).chunk.capacity
  room = ground (arith, solo_cell)

  new_chunk_runs : new_chunk capacity e.memory ≡ ok (e.memory.next, with_chunk capacity e.memory)
  unfolding new_chunk
  new_chunk_runs = ground arith

  filled :
      Inv queue n
        (plus (λ _. 0) (some e.memory.next))
        (bumped solo e.memory.next capacity)
        (update objects t (manager e.current))
  filled =
      replace_self-Inv (bumped-Inv solo-Inv e.memory.next capacity held room) t (manager e.current)
        here

  unused : (j : ℕ) → chunk_of (update objects t (manager e.current) j) ≢ some e.memory.next
  unused j h = next_unknown inv j (ground arith)

  pub reserve_solo-Reserved :
      Succeeds (reserve_solo e capacity) (Reserved queue n objects t i capacity)
  reserve_solo-Reserved = (
    (
      record e {
        memory = bumped solo e.memory.next capacity;
        stats = record e.stats { large_alloc_count = add64 e.stats.large_alloc_count 1 };
      },
      buffer_at e.memory.next 0 capacity,
    ),
    reserve_solo_lem queue e capacity new_chunk_runs
        (bump_held solo-Inv e.memory.next capacity held room),
    (
      place-Inv filled i _ (λ _. 0) lt_i (λ d. ground arith)
          (buffer_at-Fits filled i e.memory.next 0 capacity pos (λ j p q. absurd (unused j p))
            (ground (arith, solo_cell))),
      refl,
      refl,
    ),
  )
