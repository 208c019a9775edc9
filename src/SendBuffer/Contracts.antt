-- ===== src/SendBuffer/Contracts.antt =====
-- What a thread gets from each call in a reachable world, the violated contracts included.
use my_utils.Base.{
  ℕ, ◌+◌, ◌≤◌, ◌<◌, ◌≡◌, ◌≢◌, ◌⊎◌, refl, inl, inr, Option, none, some, arith, ◌==◌, ◌&&◌,
  if◌then◌else◌, Option-cases, dec_le,
}
use my_utils.Assert.{Checked, Succeeds, abort}
use my_utils.Queue.{ConcurrentQueue}
use my_utils.SendBuffer.Chunk.{Chunk}
use my_utils.SendBuffer.Buffer.{
  Caller, SendBuffer, SendView, empty_buffer, same_chunk, try_rewind, commit, destroy_buffer,
  assign_buffer,
}
use my_utils.SendBuffer.Manager.{reserve}
use my_utils.SendBuffer.World.{World, free, manager, buffer, caller, Reach}
use my_utils.SendBuffer.Invariant.Rewind.{view_at, try_rewind_lem}
use my_utils.SendBuffer.Calls.Commit.{committed, commit_lem}
use my_utils.SendBuffer.Calls.Buffers.{destroys_buffer-Inv, assigns_buffer-Inv}
use my_utils.SendBuffer.Calls.Reserve.{ReserveOutcome, reserves-Inv}
use my_utils.SendBuffer.Steps.{Reach-Inv}

-- The outcome of Commit for `size` bytes of the buffer `b`.
abbrev pub CommitOutcome :
    {Q : Type 0} → SendBuffer → ℕ → Checked (Caller Q × SendBuffer × SendView) → Type 0
CommitOutcome b size m =
    ((c : ℕ) × (b.chunk ≡ some c)
      × (size ≤ b.capacity)
      × Succeeds m (λ r. (r.1 ≡ empty_buffer) × (r.2 ≡ view_at c b.offset size)))
    ⊎ (((b.chunk ≡ none) ⊎ (b.capacity < size)) × (m ≡ abort))

-- The chunk `d` after TryRewind of the buffer `b` in the chunk `c`, with `used` bytes to keep.
abbrev pub rewound_chunk : {Q : Type 0} → Caller Q → SendBuffer → ℕ → ℕ → ℕ → Chunk
rewound_chunk e b c used d =
    if same_chunk e.current (some c)
      && ((e.memory.cells c).chunk.offset == b.offset + b.capacity)
      && (c == d)
    then record (e.memory.cells d).chunk { offset = b.offset + used }
    else (e.memory.cells d).chunk

module _ {Q : Type 0} (queue : ConcurrentQueue Q) (n : ℕ) (w : World Q)
    (reached : Reach queue n w) where
  -- In every reachable world, Reserve returns on every path: an empty buffer exactly for a size of
  -- 0 or above the limit, and else a valid buffer of the size asked for.
  pub reserve_outcome :
      (t i capacity : ℕ) (current : Option ℕ)
      → t < n
      → i < n
      → w.objects t ≡ manager current
      → w.objects i ≡ free
      → Succeeds (reserve queue (caller w t current) capacity) (λ r. ReserveOutcome capacity r.1)
  reserve_outcome t i capacity current lt li here target =
      let (r, ran, given) =
        reserves-Inv w (Reach-Inv reached) t i capacity current lt li here target in
      (r, ran, given.0)

  module _ (t i size : ℕ) (current : Option ℕ) (b : SendBuffer) (li : i < n)
      (here : w.objects t ≡ manager current) (source : w.objects i ≡ buffer b) where
    rewinds :
        (c : ℕ)
        → b.chunk ≡ some c
        → size ≤ b.capacity
        → Succeeds (try_rewind (caller w t current) b size) (λ e.
          (d : ℕ) → (e.memory.cells d).chunk ≡ rewound_chunk (caller w t current) b c size d)
    rewinds c chunk short = (
      _,
      try_rewind_lem (caller w t current) (Reach-Inv reached) i c size b li source chunk short,
      λ d. ground arith,
    )

    -- In every reachable world, Commit returns exactly when the buffer is valid and the size is at
    -- most its capacity; it then empties the buffer and gives a view of its first bytes, and
    -- otherwise it ends the process.
    pub commit_outcome : CommitOutcome b size (commit queue (caller w t current) b size)
    unfolding commit
    commit_outcome = elim (Option-cases b.chunk) [
      | inl no_chunk ↦ inr (inl no_chunk, ground (arith, no_chunk))
      | inr (c, chunk) ↦ elim (dec_le size b.capacity) [
        | no long ↦ inr (inr (omega arith), ground (arith, chunk))
        | yes short ↦
            let (e, ran, _) = rewinds c chunk short in
            inl (
              c,
              chunk,
              short,
              (
                (committed e size, empty_buffer, view_at c b.offset size),
                commit_lem queue (caller w t current) e b c size chunk short ran,
                (refl, refl),
              ),
            )
      ]
    ]

    -- In every reachable world, a Commit within its contract gives the unused tail of the buffer
    -- back exactly when the buffer is the last one in the current chunk of the calling thread: the
    -- cursor of that chunk goes to the end of the view, and no other cursor moves.
    pub commit_reclaims_tail :
        (c : ℕ)
        → b.chunk ≡ some c
        → size ≤ b.capacity
        → Succeeds (commit queue (caller w t current) b size) (λ r.
          (d : ℕ) → (r.0.memory.cells d).chunk ≡ rewound_chunk (caller w t current) b c size d)
    commit_reclaims_tail c chunk short =
        let (e, ran, moved) = rewinds c chunk short in
        (
          (committed e size, empty_buffer, view_at c b.offset size),
          commit_lem queue (caller w t current) e b c size chunk short ran,
          moved,
        )

  -- In every reachable world, the end of a buffer and an assignment to a buffer return: the
  -- assertion of Rewind never fires, whoever makes the call.
  pub buffers_end_quietly :
      (t i j : ℕ) (current : Option ℕ) (this other : SendBuffer)
      → i < n
      → j < n
      → w.objects t ≡ manager current
      → w.objects i ≡ buffer this
      → w.objects j ≡ buffer other
      → (destroy_buffer queue (caller w t current) this ≢ abort)
        × (assign_buffer queue (caller w t current) (i == j) this other ≢ abort)
  buffers_end_quietly t i j current this other li lj here source target =
      let inv = Reach-Inv reached in
      let (e, ran, _) = destroys_buffer-Inv w inv t i current this li here source in
      let (r, ran', _) =
        assigns_buffer-Inv w inv t i j current this other li lj here source target in
      (λ h. cc (ran, h), λ h. cc (ran', h))
