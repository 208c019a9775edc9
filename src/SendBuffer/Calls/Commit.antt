-- ===== src/SendBuffer/Calls/Commit.antt =====
-- Commit turns a buffer into a view of its first bytes.
use my_utils.Base.{ℕ, ◌≤◌, ◌<◌, ◌≡◌, refl, Option, some, arith, add64, update}
use my_utils.Assert.{Succeeds, ok}
use my_utils.Queue.{ConcurrentQueue}
use my_utils.SendBuffer.Buffer.{Caller, SendBuffer, empty_buffer, try_rewind, commit}
use my_utils.SendBuffer.World.{World, free, manager, buffer, view, caller, after, place}
use my_utils.SendBuffer.Invariant.Defs.{Inv}
use my_utils.SendBuffer.Invariant.Moves.{replace_self-Inv, pass_on-Inv}
use my_utils.SendBuffer.Invariant.Rewind.{view_at, try_rewind-Inv}
use my_utils.SendBuffer.Calls.Threads.{WorldInv}

-- The caller after a Commit whose TryRewind left `e`.
abbrev pub committed : {Q : Type 0} → Caller Q → ℕ → Caller Q
committed e size = record e {
  stats = record e.stats { committed_bytes = add64 e.stats.committed_bytes size };
}

module _ {Q : Type 0} (queue : ConcurrentQueue Q) (e e' : Caller Q) (b : SendBuffer) (c size : ℕ)
    (chunk : b.chunk ≡ some c) (short : size ≤ b.capacity)
    (rewound : try_rewind e b size ≡ ok e') where
  pub commit_lem :
      commit queue e b size ≡ ok (committed e' size, empty_buffer, view_at c b.offset size)
  unfolding commit
  commit_lem = ground arith

module _ {Q : Type 0} {queue : ConcurrentQueue Q} {n : ℕ} (w : World Q)
    (inv : WorldInv queue n w) where
  pub commits-Inv :
      (t i j c size : ℕ) (current : Option ℕ) (b : SendBuffer)
      → i < n
      → j < n
      → w.objects t ≡ manager current
      → w.objects i ≡ buffer b
      → w.objects j ≡ free
      → b.chunk ≡ some c
      → size ≤ b.capacity
      → Succeeds (commit queue (caller w t current) b size) (λ r.
        (r.2 ≡ view_at c b.offset size)
        × WorldInv queue n (place (place (after w t r.0) i (buffer r.1)) j (view r.2)))
  commits-Inv t i j c size current b li lj here source target chunk short =
      let (e', ran, same, inv') =
        try_rewind-Inv (caller w t current) same_world i c size b li (ground arith) chunk short in
      (
        (committed e' size, empty_buffer, view_at c b.offset size),
        commit_lem queue (caller w t current) e' b c size chunk short ran,
        (
          refl,
          rw same (
              pass_on-Inv (update w.objects t (manager current)) i j
                (view (view_at c b.offset size)) (buffer empty_buffer) inv' li lj (ground arith)
                (record { no_chunk = refl; formed = tt })
                (record { no_chunk = ground arith; formed = same_world.formed j })),
        ),
      )
    where
      same_world : Inv queue n (λ _. 0) w.memory (update w.objects t (manager current))
      same_world = replace_self-Inv inv t (manager current) here
