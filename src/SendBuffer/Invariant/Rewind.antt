-- ===== src/SendBuffer/Invariant/Rewind.antt =====
-- TryRewind, for Commit and for a buffer that is dropped: it does not abort, and keeps the objects
-- of the chunk apart.
use my_utils.Base.{
  ℕ, ◌+◌, ◌≤◌, ◌<◌, ◌≡◌, refl, inl, inr, true, some, arith, ◌==◌, ◌&&◌, if◌then◌else◌, leb, ◌^◌,
  ==_iff, update, add64, sub64, Bool-cases,
}
use my_utils.Assert.{ok}
use my_utils.Queue.{ConcurrentQueue}
use my_utils.SendBuffer.Memory.{set_chunk}
use my_utils.SendBuffer.Buffer.{Caller, SendBuffer, SendView, same_chunk, try_rewind}
use my_utils.SendBuffer.World.{Object, buffer, view}
use my_utils.SendBuffer.Invariant.Defs.{Inv}
use my_utils.SendBuffer.Invariant.Cells.{refs_pos}
use my_utils.SendBuffer.Invariant.Transfers.{place-Inv}
use my_utils.SendBuffer.Invariant.Cursor.{EndsBelow, set_cursor-Inv}

abbrev pub view_at : ℕ → ℕ → ℕ → SendView
view_at c offset size = record { chunk = some c; start = some (c, offset); size = size }

-- What TryRewind leaves where both of its conditions hold.
abbrev rewound : {Q : Type 0} → Caller Q → SendBuffer → ℕ → ℕ → Caller Q
rewound e b used c = record e {
  memory = set_chunk e.memory c (record (e.memory.cells c).chunk { offset = add64 b.offset used });
  stats = record e.stats {
    reclaimed_bytes = add64 e.stats.reclaimed_bytes (sub64 b.capacity used);
  };
}

-- The places after the buffer at `i` has shrunk to its first `used` bytes.
abbrev pub shrunk : (ℕ → Object) → ℕ → ℕ → ℕ → ℕ → ℕ → Object
shrunk objects i c offset used = update objects i (view (view_at c offset used))

module _ {Q : Type 0} {queue : ConcurrentQueue Q} {n : ℕ} {extra : ℕ → ℕ} (e : Caller Q)
    {objects : ℕ → Object} (inv : Inv queue n extra e.memory objects) (i c used : ℕ)
    (b : SendBuffer) (lt : i < n) (here : objects i ≡ buffer b) (chunk : b.chunk ≡ some c)
    (short : used ≤ b.capacity) where
  filled : 0 < b.capacity
  filled = ground (arith, inv.formed i)

  alive : (e.memory.cells c).alive ≡ true
  alive = inv.held_alive c (refs_pos inv i c (ground arith))

  pub below_cursor : b.offset + b.capacity ≤ (e.memory.cells c).chunk.offset
  below_cursor = ground (arith, inv.within i c, filled)

  below_end : (e.memory.cells c).chunk.offset < 2 ^ 64
  below_end = omega (arith, inv.fits c alive)

  shrink-Inv : Inv queue n extra e.memory (shrunk objects i c b.offset used)
  shrink-Inv =
      place-Inv inv i (view (view_at c b.offset used)) extra lt (λ d. ground arith)
        (record {
          sole = λ j d p q. cc;
          pooled = λ d p. cc;
          formed = refl;
          within = λ d p q. ground (arith, below_cursor);
          disjoint = λ j d ne w p q r s. ground (arith, inv.disjoint i j c);
        })

  shrunk-EndsBelow :
      (e.memory.cells c).chunk.offset ≡ add64 b.offset b.capacity
      → EndsBelow (shrunk objects i c b.offset used) c (add64 b.offset used)
  shrunk-EndsBelow tail j p q =
      ground (arith, inv.within j c, inv.disjoint i j c, below_cursor, below_end, filled)

  rewound-Inv :
      (e.memory.cells c).chunk.offset ≡ add64 b.offset b.capacity
      → Inv queue n extra (rewound e b used c).memory (shrunk objects i c b.offset used)
  rewound-Inv tail =
      set_cursor-Inv shrink-Inv c (add64 b.offset used)
        (omega (arith, below_cursor, below_end, inv.fits c alive)) (shrunk-EndsBelow tail)

  -- The assertion of Rewind.
  low : leb (add64 b.offset used) (e.memory.cells c).chunk.offset ≡ true
  low = ground (arith, below_cursor, below_end)

  -- The call does not abort, keeps the current chunk, and leaves to the caller the first `used`
  -- bytes of the buffer.
  pub try_rewind-Inv :
      (e' : Caller Q) × (try_rewind e b used ≡ ok e')
      × (e'.current ≡ e.current)
      × Inv queue n extra e'.memory (shrunk objects i c b.offset used)
  unfolding try_rewind
  try_rewind-Inv = elim (Bool-cases (same_chunk e.current (some c))) [
    | inr other ↦ (e, rw (chunk, other, try_rewind) refl, refl, shrink-Inv)
    | inl owner ↦ elim (Bool-cases ((e.memory.cells c).chunk.offset == add64 b.offset b.capacity)) [
      | inr inner ↦ (e, rw (chunk, owner, inner, try_rewind) refl, refl, shrink-Inv)
      | inl tail ↦ (
        rewound e b used c,
        rw (chunk, owner, tail, low, try_rewind) refl,
        refl,
        rewound-Inv ((==_iff _ _).0 tail),
      )
    ]
  ]

  -- TryRewind moves the cursor of the current chunk to the end of the bytes used, if the buffer is
  -- the last one there, and else changes nothing.
  pub try_rewind_lem :
      try_rewind e b used
      ≡ ok (
          if same_chunk e.current (some c)
            && ((e.memory.cells c).chunk.offset == b.offset + b.capacity)
          then record e {
            memory =
                set_chunk e.memory c (record (e.memory.cells c).chunk { offset = b.offset + used });
            stats = record e.stats {
              reclaimed_bytes = add64 e.stats.reclaimed_bytes (sub64 b.capacity used);
            };
          }
          else e)
  unfolding try_rewind
  try_rewind_lem = ground (arith, chunk, below_cursor, below_end)
