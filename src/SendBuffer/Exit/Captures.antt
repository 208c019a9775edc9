-- ===== src/SendBuffer/Exit/Captures.antt =====
-- The calls that do not use GlobalPool(), on a pool that has no owner.
use my_utils.Base.{
  ℕ, ◌<◌, ◌≡◌, ◌⊎◌, inl, inr, Bool, true, false, Option, none, some, ◌==◌, Option-cases, Bool-cases,
  add64, leb, update, refl, arith,
}
use my_utils.Assert.{Returns, Returns-bind, Returns-assert}
use my_utils.Queue.{ConcurrentQueue}
use my_utils.SendBuffer.Chunk.{rewind}
use my_utils.SendBuffer.Memory.{
  Memory, Cell, Deleter, to_pool, plain, add_ref, rewind_at, release_ref,
}
use my_utils.SendBuffer.Buffer.{
  Caller, SendBuffer, is_valid, same_chunk, rewind_if_tail, try_rewind, destroy_buffer,
  assign_buffer, commit,
}
use my_utils.SendBuffer.Ledger.Refs.{IsHeld, IsHeld-same}
use my_utils.SendBuffer.Exit.{captures}

-- No deleter that can still run is the one of the pool, and the pool is empty.
abbrev pub Unpooled : {Q : Type 0} → ConcurrentQueue Q → Memory Q → Type 0
Unpooled queue m = (c : ℕ) → (captures (m.cells c) ≡ 0) × (queue.copies m.idle c ≡ 0)

-- Another cursor, and nothing else.
abbrev pub SameOwners : {Q : Type 0} → Memory Q → Memory Q → Type 0
SameOwners m m' =
    (m'.idle ≡ m.idle)
    × ((c : ℕ)
        → ((m'.cells c).refs ≡ (m.cells c).refs) × ((m'.cells c).deleter ≡ (m.cells c).deleter))

Deleter-cases : (d : Deleter) → (d ≡ to_pool) ⊎ (d ≡ plain)
Deleter-cases to_pool = inl refl
Deleter-cases plain = inr refl

pub held_plain : (k : Cell) → 0 < k.refs → captures k ≡ 0 → k.deleter ≡ plain
held_plain k held free = elim (Deleter-cases k.deleter) [
  | inl pooled ↦ absurd (ground (arith, pooled, held, free))
  | inr solo ↦ solo
]

plain_free : (k : Cell) → k.deleter ≡ plain → captures k ≡ 0
plain_free k e = ground (arith, e)

module _ {Q : Type 0} (queue : ConcurrentQueue Q) where
  pub SameOwners-Unpooled :
      (m m' : Memory Q) → SameOwners m m' → Unpooled queue m → Unpooled queue m'
  SameOwners-Unpooled m m' (idle, owners) free c =
      (ground (arith, owners c, free c), ground (arith, idle, free c))

  module _ (m : Memory Q) (free : Unpooled queue m) where
    pub still_free :
        (c d : ℕ) (k : Cell)
        → k.deleter ≡ plain
        → (captures (update m.cells c k d) ≡ 0) × (queue.copies m.idle d ≡ 0)
    still_free c d k solo = (ground (arith, plain_free k solo, free d), (free d).1)

    pub add_ref-Unpooled : (o : Option ℕ) → IsHeld m o → Unpooled queue (add_ref m o)
    unfolding add_ref
    add_ref-Unpooled none held = free
    add_ref-Unpooled (some c) held = λ d. still_free c d _ (held_plain (m.cells c) held (free c).0)

    pub release_ref-Unpooled : (o : Option ℕ) → IsHeld m o → Unpooled queue (release_ref queue m o)
    unfolding release_ref
    release_ref-Unpooled none held = free
    release_ref-Unpooled (some c) held = elim (Bool-cases ((m.cells c).refs == 1)) [
      | inr others ↦ rw others (λ d. still_free c d _ solo)
      | inl last ↦ rw (last, solo) (λ d. (ground (arith, free d), (free d).1))
    ]
      where
        solo : (m.cells c).deleter ≡ plain
        solo = held_plain (m.cells c) held (free c).0

module _ {Q : Type 0} (queue : ConcurrentQueue Q) where
  rewind_at-SameOwners :
      (m : Memory Q) (c offset : ℕ) → Returns (rewind_at m c offset) (SameOwners m)
  unfolding rewind_at rewind
  rewind_at-SameOwners m c offset = elim (Bool-cases (leb offset (m.cells c).chunk.offset)) [
    | inr bad ↦ rw bad tt
    | inl good ↦ rw good (refl, λ d. (ground arith, ground arith))
  ]

  module _ (e : Caller Q) where
    abbrev Rewound : Caller Q → Type 0
    Rewound e' = SameOwners e.memory e'.memory

    rewind_if_tail-SameOwners :
        (b : SendBuffer) (used c : ℕ) → Returns (rewind_if_tail e b used c) Rewound
    unfolding rewind_if_tail
    rewind_if_tail-SameOwners b used c = elim (Bool-cases (same_chunk e.current (some c))) [
      | inr other ↦ rw other (refl, λ d. (refl, refl))
      | inl here ↦
          elim (Bool-cases ((e.memory.cells c).chunk.offset == add64 b.offset b.capacity)) [
            | inr inner ↦ rw (here, inner) (refl, λ d. (refl, refl))
            | inl tail ↦
                rw (here, tail)
                  (Returns-bind _ Rewound (rewind_at e.memory c (add64 b.offset used)) _
                    (rewind_at-SameOwners e.memory c (add64 b.offset used)) (λ m h. h))
          ]
    ]

    try_rewind-SameOwners : (b : SendBuffer) (used : ℕ) → Returns (try_rewind e b used) Rewound
    unfolding try_rewind
    try_rewind-SameOwners b used = elim (Option-cases b.chunk) [
      | inl no_chunk ↦ rw no_chunk (refl, λ d. (refl, refl))
      | inr (c, chunk) ↦ rw chunk (rewind_if_tail-SameOwners b used c)
    ]

    module _ (free : Unpooled queue e.memory) where
      -- The end of a buffer's reference, after TryRewind.
      release_of_buffer :
          (b : SendBuffer) (e' : Caller Q)
          → IsHeld e.memory b.chunk
          → Rewound e'
          → Unpooled queue (release_ref queue e'.memory b.chunk)
      release_of_buffer b e' held same =
          release_ref-Unpooled queue e'.memory
            (SameOwners-Unpooled queue e.memory e'.memory same free) b.chunk
            (IsHeld-same e.memory e'.memory b.chunk held (λ c. (same.1 c).0))

      pub destroy_buffer-Unpooled :
          (b : SendBuffer)
          → IsHeld e.memory b.chunk
          → Returns (destroy_buffer queue e b) (λ e'. Unpooled queue e'.memory)
      unfolding destroy_buffer
      destroy_buffer-Unpooled b held =
          Returns-bind Rewound _ (try_rewind e b 0) _ (try_rewind-SameOwners b 0)
            (λ e' same. release_of_buffer b e' held same)

      pub assign_buffer-Unpooled :
          (same : Bool) (this other : SendBuffer)
          → IsHeld e.memory this.chunk
          → Returns (assign_buffer queue e same this other) (λ r. Unpooled queue r.0.memory)
      unfolding assign_buffer
      assign_buffer-Unpooled true this other held = free
      assign_buffer-Unpooled false this other held =
          Returns-bind Rewound _ (try_rewind e this 0) _ (try_rewind-SameOwners this 0)
            (λ e' same. release_of_buffer this e' held same)

      pub commit-Unpooled :
          (b : SendBuffer) (size : ℕ)
          → Returns (commit queue e b size) (λ r. Unpooled queue r.0.memory)
      unfolding commit
      commit-Unpooled b size = Returns-assert _ (is_valid b) _ (
          Returns-assert _ (leb size b.capacity) _ (
            Returns-bind Rewound _ (try_rewind e b size) _ (try_rewind-SameOwners b size)
              (λ e' same. SameOwners-Unpooled queue e.memory e'.memory same free)))
