-- ===== src/SendBuffer/Bytes/Laws.antt =====
-- Bytes of a buffer or a view change by writes through it alone; what is written before Commit is
-- what the view shows as long as it lives.
use my_utils.Base.{
  ℕ, ◌+◌, ◌<◌, ◌≤◌, ◌≡◌, ◌≢◌, ◌⊎◌, inl, inr, Option, some, Option-cases, ℕ_discrete, refl, ap, ◌∙◌,
  subst, arith,
}
use my_utils.Assert.{ok}
use my_utils.Queue.{ConcurrentQueue}
use my_utils.SendBuffer.Buffer.{Caller, SendBuffer, SendView, writable_data, commit, at_index}
use my_utils.SendBuffer.World
use my_utils.SendBuffer.World.{World, Object, buffer, view, manager, caller, after, place, Reach}
use my_utils.SendBuffer.Invariant.Defs.{index_of, chunk_of, span_start, span_size, IsApart}
use my_utils.SendBuffer.Safety.{buffers_are_exclusive}
use my_utils.SendBuffer.Bytes.{
  Bytes, write, read_from, read_view, Stored, Keeps, no_step, then_call, then_write,
}

-- Where a valid buffer writes.
writable_data-ok :
    (b : SendBuffer) {c start : ℕ}
    → writable_data b ≡ ok (c, start)
    → (b.chunk ≡ some c) × (start ≡ b.offset)
unfolding writable_data
writable_data-ok b h = elim (Option-cases b.chunk) [
  | inl e ↦ absurd (ground (arith, e))
  | inr (c, e) ↦ ground (arith, e)
]

write-ne :
    (bytes : Bytes) (c index value d x : ℕ)
    → (c ≢ d) ⊎ (x ≢ index)
    → write bytes c index value d x ≡ bytes d x
write-ne bytes c index value d x h = ground arith

-- The view that a Commit gives.
commit-view :
    {Q : Type 0} (queue : ConcurrentQueue Q) (e : Caller Q) (b : SendBuffer) (size : ℕ)
    {e' : Caller Q} {b' : SendBuffer} {v : SendView}
    → commit queue e b size ≡ ok (e', b', v)
    → (v ≡ record { chunk = b.chunk; start = at_index b.chunk b.offset; size = size })
      × (size ≤ b.capacity)
unfolding commit
commit-view queue e b size ran = ground (arith, ran)

module _ {Q : Type 0} {queue : ConcurrentQueue Q} {n : ℕ} where
  Keeps-Reach :
      {i : ℕ} {o : Object} {f g : Stored Q}
      → Keeps queue n i o f g
      → Reach queue n f.world
      → Reach queue n g.world
  Keeps-Reach no_step r = r
  Keeps-Reach (then_call k st e) r = World.then_step (Keeps-Reach k r) st
  Keeps-Reach (then_write j x value b k ne h ran lt) r = Keeps-Reach k r

  Keeps-objects :
      {i : ℕ} {o : Object} {f g : Stored Q}
      → Keeps queue n i o f g
      → f.world.objects i ≡ o
      → g.world.objects i ≡ o
  Keeps-objects no_step e = e
  Keeps-objects (then_call k st e) e' = e
  Keeps-objects (then_write j x value b k ne h ran lt) e = Keeps-objects k e

  -- Whatever other threads and other buffers do, the bytes of an object stay.
  pub bytes-Keeps :
      {i : ℕ} {o : Object} {f g : Stored Q} (c x : ℕ)
      → Keeps queue n i o f g
      → Reach queue n f.world
      → f.world.objects i ≡ o
      → chunk_of o ≡ some c
      → span_start o ≤ x
      → x < span_start o + span_size o
      → g.bytes c x ≡ f.bytes c x
  bytes-Keeps c x no_step r e h lo hi = refl
  bytes-Keeps c x (then_call k st e') r e h lo hi = bytes-Keeps c x k r e h lo hi
  bytes-Keeps {i} {o} {f} c x
        (then_write {g = g} j at value b {c = d} {start = start} k ne hj ran lt) r e h lo hi =
      write-ne g.bytes d (start + at) value c x elsewhere ∙ bytes-Keeps c x k r e h lo hi
    where
      formed : (b.chunk ≡ some d) × (start ≡ b.offset)
      formed = writable_data-ok b ran

      kept : g.world.objects i ≡ o
      kept = Keeps-objects k e

      apart : d ≡ c → IsApart b.offset b.capacity (span_start o) (span_size o)
      apart same =
          subst (λ p. IsApart b.offset b.capacity (span_start p) (span_size p)) kept
            (buffers_are_exclusive (Keeps-Reach k r) j i c b ne hj (ground (arith, formed, same))
              (ap chunk_of kept ∙ h) (omega (arith, ap span_size kept)))

      elsewhere : (d ≢ c) ⊎ (x ≢ start + at)
      elsewhere = elim (ℕ_discrete d c) [
        | no other ↦ inl other
        | yes same ↦ inr (λ hit. omega (arith, apart same, formed.1))
      ]

  -- A byte that is written through a buffer, below the size of its later Commit, is what the view
  -- shows at the same place as long as the view lives: other threads may make any calls and write
  -- through any other buffer, before the Commit and after it.
  pub written_bytes_arrive :
      (f g h : Stored Q) (t i j k value size : ℕ) (current : Option ℕ) (b b' : SendBuffer)
      (e : Caller Q) (v : SendView) (c start : ℕ)
      → Reach queue n f.world
      → f.world.objects i ≡ buffer b
      → writable_data b ≡ ok (c, start)
      → Keeps queue n i (buffer b) (record f { bytes = write f.bytes c (start + k) value }) g
      → t < n
      → i < n
      → j < n
      → g.world.objects t ≡ manager current
      → g.world.objects j ≡ Object.free
      → commit queue (caller g.world t current) b size ≡ ok (e, b', v)
      → Keeps queue n j
          (view v)
          (record g { world = place (place (after g.world t e) i (buffer b')) j (view v) })
          h
      → k < size
      → read_view h.bytes v k ≡ some value
  written_bytes_arrive f g h t i j k value size current b b' e v c start r source ran before lt li
        lj here target done later short =
      ap (λ s. read_from h.bytes s k) begins ∙ ap some (shown ∙ kept ∙ written)
    where
      formed : (b.chunk ≡ some c) × (start ≡ b.offset)
      formed = writable_data-ok b ran

      given :
          (v ≡ record { chunk = b.chunk; start = at_index b.chunk b.offset; size = size })
          × (size ≤ b.capacity)
      given = commit-view queue (caller g.world t current) b size done

      begins : v.start ≡ some (c, start)
      begins = ground (arith, given.0, formed)

      written : write f.bytes c (start + k) value c (start + k) ≡ value
      written = ground arith

      kept : g.bytes c (start + k) ≡ write f.bytes c (start + k) value c (start + k)
      kept =
          bytes-Keeps c (start + k) before r source formed.0 (omega (arith, formed.1))
            (omega (arith, formed.1, given.1))

      committed : Reach queue n (place (place (after g.world t e) i (buffer b')) j (view v))
      committed = World.then_step (Keeps-Reach before r) (
          World.commits t i j size current b b' e v lt li lj here (Keeps-objects before source)
            target done)

      shown : h.bytes c (start + k) ≡ g.bytes c (start + k)
      shown =
          bytes-Keeps c (start + k) later committed (ground arith)
            (ap (λ u. u.chunk) given.0 ∙ formed.0) (omega (arith, ap index_of begins))
            (omega (arith, ap index_of begins, ap (λ u. u.size) given.0, short))
