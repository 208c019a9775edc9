-- ===== src/SendBuffer/Calls/Buffers.antt =====
-- The end of a buffer that was not committed, and its moves.
use mathlib.Core.Path.{fun_ext}
use my_utils.Base.{
  ℕ, ◌<◌, ◌≡◌, ◌≢◌, refl, sym, subst, inl, inr, false, Option, arith, ◌==◌, update, update-update,
  Option-cases, Bool-cases,
}
use my_utils.Assert.{Succeeds, ok}
use my_utils.Queue.{ConcurrentQueue}
use my_utils.SendBuffer.Memory.{release_ref}
use my_utils.SendBuffer.Buffer.{
  Caller, SendBuffer, empty_buffer, try_rewind, move_buffer, destroy_buffer, assign_buffer,
}
use my_utils.SendBuffer.World.{World, Object, free, manager, buffer, caller, after, place}
use my_utils.SendBuffer.Invariant.Defs.{Inv}
use my_utils.SendBuffer.Invariant.Cells.{plus}
use my_utils.SendBuffer.Invariant.Transfers.{place-Inv}
use my_utils.SendBuffer.Invariant.Release.{release_ref-Inv}
use my_utils.SendBuffer.Invariant.Moves.{IsEmpty, IsEmpty-Fits, replace_self-Inv, move-Inv}
use my_utils.SendBuffer.Invariant.Rewind.{view_at, try_rewind-Inv}
use my_utils.SendBuffer.Calls.Threads.{WorldInv}

abbrev cleared : Object
cleared = buffer empty_buffer

cleared-IsEmpty : IsEmpty cleared
cleared-IsEmpty = record { no_chunk = refl; formed = tt }

module _ {Q : Type 0} {queue : ConcurrentQueue Q} {n : ℕ} (e : Caller Q) {objects : ℕ → Object}
    (inv : Inv queue n (λ _. 0) e.memory objects) (i : ℕ) (b : SendBuffer) (o : Object) (lt : i < n)
    (here : objects i ≡ buffer b) (empty : IsEmpty o) where
  -- TryRewind(0), with the reference of the buffer let go after it.
  drop-Inv :
      (e' : Caller Q) × (try_rewind e b 0 ≡ ok e')
      × (e'.current ≡ e.current)
      × Inv queue n (λ _. 0) (release_ref queue e'.memory b.chunk) (update objects i o)
  unfolding try_rewind
  drop-Inv = elim (Option-cases b.chunk) [
    | inl no_chunk ↦ (
      e,
      ground arith,
      refl,
      release_ref-Inv b.chunk (
          place-Inv inv i o (plus (λ _. 0) b.chunk) lt (λ c. ground (arith, empty.no_chunk))
            (IsEmpty-Fits i o empty)),
    )
    | inr (c, chunk) ↦
        let (e', ran, same, inv') = try_rewind-Inv e inv i c 0 b lt here chunk (ground arith) in
        let gone =
          place-Inv inv' i o (plus (λ _. 0) b.chunk) lt (λ d. ground (arith, chunk, empty.no_chunk))
            (IsEmpty-Fits i o empty) in
        (
          e',
          ran,
          same,
          release_ref-Inv b.chunk (
              subst (Inv queue n (plus (λ _. 0) b.chunk) e'.memory)
                (update-update objects i (Object.view (view_at c b.offset 0)) o) gone),
        )
  ]

module _ {Q : Type 0} {queue : ConcurrentQueue Q} {n : ℕ} (w : World Q)
    (inv : WorldInv queue n w) where
  pub destroys_buffer-Inv :
      (t i : ℕ) (current : Option ℕ) (b : SendBuffer)
      → i < n
      → w.objects t ≡ manager current
      → w.objects i ≡ buffer b
      → Succeeds
          (destroy_buffer queue (caller w t current) b)
          (λ e. WorldInv queue n (place (after w t e) i free))
  unfolding destroy_buffer
  destroys_buffer-Inv t i current b lt here source =
      let (e', ran, same, inv') =
        drop-Inv (caller w t current) (replace_self-Inv inv t (manager current) here) i b free lt
          (ground arith) (record { no_chunk = refl; formed = tt }) in
      (
        record e' { memory = release_ref queue e'.memory b.chunk },
        ground (arith, ran),
        rw same inv',
      )

  pub moves_buffer-Inv :
      (i j : ℕ) (b : SendBuffer)
      → i < n
      → j < n
      → w.objects i ≡ buffer b
      → w.objects j ≡ free
      → WorldInv queue n (place (place w i (buffer (move_buffer b).1)) j (buffer (move_buffer b).0))
  moves_buffer-Inv i j b li lj source target = rw (← source) (
      move-Inv inv i j cleared li lj (ground arith) cleared-IsEmpty
        (record { no_chunk = ground arith; formed = inv.formed j }))

  assigns_other-Inv :
      (t i j : ℕ) (current : Option ℕ) (this other : SendBuffer)
      → i < n
      → j < n
      → i ≢ j
      → w.objects t ≡ manager current
      → w.objects i ≡ buffer this
      → w.objects j ≡ buffer other
      → Succeeds
          (assign_buffer queue (caller w t current) false this other)
          (λ r. WorldInv queue n (place (place (after w t r.0) i (buffer r.1)) j (buffer r.2)))
  unfolding assign_buffer
  assigns_other-Inv t i j current this other li lj ne here source target =
      let (e', ran, same, inv') =
        drop-Inv (caller w t current) (replace_self-Inv inv t (manager current) here) i this cleared
          li (ground arith) cleared-IsEmpty in
      let moved =
        move-Inv inv' j i cleared lj li (λ h. ne (sym h)) cleared-IsEmpty
          (record { no_chunk = ground arith; formed = inv'.formed i }) in
      (
        (record e' { memory = release_ref queue e'.memory this.chunk }, other, empty_buffer),
        ground (arith, ran),
        rw same (
            subst (Inv queue n (λ _. 0) (release_ref queue e'.memory this.chunk))
              (fun_ext λ k. ground arith) moved),
      )

  -- Assignment, also of a buffer to itself.
  pub assigns_buffer-Inv :
      (t i j : ℕ) (current : Option ℕ) (this other : SendBuffer)
      → i < n
      → j < n
      → w.objects t ≡ manager current
      → w.objects i ≡ buffer this
      → w.objects j ≡ buffer other
      → Succeeds
          (assign_buffer queue (caller w t current) (i == j) this other)
          (λ r. WorldInv queue n (place (place (after w t r.0) i (buffer r.1)) j (buffer r.2)))
  unfolding assign_buffer
  assigns_buffer-Inv t i j current this other li lj here source target =
      elim (Bool-cases (i == j)) [
        | inr apart ↦
            rw apart
              (assigns_other-Inv t i j current this other li lj (ground arith) here source target)
        | inl itself ↦ (
          (caller w t current, this, other),
          rw itself refl,
          replace_self-Inv
              (replace_self-Inv (replace_self-Inv inv t (manager current) here) i (buffer this)
                (ground arith))
              j (buffer other) (ground arith),
        )
      ]
