-- ===== src/SendBuffer/Calls/Threads.antt =====
-- The start and the end of a thread, and ReleaseCurrentChunk.
use my_utils.Base.{ℕ, ◌<◌, ◌≡◌, refl, Option, none, arith, update}
use my_utils.Queue.{ConcurrentQueue}
use my_utils.SendBuffer.Buffer.{release_current_chunk}
use my_utils.SendBuffer.World.{World, free, manager, caller, after, place}
use my_utils.SendBuffer.Invariant.Defs.{Inv}
use my_utils.SendBuffer.Invariant.Cells.{plus}
use my_utils.SendBuffer.Invariant.Release.{release_ref-Inv}
use my_utils.SendBuffer.Invariant.Transfers.{place-Inv}
use my_utils.SendBuffer.Invariant.Moves.{IsEmpty-Fits}

-- Between two calls no reference is under way.
abbrev pub WorldInv : {Q : Type 0} → ConcurrentQueue Q → ℕ → World Q → Type 0
WorldInv queue n w = Inv queue n (λ _. 0) w.memory w.objects

module _ {Q : Type 0} {queue : ConcurrentQueue Q} {n : ℕ} (w : World Q)
    (inv : WorldInv queue n w) where
  pub starts_thread-Inv :
      (t : ℕ)
      → t < n
      → w.objects t ≡ free
      → Inv queue n (λ _. 0) w.memory (update w.objects t (manager none))
  starts_thread-Inv t lt here =
      place-Inv inv t (manager none) _ lt (λ c. ground arith)
        (IsEmpty-Fits t (manager none) (record { no_chunk = refl; formed = tt }))

  pub releases_current-Inv :
      (t : ℕ) (current : Option ℕ)
      → t < n
      → w.objects t ≡ manager current
      → WorldInv queue n (after w t (release_current_chunk queue (caller w t current)))
  unfolding release_current_chunk
  releases_current-Inv t current lt here = release_ref-Inv current (
      place-Inv inv t (manager none) (plus (λ _. 0) current) lt (λ c. ground arith)
        (IsEmpty-Fits t (manager none) (record { no_chunk = refl; formed = tt })))

  pub ends_thread-Inv :
      (t : ℕ) (current : Option ℕ)
      → t < n
      → w.objects t ≡ manager current
      → WorldInv queue n
          (place (after w t (release_current_chunk queue (caller w t current))) t free)
  unfolding release_current_chunk
  ends_thread-Inv t current lt here =
      place-Inv (releases_current-Inv t current lt here) t free _ lt (λ c. ground arith)
        (IsEmpty-Fits t free (record { no_chunk = refl; formed = tt }))
