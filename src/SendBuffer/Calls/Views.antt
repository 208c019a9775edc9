-- ===== src/SendBuffer/Calls/Views.antt =====
-- The copy and the end of a view.
use my_utils.Base.{ℕ, ◌<◌, ◌≡◌, refl, Option, arith, update}
use my_utils.Queue.{ConcurrentQueue}
use my_utils.SendBuffer.Memory.{add_ref}
use my_utils.SendBuffer.Buffer.{SendView, copy_view, destroy_view}
use my_utils.SendBuffer.World.{World, free, manager, view, caller, after, place}
use my_utils.SendBuffer.Invariant.Defs.{Inv}
use my_utils.SendBuffer.Invariant.Cells.{plus, add_ref-Inv, refs_pos}
use my_utils.SendBuffer.Invariant.Release.{release_ref-Inv}
use my_utils.SendBuffer.Invariant.Transfers.{place-Inv}
use my_utils.SendBuffer.Invariant.Moves.{IsEmpty-Fits, copy-Fits, replace_self-Inv}
use my_utils.SendBuffer.Calls.Threads.{WorldInv}

module _ {Q : Type 0} {queue : ConcurrentQueue Q} {n : ℕ} (w : World Q)
    (inv : WorldInv queue n w) where
  pub copies_view-Inv :
      (t i j : ℕ) (current : Option ℕ) (v : SendView)
      → j < n
      → w.objects t ≡ manager current
      → w.objects i ≡ view v
      → w.objects j ≡ free
      → WorldInv queue n (
          place
            (after w t (copy_view (caller w t current) v).0)
            j
            (view (copy_view (caller w t current) v).1))
  unfolding copy_view
  copies_view-Inv t i j current v lt here source target =
      place-Inv copied j (view v) _ lt (λ c. ground arith) (copy-Fits copied i j v (ground arith))
    where
      copied :
          Inv queue n
            (plus (λ _. 0) v.chunk)
            (add_ref w.memory v.chunk)
            (update w.objects t (manager current))
      copied =
          add_ref-Inv (replace_self-Inv inv t (manager current) here) v.chunk
            (λ c e. refs_pos inv i c (ground arith))

  pub destroys_view-Inv :
      (t i : ℕ) (current : Option ℕ) (v : SendView)
      → i < n
      → w.objects t ≡ manager current
      → w.objects i ≡ view v
      → WorldInv queue n (place (after w t (destroy_view queue (caller w t current) v)) i free)
  unfolding destroy_view
  destroys_view-Inv t i current v lt here source = release_ref-Inv v.chunk (
      place-Inv (replace_self-Inv inv t (manager current) here) i free (plus (λ _. 0) v.chunk) lt
        (λ c. ground arith) (IsEmpty-Fits i free (record { no_chunk = refl; formed = tt })))
