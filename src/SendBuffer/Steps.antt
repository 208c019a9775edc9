-- ===== src/SendBuffer/Steps.antt =====
-- The invariant in every world that a program can reach.
use my_utils.Base.{ℕ, ◌≤◌, ◌≡◌, refl, inl, inr, some, arith, tally-eq-zero, Option-cases}
use my_utils.Assert.{Succeeds-apply, ok}
use my_utils.Queue.{ConcurrentQueue}
use my_utils.SendBuffer.Buffer.{Caller, SendBuffer, SendView, commit}
use my_utils.SendBuffer.World
use my_utils.SendBuffer.World.{
  World, Object, buffer, view, caller, after, place, initial, Step, Reach, at_start, then_step,
}
use my_utils.SendBuffer.Invariant.Defs.{holds}
use my_utils.SendBuffer.Invariant.Cells.{relimit-Inv}
use my_utils.SendBuffer.Calls.Threads.{
  WorldInv, starts_thread-Inv, releases_current-Inv, ends_thread-Inv,
}
use my_utils.SendBuffer.Calls.Views.{copies_view-Inv, destroys_view-Inv}
use my_utils.SendBuffer.Calls.Commit.{commits-Inv}
use my_utils.SendBuffer.Calls.Buffers.{destroys_buffer-Inv, moves_buffer-Inv, assigns_buffer-Inv}
use my_utils.SendBuffer.Calls.Reserve.{reserves-Inv}

module _ {Q : Type 0} (queue : ConcurrentQueue Q) where
  pub initial-Inv : (n : ℕ) → WorldInv queue n (initial queue)
  initial-Inv n = record {
    counted = λ c. omega (arith, tally-eq-zero (holds c) n (initial queue).objects (λ i. refl));
    held_alive = λ c h. absurd (omega arith);
    fresh = λ c h. refl;
    fits = λ c h. cc;
    idle_once = λ c. omega (arith, queue.copies-empty c);
    idle_free = λ c h. absurd (omega (arith, queue.copies-empty c));
    bounded = λ i h. refl;
    sole = λ i j c p q. cc;
    pooled = λ i c p. cc;
    formed = λ i. tt;
    within = λ i c p q. cc;
    disjoint = λ i j c ne w p q r s. cc;
  }

  -- A Commit that returns was given a buffer and no more bytes than it holds.
  commit-ok :
      (e : Caller Q) (b : SendBuffer) (size : ℕ) {r : Caller Q × SendBuffer × SendView}
      → commit queue e b size ≡ ok r
      → ((c : ℕ) × (b.chunk ≡ some c)) × (size ≤ b.capacity)
  unfolding commit
  commit-ok e b size h = elim (Option-cases b.chunk) [
    | inl no_chunk ↦ absurd (ground (arith, no_chunk))
    | inr found ↦ (found, ground (arith, found.1))
  ]

module _ {Q : Type 0} {queue : ConcurrentQueue Q} {n : ℕ} where
  pub Step-Inv : {w w' : World Q} → Step queue n w w' → WorldInv queue n w → WorldInv queue n w'
  Step-Inv {w} (World.starts_thread t lt h) inv = starts_thread-Inv w inv t lt h
  Step-Inv {w} (World.ends_thread t cur lt h) inv = ends_thread-Inv w inv t cur lt h
  Step-Inv {w} (World.releases_current t cur lt h) inv = releases_current-Inv w inv t cur lt h
  Step-Inv {w} (World.reserves t i capacity cur e b lt li h f ran) inv =
      (Succeeds-apply _ (reserves-Inv w inv t i capacity cur lt li h f) ran).1
  Step-Inv {w} (World.commits t i j size cur b b' e v lt li lj h hi hj ran) inv =
      let ((c, chunk), short) = commit-ok queue _ b size ran in
      (Succeeds-apply _ (commits-Inv w inv t i j c size cur b li lj h hi hj chunk short) ran).1
  Step-Inv {w} (World.destroys_buffer t i cur b e lt li h hi ran) inv =
      Succeeds-apply _ (destroys_buffer-Inv w inv t i cur b li h hi) ran
  Step-Inv {w} (World.moves_buffer i j b li lj hi hj) inv = moves_buffer-Inv w inv i j b li lj hi hj
  Step-Inv {w} (World.assigns_buffer t i j cur this other this' other' e lt li lj h hi hj ran) inv =
      Succeeds-apply _ (assigns_buffer-Inv w inv t i j cur this other li lj h hi hj) ran
  Step-Inv {w} (World.copies_view t i j cur v lt li lj h hi hj) inv =
      copies_view-Inv w inv t i j cur v lj h hi hj
  Step-Inv {w} (World.destroys_view t i cur v lt li h hi) inv =
      destroys_view-Inv w inv t i cur v li h hi
  Step-Inv (World.sets_idle_limit limit) inv = relimit-Inv inv limit

  pub Reach-Inv : {w : World Q} → Reach queue n w → WorldInv queue n w
  Reach-Inv at_start = initial-Inv queue n
  Reach-Inv (then_step r s) = Step-Inv s (Reach-Inv r)
