-- ===== src/SendBuffer/Exit/Reserving.antt =====
-- A Reserve that does not take a chunk from GlobalPool(), on a pool that has no owner.
use my_utils.Base.{
  ℕ, ◌≡◌, inl, inr, true, ◌||◌, some, ltb, ◌==◌, Bool-cases, Option-cases, refl, subst, arith,
}
use my_utils.Assert.{Returns, Returns-assert}
use my_utils.Queue.{ConcurrentQueue}
use my_utils.SendBuffer.Chunk.{bump}
use my_utils.SendBuffer.Constants.{max_send_buffer_size, large_allocation_threshold}
use my_utils.SendBuffer.Memory.{Memory, plain, new_chunk, with_chunk, own, bump_at}
use my_utils.SendBuffer.Buffer.{Caller, is_some}
use my_utils.SendBuffer.Manager.{reserve_solo, reserve_small, reserve}
use my_utils.SendBuffer.Ledger.Refs.{IsHeld, IsHeld-same}
use my_utils.SendBuffer.Exit.{fits_current, needs_no_pool}
use my_utils.SendBuffer.Exit.Captures.{
  Unpooled, SameOwners, SameOwners-Unpooled, still_free, add_ref-Unpooled,
}

module _ {Q : Type 0} (queue : ConcurrentQueue Q) where
  bump_at-SameOwners : (m : Memory Q) (c size : ℕ) → SameOwners m (bump_at m c size).1
  unfolding bump_at bump
  bump_at-SameOwners m c size = (refl, λ d. (ground arith, ground arith))

  own-Unpooled : (m : Memory Q) (c : ℕ) → Unpooled queue m → Unpooled queue (own c plain m)
  unfolding own
  own-Unpooled m c free = λ d. still_free queue m free c d _ refl

  reserve_solo-Unpooled :
      (e : Caller Q) (capacity : ℕ)
      → Unpooled queue e.memory
      → Returns (reserve_solo e capacity) (λ r. Unpooled queue r.0.memory)
  unfolding reserve_solo new_chunk
  reserve_solo-Unpooled e capacity free = elim (Bool-cases (ltb 0 capacity)) [
    | inr nothing ↦ rw nothing tt
    | inl positive ↦ rw positive (
        Returns-assert _ (is_some (bump_at owned e.memory.next capacity).0) _ (
          SameOwners-Unpooled queue owned (bump_at owned e.memory.next capacity).1
            (bump_at-SameOwners owned e.memory.next capacity)
            (own-Unpooled made e.memory.next
              (λ d. still_free queue e.memory free e.memory.next d _ refl))))
  ]
    where
      made : Memory Q
      made = with_chunk capacity e.memory

      owned : Memory Q
      owned = own e.memory.next plain made

  reserve_small-Unpooled :
      (e : Caller Q) (capacity : ℕ)
      → Unpooled queue e.memory
      → IsHeld e.memory e.current
      → fits_current e.memory e.current capacity ≡ true
      → Returns (reserve_small queue e capacity) (λ r. Unpooled queue r.0.memory)
  unfolding reserve_small
  reserve_small-Unpooled e capacity free held fits = elim (Option-cases e.current) [
    | inl nothing ↦ cc (nothing, fits)
    | inr (c, here) ↦
        let bumped : Memory Q = (bump_at e.memory c capacity).1 in
        let same = bump_at-SameOwners e.memory c capacity in
        let fit = subst (λ o. fits_current e.memory o capacity ≡ true) here fits in
        rw (here, fit)
          (add_ref-Unpooled queue bumped (SameOwners-Unpooled queue e.memory bumped same free)
            (some c)
            (IsHeld-same e.memory bumped (some c) (subst (IsHeld e.memory) here held)
              (λ d. (same.1 d).0)))
  ]

  pub reserve-Unpooled :
      (e : Caller Q) (capacity : ℕ)
      → Unpooled queue e.memory
      → IsHeld e.memory e.current
      → needs_no_pool e.memory e.current capacity ≡ true
      → Returns (reserve queue e capacity) (λ r. Unpooled queue r.0.memory)
  unfolding reserve
  reserve-Unpooled e capacity free held late =
      elim (Bool-cases (capacity == 0 || ltb max_send_buffer_size capacity)) [
        | inl refused ↦ rw refused free
        | inr served ↦ elim (Bool-cases (ltb large_allocation_threshold capacity)) [
          | inl large ↦ rw (served, large) (reserve_solo-Unpooled _ capacity free)
          | inr small ↦
              rw (served, small)
                (reserve_small-Unpooled _ capacity free held (ground (arith, late, served, small)))
        ]
      ]
