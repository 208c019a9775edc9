-- ===== src/SendBuffer/Invariant/Transfers.antt =====
-- Objects that change hands: a reference moves between a place and a call that is under way.
use my_utils.Base.{ℕ, ◌+◌, ◌≤◌, ◌<◌, ◌≡◌, ◌≢◌, true, ◌||◌, some, arith, update, tally-update}
use my_utils.Queue.{ConcurrentQueue}
use my_utils.SendBuffer.Constants.{default_chunk_capacity}
use my_utils.SendBuffer.Memory.{Memory, to_pool}
use my_utils.SendBuffer.World.{Object}
use my_utils.SendBuffer.Invariant.Defs.{
  chunk_of, manager_chunk, span_start, span_size, holds, IsFormed, IsApart, is_buffer, Inv,
}

-- What an object has to satisfy to stand at the place `i`.
pub record Fits {Q : Type 0} (m : Memory Q) (objects : ℕ → Object) (i : ℕ) (o : Object)
    : Type 0 where
  pub sole : (j c : ℕ) → manager_chunk o ≡ some c → manager_chunk (objects j) ≡ some c → i ≡ j
  pub pooled :
      (c : ℕ)
      → manager_chunk o ≡ some c
      → ((m.cells c).deleter ≡ to_pool) × ((m.cells c).chunk.capacity ≡ default_chunk_capacity)
  pub formed : IsFormed o
  pub within :
      (c : ℕ)
      → chunk_of o ≡ some c
      → 0 < span_size o
      → span_start o + span_size o ≤ (m.cells c).chunk.offset
  pub disjoint :
      (j c : ℕ)
      → i ≢ j
      → (is_buffer o || is_buffer (objects j)) ≡ true
      → chunk_of o ≡ some c
      → chunk_of (objects j) ≡ some c
      → 0 < span_size o
      → 0 < span_size (objects j)
      → IsApart (span_start o) (span_size o) (span_start (objects j)) (span_size (objects j))

module _ {Q : Type 0} {queue : ConcurrentQueue Q} {n : ℕ} {extra : ℕ → ℕ} {m : Memory Q}
    {objects : ℕ → Object} (inv : Inv queue n extra m objects) where
  pub place-Inv :
      (i : ℕ) (o : Object) (extra' : ℕ → ℕ)
      → i < n
      → ((c : ℕ) → extra' c + holds c o ≡ extra c + holds c (objects i))
      → Fits m objects i o
      → Inv queue n extra' m (update objects i o)
  place-Inv i o extra' lt balance f = record {
    counted = λ c. omega (arith, inv.counted c, balance c, tally-update (holds c) n objects i o lt);
    held_alive = inv.held_alive;
    fresh = inv.fresh;
    fits = inv.fits;
    idle_once = inv.idle_once;
    idle_free = inv.idle_free;
    bounded = λ j h. ground (arith, inv.bounded j h);
    sole = λ j k c hj hk. ground (arith, inv.sole j k c, f.sole j c, f.sole k c);
    pooled = λ j c h. ground (arith, inv.pooled j c, f.pooled c);
    formed = λ j. ground (arith, inv.formed j, f.formed);
    within = λ j c h p. ground (arith, inv.within j c, f.within c);
    disjoint =
        λ j k c ne hj hk pj pk. ground (arith, inv.disjoint j k c, f.disjoint j c, f.disjoint k c);
  }
