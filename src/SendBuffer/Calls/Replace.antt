-- ===== src/SendBuffer/Calls/Replace.antt =====
-- What Reserve does to a chunk that its manager holds, or has just acquired.
use my_utils.Base.{ℕ, ◌+◌, ◌≤◌, ◌<◌, ◌≡◌, ap, ◌∙◌, subst, true, Option, some, arith, update}
use my_utils.Queue.{ConcurrentQueue}
use my_utils.SendBuffer.Constants.{default_chunk_capacity}
use my_utils.SendBuffer.Memory.{Memory, set_chunk, add_ref, bump_at, release_ref}
use my_utils.SendBuffer.Buffer.{Caller, SendBuffer, is_valid}
use my_utils.SendBuffer.Manager.{buffer_at}
use my_utils.SendBuffer.World.{Object, free, manager, buffer}
use my_utils.SendBuffer.Invariant.Defs.{Inv}
use my_utils.SendBuffer.Invariant.Cells.{plus, add_ref-Inv, refs_pos, manager_chunk-chunk_of}
use my_utils.SendBuffer.Invariant.Transfers.{place-Inv}
use my_utils.SendBuffer.Invariant.Release.{release_ref-Inv, release_ref-chunk}
use my_utils.SendBuffer.Invariant.Acquire.{Acquired}
use my_utils.SendBuffer.Invariant.Cursor.{bump_at-fits, set_cursor-Inv, buffer_at-Fits}

-- What a successful Reserve gives: a buffer of the size asked for, placed at `i`, in a world that
-- satisfies the invariant.
abbrev pub Reserved :
    {Q : Type 0} → ConcurrentQueue Q → ℕ → (ℕ → Object) → ℕ → ℕ → ℕ → Caller Q × SendBuffer → Type 0
Reserved queue n objects t i capacity r =
    Inv queue n (λ _. 0) r.0.memory (update (update objects t (manager r.0.current)) i (buffer r.1))
    × (r.1.capacity ≡ capacity)
    × (is_valid r.1 ≡ true)

abbrev pub bumped : {Q : Type 0} → Memory Q → ℕ → ℕ → Memory Q
bumped m c size =
    set_chunk m c (record (m.cells c).chunk { offset = (m.cells c).chunk.offset + size })

module _ {Q : Type 0} {queue : ConcurrentQueue Q} {n : ℕ} {extra : ℕ → ℕ} {m : Memory Q}
    {objects : ℕ → Object} (inv : Inv queue n extra m objects) (c size : ℕ)
    (held : 0 < (m.cells c).refs)
    (room : (m.cells c).chunk.offset + size ≤ (m.cells c).chunk.capacity) where
  pub bump_held : bump_at m c size ≡ (some (m.cells c).chunk.offset, bumped m c size)
  bump_held = bump_at-fits inv c size (inv.held_alive c held) room

  pub bumped-Inv : Inv queue n extra (bumped m c size) objects
  bumped-Inv =
      set_cursor-Inv inv c ((m.cells c).chunk.offset + size) room
        (λ i p q. omega (arith, inv.within i c p q))

  -- A Bump by a manager of the chunk, with the reference for the buffer.
  pub carve-Inv :
      (i : ℕ)
      → i < n
      → objects i ≡ free
      → 0 < size
      → Inv queue n extra
          (add_ref (bumped m c size) (some c))
          (update objects i (buffer (buffer_at c (m.cells c).chunk.offset size)))
  unfolding add_ref
  carve-Inv i lt empty pos =
      place-Inv counted i _ extra lt (λ d. ground arith)
        (buffer_at-Fits counted i c (m.cells c).chunk.offset size pos (λ j. inv.within j c)
          (ground arith))
    where
      counted : Inv queue n (plus extra (some c)) (add_ref (bumped m c size) (some c)) objects
      counted = add_ref-Inv bumped-Inv (some c) (λ d h. ground arith)

-- What follows ChunkPool::Acquire: the new chunk `c` takes the place of the current one.
module _ {Q : Type 0} {queue : ConcurrentQueue Q} {n : ℕ} {objects : ℕ → Object} {m : Memory Q}
    {c : ℕ} (acquired : Acquired queue n (λ _. 0) objects c m) (t i capacity : ℕ)
    (current : Option ℕ) (lt_t : t < n) (lt_i : i < n) (here : objects t ≡ manager current)
    (target : objects i ≡ free) (pos : 0 < capacity)
    (small : capacity ≤ default_chunk_capacity) where
  owned-Inv : Inv queue n (plus (λ _. 0) current) m (update objects t (manager (some c)))
  owned-Inv =
      place-Inv acquired.inv t (manager (some c)) (plus (λ _. 0) current) lt_t (λ d. ground arith)
        (record {
          sole = λ j d p q.
              absurd (acquired.unknown j (ground (arith, manager_chunk-chunk_of (objects j) d q)));
          pooled = λ d p. ground (arith, acquired.cell);
          formed = tt;
          within = λ d p q. omega arith;
          disjoint = λ j d ne w p q r s. omega arith;
        })

  released-Inv :
      Inv queue n (λ _. 0) (release_ref queue m current) (update objects t (manager (some c)))
  released-Inv = release_ref-Inv current owned-Inv

  released_held : 0 < ((release_ref queue m current).cells c).refs
  released_held = refs_pos released-Inv t c (ground arith)

  released_chunk :
      ((release_ref queue m current).cells c).chunk
      ≡ record { capacity = default_chunk_capacity; offset = 0 }
  released_chunk = release_ref-chunk queue m current c ∙ ap (λ k. k.chunk) acquired.cell

  at_start : ((release_ref queue m current).cells c).chunk.offset ≡ 0
  at_start = ap (λ k. k.offset) released_chunk

  room :
      ((release_ref queue m current).cells c).chunk.offset + capacity
      ≤ ((release_ref queue m current).cells c).chunk.capacity
  room = omega (arith, at_start, ap (λ k. k.capacity) released_chunk)

  pub replaced_bump :
      bump_at (release_ref queue m current) c capacity
      ≡ (some 0, bumped (release_ref queue m current) c capacity)
  replaced_bump =
      bump_held released-Inv c capacity released_held room
      ∙ ap (λ (o : ℕ). (some o, bumped (release_ref queue m current) c capacity)) at_start

  pub replaced-Inv :
      Inv queue n
        (λ _. 0)
        (add_ref (bumped (release_ref queue m current) c capacity) (some c))
        (update (update objects t (manager (some c))) i (buffer (buffer_at c 0 capacity)))
  replaced-Inv =
      subst
        (λ (o : ℕ).
          Inv queue n (λ _. 0) (add_ref (bumped (release_ref queue m current) c capacity) (some c))
            (update (update objects t (manager (some c))) i (buffer (buffer_at c o capacity))))
        at_start (carve-Inv released-Inv c capacity released_held room i lt_i (ground arith) pos)
