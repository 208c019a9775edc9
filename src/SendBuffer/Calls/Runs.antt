-- ===== src/SendBuffer/Calls/Runs.antt =====
-- The returns of Reserve, each from what the calls on its path return.
use my_utils.Base.{ℕ, ◌≡◌, none, some, arith, add64}
use my_utils.Assert.{ok}
use my_utils.Queue.{ConcurrentQueue}
use my_utils.SendBuffer.Stats.{SendBufferStats}
use my_utils.SendBuffer.Chunk.{free_size}
use my_utils.SendBuffer.Memory.{
  Memory, plain, with_chunk, new_chunk, own, add_ref, bump_at, release_ref, acquire,
}
use my_utils.SendBuffer.Buffer.{Caller}
use my_utils.SendBuffer.Manager.{buffer_at, reserve_solo, replace_chunk, reserve_small}

module _ {Q : Type 0} (queue : ConcurrentQueue Q) (e : Caller Q) (capacity : ℕ) where
  pub reserve_solo_lem :
      {m : Memory Q} {start : ℕ}
      → new_chunk capacity e.memory ≡ ok (e.memory.next, with_chunk capacity e.memory)
      → bump_at (own e.memory.next plain (with_chunk capacity e.memory)) e.memory.next capacity
        ≡ (some start, m)
      → reserve_solo e capacity
        ≡ ok (
          record e {
            memory = m;
            stats = record e.stats { large_alloc_count = add64 e.stats.large_alloc_count 1 };
          },
          buffer_at e.memory.next 0 capacity,
        )
  unfolding reserve_solo
  reserve_solo_lem made bumped = ground arith

  pub replace_chunk_lem :
      (c : ℕ) {m m' : Memory Q} {s : SendBufferStats}
      → acquire queue e.memory e.stats ≡ ok (c, m, s)
      → bump_at (release_ref queue m e.current) c capacity ≡ (some 0, m')
      → replace_chunk queue e capacity
        ≡ ok (
          record {
            memory = add_ref m' (some c);
            current = some c;
            stats = record s { chunk_acquire_count = add64 s.chunk_acquire_count 1 };
          },
          buffer_at c 0 capacity,
        )
  unfolding replace_chunk
  replace_chunk_lem c ran bumped = ground arith

  pub reserve_small-fits :
      (c : ℕ) {m' : Memory Q} {start : ℕ}
      → e.current ≡ some c
      → bump_at e.memory c capacity ≡ (some start, m')
      → reserve_small queue e capacity
        ≡ ok (
          record e { memory = add_ref m' (some c) },
          buffer_at c (e.memory.cells c).chunk.offset capacity,
        )
  unfolding reserve_small
  reserve_small-fits c current bumped = ground arith

  pub reserve_small-refuses :
      (c : ℕ) {m' : Memory Q}
      → e.current ≡ some c
      → bump_at e.memory c capacity ≡ (none, m')
      → reserve_small queue e capacity
        ≡ replace_chunk queue
            (record e {
              memory = m';
              stats = record e.stats {
                discarded_bytes = add64 e.stats.discarded_bytes (free_size (m'.cells c).chunk);
              };
            })
            capacity
  unfolding reserve_small
  reserve_small-refuses c current bumped = ground arith

  pub reserve_small-none :
      e.current ≡ none → reserve_small queue e capacity ≡ replace_chunk queue e capacity
  unfolding reserve_small
  reserve_small-none current = ground arith
