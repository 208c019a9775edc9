-- ===== src/SendBuffer/Exit/Tests.antt =====
-- One thread that reserves a buffer and outlives the static root of the pool.
use my_utils.Base.{ℕ, ◌<◌, ◌≡◌, ◌⊎◌, List, none, some, true, false, length, sum_below, refl, arith}
use my_utils.Queue.Fifo.{fifo, fifo-IsExact, length-Shrinks}
use my_utils.SendBuffer.Memory.{plain}
use my_utils.SendBuffer.Buffer.{Caller, destroy_buffer, release_current_chunk}
use my_utils.SendBuffer.World.{
  World, free, buffer, caller, after, place, starts_thread, ends_thread, reserves, destroys_buffer,
}
use my_utils.SendBuffer.Invariant.Defs.{chunk_of}
use my_utils.SendBuffer.Exit.{
  Process, use_count, settle, initial, Reach, at_start, then_step, calls, calls_late, drops_root,
}
use my_utils.SendBuffer.Exit.Safety.{pool_outlives_chunks, nothing_left_at_exit}
use my_utils.SendBuffer.Tests.{reserve_all, get, started, one_buffer, reserving}

abbrev P : Type 0
P = Process (List ℕ)

abbrev with_world : P → World (List ℕ) → P
with_world p w = settle fifo length (record p { world = w })

abbrev begun : P
begun = with_world (initial fifo length 4) started

begun-Reach : Reach fifo length 4 begun
begun-Reach = then_step at_start (calls refl (starts_thread 0 (omega arith) refl))

abbrev reserved : P
reserved = with_world begun one_buffer

-- The static root goes while thread 0 still holds a chunk of the pool.
abbrev rootless : P
rootless = settle fifo length (record reserved { root = false })

-- A Reserve that fits into the current chunk, after the static root is gone.
abbrev late_reserved : P
late_reserved = with_world rootless (
    place (after rootless.world 0 (reserving rootless.world (some 0) 50).0) 2
      (buffer (reserving rootless.world (some 0) 50).1))

abbrev dropped : Caller (List ℕ)
dropped =
    get (caller one_buffer 0 (some 0))
      (destroy_buffer fifo (caller rootless.world 0 (some 0)) (reserving started none 100).1)

abbrev buffer_gone : P
buffer_gone = with_world rootless (place (after rootless.world 0 dropped) 1 free)

abbrev thread_gone : P
thread_gone = with_world buffer_gone (
    place
      (after buffer_gone.world 0 (release_current_chunk fifo (caller buffer_gone.world 0 (some 0))))
      0 free)

rootless-Reach : Reach fifo length 4 rootless
unfolding reserve_all settle sum_below
rootless-Reach =
    then_step
      (then_step begun-Reach
        (calls refl (reserves 0 1 100 none _ _ (omega arith) (omega arith) refl refl refl)))
      (drops_root refl)

late_reserved-Reach : Reach fifo length 4 late_reserved
unfolding reserve_all settle sum_below
late_reserved-Reach =
    then_step rootless-Reach
      (calls_late (reserves 0 2 50 (some 0) _ _ (omega arith) (omega arith) refl refl refl) refl)

thread_gone-Reach : Reach fifo length 4 thread_gone
unfolding reserve_all settle sum_below destroy_buffer
thread_gone-Reach =
    then_step
      (then_step rootless-Reach (
        calls_late (destroys_buffer 0 1 (some 0) _ _ (omega arith) (omega arith) refl refl refl)
          tt))
      (calls_late (ends_thread 0 (some 0) (omega arith) refl) tt)

all_free : (i : ℕ) → thread_gone.world.objects i ≡ free
unfolding reserve_all settle sum_below destroy_buffer release_current_chunk
all_free i = ground arith

pool_outlives_chunks_example :
    (late_reserved.pool_alive ≡ true) × (0 < use_count late_reserved)
    ⊎ (late_reserved.pool_alive ≡ false)
      × (fifo.copies late_reserved.world.memory.idle 0 ≡ 0)
      × (((late_reserved.world.memory.cells 0).alive ≡ false)
            × ((late_reserved.world.memory.cells 0).refs ≡ 0)
          ⊎ ((late_reserved.world.memory.cells 0).deleter ≡ plain)
            × ((i : ℕ) × (i < 4) × (chunk_of (late_reserved.world.objects i) ≡ some 0)))
unfolding reserve_all settle sum_below
pool_outlives_chunks_example =
    pool_outlives_chunks fifo-IsExact length-Shrinks late_reserved-Reach 0

nothing_left_at_exit_example :
    (thread_gone.pool_alive ≡ false)
    × ((c : ℕ) → (thread_gone.world.memory.cells c).alive ≡ false)
    × (thread_gone.world.memory.live_chunk_count ≡ 0)
    × (thread_gone.world.memory.live_chunk_bytes ≡ 0)
unfolding reserve_all settle sum_below destroy_buffer release_current_chunk
nothing_left_at_exit_example =
    nothing_left_at_exit fifo-IsExact length-Shrinks thread_gone-Reach refl all_free
