-- ===== src/SendBuffer/Ledger/Tests.antt =====
-- The ledger of a world that a run reaches: one thread that holds two buffers.
use my_utils.Base.{ℕ, ◌%◌, ◌^◌, ◌≤◌, ◌<◌, ◌≡◌, ◌⊎◌, refl, false, some, tally}
use my_utils.Queue.Fifo.{fifo}
use my_utils.SendBuffer.Invariant.Defs.{chunk_of}
use my_utils.SendBuffer.Ledger.{lives, live_bytes}
use my_utils.SendBuffer.Ledger.Steps.{no_chunk_leaks, live_counters_exact}
use my_utils.SendBuffer.Tests.{reserve_all, two_buffers, two_buffers-Reach}

one_live_chunk : two_buffers.memory.live_chunk_count ≡ 1
unfolding reserve_all
one_live_chunk = refl

no_chunk_leaks_example :
    ((i : ℕ) × (i < 4) × (chunk_of (two_buffers.objects i) ≡ some 0))
    ⊎ ((fifo.copies two_buffers.memory.idle 0 ≡ 1) × ((two_buffers.memory.cells 0).refs ≡ 0))
unfolding reserve_all
no_chunk_leaks_example = no_chunk_leaks two_buffers-Reach 0 refl

live_counters_exact_example :
    (two_buffers.memory.live_chunk_count
      ≡ tally lives two_buffers.memory.next two_buffers.memory.cells % 2 ^ 64)
    × (two_buffers.memory.live_chunk_bytes
        ≡ tally live_bytes two_buffers.memory.next two_buffers.memory.cells % 2 ^ 64)
    × ((c : ℕ) → two_buffers.memory.next ≤ c → (two_buffers.memory.cells c).alive ≡ false)
live_counters_exact_example = live_counters_exact two_buffers-Reach
