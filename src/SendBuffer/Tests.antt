-- ===== src/SendBuffer/Tests.antt =====
-- Runs of the send buffer code on concrete inputs, and the theorems at such inputs.
use my_utils.Base.{
  ℕ, ◌+◌, ◌≤◌, ◌<◌, ◌≡◌, ◌≢◌, refl, inl, true, List, [], ◌∷◌, Option, none, some, arith, ◌==◌,
  update,
}
use my_utils.Assert.{Checked, Succeeds, ok, abort, ◌>>=◌}
use my_utils.Counters.{Registry, destroy_block, snapshot_stats}
use my_utils.Counters.Laws.{snapshot_stats-destroy_block}
use my_utils.Queue.Fifo.{fifo}
use my_utils.SendBuffer.Constants.{default_chunk_capacity, max_send_buffer_size}
use my_utils.SendBuffer.Stats.{SendBufferStats, zero_stats, send_buffer_counters}
use my_utils.SendBuffer.Chunk.{free_size}
use my_utils.SendBuffer.Memory.{to_pool, new_chunk, own, bump_at, add_ref, release_ref, acquire}
use my_utils.SendBuffer.Buffer.{
  Caller, SendBuffer, empty_buffer, commit, destroy_buffer, assign_buffer,
}
use my_utils.SendBuffer.Manager.{reserve, reserve_solo, reserve_small, replace_chunk}
use my_utils.SendBuffer.World.{
  World, manager, buffer, caller, after, place, initial, starts_thread, reserves, Reach, at_start,
  then_step,
}
use my_utils.SendBuffer.Invariant.Defs.{IsApart}
use my_utils.SendBuffer.Calls.Reserve.{ReserveOutcome}
use my_utils.SendBuffer.Safety.{
  no_use_after_free, buffers_are_exclusive, one_owner, spans_in_bounds,
}
use my_utils.SendBuffer.Contracts.{
  CommitOutcome, rewound_chunk, reserve_outcome, commit_outcome, commit_reclaims_tail,
  buffers_end_quietly,
}

-- What a test unfolds to run Reserve.
unfoldable pub reserve_all : Caller (List ℕ) → ℕ → Checked (Caller (List ℕ) × SendBuffer)
unfolding reserve reserve_solo reserve_small replace_chunk new_chunk own bump_at add_ref release_ref
    acquire free_size
reserve_all = reserve fifo

abbrev pub start : World (List ℕ)
start = initial fifo

-- Thread 0 starts; it reserves 100 bytes for the buffer at 1, and then 50 for the buffer at 2.
abbrev pub get {ℓ} : {A : Type ℓ} → A → Checked A → A
get d (ok a) = a
get d abort = d

abbrev pub started : World (List ℕ)
started = record start {
  objects = update start.objects 0 (manager none);
  stats = update start.stats 0 zero_stats;
}

started-Reach : Reach fifo 4 started
started-Reach = then_step at_start (starts_thread 0 (omega arith) refl)

abbrev pub reserving : World (List ℕ) → Option ℕ → ℕ → Caller (List ℕ) × SendBuffer
reserving w current size =
    get (caller w 0 current, empty_buffer) (reserve fifo (caller w 0 current) size)

abbrev pub one_buffer : World (List ℕ)
one_buffer =
    place (after started 0 (reserving started none 100).0) 1 (buffer (reserving started none 100).1)

one_buffer-Reach : Reach fifo 4 one_buffer
unfolding reserve_all
one_buffer-Reach =
    then_step started-Reach (reserves 0 1 100 none _ _ (omega arith) (omega arith) refl refl refl)

abbrev pub two_buffers : World (List ℕ)
two_buffers =
    place (after one_buffer 0 (reserving one_buffer (some 0) 50).0) 2
      (buffer (reserving one_buffer (some 0) 50).1)

pub two_buffers-Reach : Reach fifo 4 two_buffers
unfolding reserve_all
two_buffers-Reach =
    then_step one_buffer-Reach
      (reserves 0 2 50 (some 0) _ _ (omega arith) (omega arith) refl refl refl)

-- A dropped tail is reclaimed: the manager and the first buffer hold the chunk.
reserve_two_drop_one : Checked (Caller (List ℕ))
unfolding reserve_all destroy_buffer
reserve_two_drop_one = do
  (e, a) ← reserve fifo (caller started 0 none) 100
  (e', b) ← reserve fifo e 50
  destroy_buffer fifo e' b

reserve_two_drop_one_cursor :
    (get (caller started 0 none) reserve_two_drop_one).memory.cells 0 ≡ record {
      chunk = record { capacity = 65536; offset = 100 };
      refs = 2;
      deleter = to_pool;
      alive = true;
    }
unfolding reserve_two_drop_one
reserve_two_drop_one_cursor = refl

-- The largest request is served, and one byte more is refused.
largest_request : (reserving started none 1_048_576).1.capacity ≡ 1_048_576
unfolding reserve_all
largest_request = refl

too_large_request : (reserving started none 1_048_577).1 ≡ empty_buffer
unfolding reserve_all
too_large_request = refl

buffers_are_exclusive_example : IsApart 0 100 100 50
unfolding reserve_all
buffers_are_exclusive_example =
    buffers_are_exclusive two_buffers-Reach 1 2 0 (reserving started none 100).1 (omega arith) refl
      refl refl (omega arith)

no_use_after_free_example :
    ((two_buffers.memory.cells 0).alive ≡ true)
    × (fifo.copies two_buffers.memory.idle 0 ≡ 0)
    × (0 < two_buffers.memory.next)
unfolding reserve_all
no_use_after_free_example = no_use_after_free two_buffers-Reach 2 0 refl

one_owner_example :
    (◌≡◌ {A = ℕ} 0 0) × ((two_buffers.memory.cells 0).chunk.capacity ≡ default_chunk_capacity)
unfolding reserve_all
one_owner_example = one_owner two_buffers-Reach 0 0 0 refl refl

spans_in_bounds_example :
    (100 + 50 ≤ (two_buffers.memory.cells 0).chunk.offset)
    × ((two_buffers.memory.cells 0).chunk.offset ≤ (two_buffers.memory.cells 0).chunk.capacity)
    × ((two_buffers.memory.cells 0).chunk.capacity ≤ max_send_buffer_size)
unfolding reserve_all
spans_in_bounds_example = spans_in_bounds two_buffers-Reach 2 0 refl (omega arith)

reserve_outcome_example :
    Succeeds (reserve fifo (caller started 0 none) 20_000) (λ r. ReserveOutcome 20_000 r.1)
reserve_outcome_example =
    reserve_outcome fifo 4 started started-Reach 0 1 20_000 none (omega arith) (omega arith) refl
      refl

abbrev pub first : SendBuffer
first = (reserving started none 100).1

abbrev pub second : SendBuffer
second = (reserving one_buffer (some 0) 50).1

commit_outcome_example :
    CommitOutcome first 101 (commit fifo (caller two_buffers 0 (some 0)) first 101)
unfolding reserve_all
commit_outcome_example =
    commit_outcome fifo 4 two_buffers two_buffers-Reach 0 1 101 (some 0) first (omega arith) refl
      refl

commit_reclaims_tail_example :
    Succeeds (commit fifo (caller two_buffers 0 (some 0)) second 20) (λ r.
      (d : ℕ)
      → (r.0.memory.cells d).chunk ≡ rewound_chunk (caller two_buffers 0 (some 0)) second 0 20 d)
unfolding reserve_all
commit_reclaims_tail_example =
    commit_reclaims_tail fifo 4 two_buffers two_buffers-Reach 0 2 20 (some 0) second (omega arith)
      refl refl 0 refl (omega arith)

buffers_end_quietly_example :
    (destroy_buffer fifo (caller two_buffers 0 (some 0)) first ≢ abort)
    × (assign_buffer fifo (caller two_buffers 0 (some 0)) (1 == 2) first second ≢ abort)
unfolding reserve_all
buffers_end_quietly_example =
    buffers_end_quietly fifo 4 two_buffers two_buffers-Reach 0 1 2 (some 0) first second
      (omega arith) (omega arith) refl refl refl

-- Two threads count; the first one ends.
abbrev counting : Registry SendBufferStats
counting = record {
  blocks = 7 ∷ 9 ∷ [];
  values = update (λ _. zero_stats) 7 (record zero_stats { reserve_count = 3 });
  retired = record zero_stats { reserve_count = 10 };
}

snapshot_stats-destroy_block_example :
    snapshot_stats send_buffer_counters (destroy_block send_buffer_counters 7 counting)
    ≡ snapshot_stats send_buffer_counters counting
snapshot_stats-destroy_block_example =
    snapshot_stats-destroy_block send_buffer_counters 7 counting (inl (refl, omega arith))
