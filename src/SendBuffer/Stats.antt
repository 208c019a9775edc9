-- ===== src/SendBuffer/Stats.antt =====
-- SendBufferStats and its AccumulateInto.
use my_utils.Base.{ℕ, ◌^◌, ◌<◌, ◌≡◌, arith, add64, add64_assoc, add64_right_comm, add64-zero}
use my_utils.Counters.{Accumulate}

pub record SendBufferStats : Type 0 where
  pub reserve_count : ℕ
  pub reserve_fail_count : ℕ
  pub reserved_bytes : ℕ
  pub committed_bytes : ℕ
  pub reclaimed_bytes : ℕ
  pub discarded_bytes : ℕ
  pub large_alloc_count : ℕ
  pub chunk_acquire_count : ℕ
  pub chunk_create_count : ℕ

abbrev pub zero_stats : SendBufferStats
zero_stats = record {
  reserve_count = 0;
  reserve_fail_count = 0;
  reserved_bytes = 0;
  committed_bytes = 0;
  reclaimed_bytes = 0;
  discarded_bytes = 0;
  large_alloc_count = 0;
  chunk_acquire_count = 0;
  chunk_create_count = 0;
}

pub accumulate_into : SendBufferStats → SendBufferStats → SendBufferStats
accumulate_into dst src = record {
  reserve_count = add64 dst.reserve_count src.reserve_count;
  reserve_fail_count = add64 dst.reserve_fail_count src.reserve_fail_count;
  reserved_bytes = add64 dst.reserved_bytes src.reserved_bytes;
  committed_bytes = add64 dst.committed_bytes src.committed_bytes;
  reclaimed_bytes = add64 dst.reclaimed_bytes src.reclaimed_bytes;
  discarded_bytes = add64 dst.discarded_bytes src.discarded_bytes;
  large_alloc_count = add64 dst.large_alloc_count src.large_alloc_count;
  chunk_acquire_count = add64 dst.chunk_acquire_count src.chunk_acquire_count;
  chunk_create_count = add64 dst.chunk_create_count src.chunk_create_count;
}

pub record AreWords (s : SendBufferStats) : Type 0 where
  pub reserve_count : s.reserve_count < 2 ^ 64
  pub reserve_fail_count : s.reserve_fail_count < 2 ^ 64
  pub reserved_bytes : s.reserved_bytes < 2 ^ 64
  pub committed_bytes : s.committed_bytes < 2 ^ 64
  pub reclaimed_bytes : s.reclaimed_bytes < 2 ^ 64
  pub discarded_bytes : s.discarded_bytes < 2 ^ 64
  pub large_alloc_count : s.large_alloc_count < 2 ^ 64
  pub chunk_acquire_count : s.chunk_acquire_count < 2 ^ 64
  pub chunk_create_count : s.chunk_create_count < 2 ^ 64

pub accumulate_into-right_comm :
    (t a b : SendBufferStats)
    → accumulate_into (accumulate_into t a) b ≡ accumulate_into (accumulate_into t b) a
unfolding accumulate_into
accumulate_into-right_comm t a b = λ i. record {
  reserve_count = add64_right_comm t.reserve_count a.reserve_count b.reserve_count i;
  reserve_fail_count =
      add64_right_comm t.reserve_fail_count a.reserve_fail_count b.reserve_fail_count i;
  reserved_bytes = add64_right_comm t.reserved_bytes a.reserved_bytes b.reserved_bytes i;
  committed_bytes = add64_right_comm t.committed_bytes a.committed_bytes b.committed_bytes i;
  reclaimed_bytes = add64_right_comm t.reclaimed_bytes a.reclaimed_bytes b.reclaimed_bytes i;
  discarded_bytes = add64_right_comm t.discarded_bytes a.discarded_bytes b.discarded_bytes i;
  large_alloc_count =
      add64_right_comm t.large_alloc_count a.large_alloc_count b.large_alloc_count i;
  chunk_acquire_count =
      add64_right_comm t.chunk_acquire_count a.chunk_acquire_count b.chunk_acquire_count i;
  chunk_create_count =
      add64_right_comm t.chunk_create_count a.chunk_create_count b.chunk_create_count i;
}

pub accumulate_into_assoc :
    (t a b : SendBufferStats)
    → accumulate_into (accumulate_into t a) b ≡ accumulate_into t (accumulate_into a b)
unfolding accumulate_into
accumulate_into_assoc t a b = λ i. record {
  reserve_count = add64_assoc t.reserve_count a.reserve_count b.reserve_count i;
  reserve_fail_count = add64_assoc t.reserve_fail_count a.reserve_fail_count b.reserve_fail_count i;
  reserved_bytes = add64_assoc t.reserved_bytes a.reserved_bytes b.reserved_bytes i;
  committed_bytes = add64_assoc t.committed_bytes a.committed_bytes b.committed_bytes i;
  reclaimed_bytes = add64_assoc t.reclaimed_bytes a.reclaimed_bytes b.reclaimed_bytes i;
  discarded_bytes = add64_assoc t.discarded_bytes a.discarded_bytes b.discarded_bytes i;
  large_alloc_count = add64_assoc t.large_alloc_count a.large_alloc_count b.large_alloc_count i;
  chunk_acquire_count =
      add64_assoc t.chunk_acquire_count a.chunk_acquire_count b.chunk_acquire_count i;
  chunk_create_count = add64_assoc t.chunk_create_count a.chunk_create_count b.chunk_create_count i;
}

pub accumulate_into-zero : (t : SendBufferStats) → AreWords t → accumulate_into t zero_stats ≡ t
unfolding accumulate_into
accumulate_into-zero t h = λ i. record {
  reserve_count = add64-zero t.reserve_count h.reserve_count i;
  reserve_fail_count = add64-zero t.reserve_fail_count h.reserve_fail_count i;
  reserved_bytes = add64-zero t.reserved_bytes h.reserved_bytes i;
  committed_bytes = add64-zero t.committed_bytes h.committed_bytes i;
  reclaimed_bytes = add64-zero t.reclaimed_bytes h.reclaimed_bytes i;
  discarded_bytes = add64-zero t.discarded_bytes h.discarded_bytes i;
  large_alloc_count = add64-zero t.large_alloc_count h.large_alloc_count i;
  chunk_acquire_count = add64-zero t.chunk_acquire_count h.chunk_acquire_count i;
  chunk_create_count = add64-zero t.chunk_create_count h.chunk_create_count i;
}

pub accumulate_into-AreWords : (t a : SendBufferStats) → AreWords (accumulate_into t a)
unfolding accumulate_into
accumulate_into-AreWords t a = omega arith

-- The two functions below are what the registry of counters is given.
abbrev pub send_buffer_counters : Accumulate SendBufferStats
send_buffer_counters = record {
  zero_block = zero_stats;
  accumulate_into = accumulate_into;
  AreWords = AreWords;
  accumulate_into_assoc = accumulate_into_assoc;
  accumulate_into-right_comm = accumulate_into-right_comm;
  accumulate_into-zero = accumulate_into-zero;
  accumulate_into-AreWords = accumulate_into-AreWords;
}
