-- ===== src/SendBuffer/Constants.antt =====
-- The policy constants of include/MyUtils/SendBuffer.h.
use my_utils.Base.{ℕ, ◌*◌}

abbrev pub default_chunk_capacity : ℕ
default_chunk_capacity = 64 * 1024

abbrev pub large_allocation_threshold : ℕ
large_allocation_threshold = 16 * 1024

abbrev pub max_send_buffer_size : ℕ
max_send_buffer_size = 1 * 1024 * 1024

abbrev pub default_pool_idle_limit : ℕ
default_pool_idle_limit = 64
