-- ===== src/Runtime/Stats.antt =====
-- Runtime::Stats and its AccumulateInto, which the registry of counters is given.
use my_utils.Base.{ℕ, ◌^◌, ◌<◌, ◌≡◌, arith, add64, add64_assoc, add64_right_comm, add64-zero}
use my_utils.Counters.{Accumulate}

pub record Stats : Type 0 where
  pub send_accepted : ℕ
  pub send_rejected : ℕ
  pub schedule_count : ℕ
  pub schedule_aborted_system_stopping : ℕ
  pub run_count : ℕ
  pub messages_handled : ℕ
  pub queue_wait_us_total : ℕ
  pub spawn_count : ℕ
  pub finalize_count : ℕ
  pub handler_exception_count : ℕ
  pub worker_sleep_count : ℕ
  pub local_push_count : ℕ
  pub injection_push_count : ℕ

abbrev pub zero_stats : Stats
zero_stats = record {
  send_accepted = 0;
  send_rejected = 0;
  schedule_count = 0;
  schedule_aborted_system_stopping = 0;
  run_count = 0;
  messages_handled = 0;
  queue_wait_us_total = 0;
  spawn_count = 0;
  finalize_count = 0;
  handler_exception_count = 0;
  worker_sleep_count = 0;
  local_push_count = 0;
  injection_push_count = 0;
}

unfoldable pub accumulate_into : Stats → Stats → Stats
accumulate_into dst src = record {
  send_accepted = add64 dst.send_accepted src.send_accepted;
  send_rejected = add64 dst.send_rejected src.send_rejected;
  schedule_count = add64 dst.schedule_count src.schedule_count;
  schedule_aborted_system_stopping =
      add64 dst.schedule_aborted_system_stopping src.schedule_aborted_system_stopping;
  run_count = add64 dst.run_count src.run_count;
  messages_handled = add64 dst.messages_handled src.messages_handled;
  queue_wait_us_total = add64 dst.queue_wait_us_total src.queue_wait_us_total;
  spawn_count = add64 dst.spawn_count src.spawn_count;
  finalize_count = add64 dst.finalize_count src.finalize_count;
  handler_exception_count = add64 dst.handler_exception_count src.handler_exception_count;
  worker_sleep_count = add64 dst.worker_sleep_count src.worker_sleep_count;
  local_push_count = add64 dst.local_push_count src.local_push_count;
  injection_push_count = add64 dst.injection_push_count src.injection_push_count;
}

pub record AreWords (s : Stats) : Type 0 where
  pub send_accepted : s.send_accepted < 2 ^ 64
  pub send_rejected : s.send_rejected < 2 ^ 64
  pub schedule_count : s.schedule_count < 2 ^ 64
  pub schedule_aborted_system_stopping : s.schedule_aborted_system_stopping < 2 ^ 64
  pub run_count : s.run_count < 2 ^ 64
  pub messages_handled : s.messages_handled < 2 ^ 64
  pub queue_wait_us_total : s.queue_wait_us_total < 2 ^ 64
  pub spawn_count : s.spawn_count < 2 ^ 64
  pub finalize_count : s.finalize_count < 2 ^ 64
  pub handler_exception_count : s.handler_exception_count < 2 ^ 64
  pub worker_sleep_count : s.worker_sleep_count < 2 ^ 64
  pub local_push_count : s.local_push_count < 2 ^ 64
  pub injection_push_count : s.injection_push_count < 2 ^ 64

pub accumulate_into-right_comm :
    (t a b : Stats)
    → accumulate_into (accumulate_into t a) b ≡ accumulate_into (accumulate_into t b) a
unfolding accumulate_into
accumulate_into-right_comm t a b = λ i. record {
  send_accepted = add64_right_comm t.send_accepted a.send_accepted b.send_accepted i;
  send_rejected = add64_right_comm t.send_rejected a.send_rejected b.send_rejected i;
  schedule_count = add64_right_comm t.schedule_count a.schedule_count b.schedule_count i;
  schedule_aborted_system_stopping =
      add64_right_comm t.schedule_aborted_system_stopping a.schedule_aborted_system_stopping
        b.schedule_aborted_system_stopping i;
  run_count = add64_right_comm t.run_count a.run_count b.run_count i;
  messages_handled = add64_right_comm t.messages_handled a.messages_handled b.messages_handled i;
  queue_wait_us_total =
      add64_right_comm t.queue_wait_us_total a.queue_wait_us_total b.queue_wait_us_total i;
  spawn_count = add64_right_comm t.spawn_count a.spawn_count b.spawn_count i;
  finalize_count = add64_right_comm t.finalize_count a.finalize_count b.finalize_count i;
  handler_exception_count =
      add64_right_comm t.handler_exception_count a.handler_exception_count b.handler_exception_count
        i;
  worker_sleep_count =
      add64_right_comm t.worker_sleep_count a.worker_sleep_count b.worker_sleep_count i;
  local_push_count = add64_right_comm t.local_push_count a.local_push_count b.local_push_count i;
  injection_push_count =
      add64_right_comm t.injection_push_count a.injection_push_count b.injection_push_count i;
}

pub accumulate_into_assoc :
    (t a b : Stats)
    → accumulate_into (accumulate_into t a) b ≡ accumulate_into t (accumulate_into a b)
unfolding accumulate_into
accumulate_into_assoc t a b = λ i. record {
  send_accepted = add64_assoc t.send_accepted a.send_accepted b.send_accepted i;
  send_rejected = add64_assoc t.send_rejected a.send_rejected b.send_rejected i;
  schedule_count = add64_assoc t.schedule_count a.schedule_count b.schedule_count i;
  schedule_aborted_system_stopping =
      add64_assoc t.schedule_aborted_system_stopping a.schedule_aborted_system_stopping
        b.schedule_aborted_system_stopping i;
  run_count = add64_assoc t.run_count a.run_count b.run_count i;
  messages_handled = add64_assoc t.messages_handled a.messages_handled b.messages_handled i;
  queue_wait_us_total =
      add64_assoc t.queue_wait_us_total a.queue_wait_us_total b.queue_wait_us_total i;
  spawn_count = add64_assoc t.spawn_count a.spawn_count b.spawn_count i;
  finalize_count = add64_assoc t.finalize_count a.finalize_count b.finalize_count i;
  handler_exception_count =
      add64_assoc t.handler_exception_count a.handler_exception_count b.handler_exception_count i;
  worker_sleep_count = add64_assoc t.worker_sleep_count a.worker_sleep_count b.worker_sleep_count i;
  local_push_count = add64_assoc t.local_push_count a.local_push_count b.local_push_count i;
  injection_push_count =
      add64_assoc t.injection_push_count a.injection_push_count b.injection_push_count i;
}

pub accumulate_into-zero : (t : Stats) → AreWords t → accumulate_into t zero_stats ≡ t
unfolding accumulate_into
accumulate_into-zero t h = λ i. record {
  send_accepted = add64-zero t.send_accepted h.send_accepted i;
  send_rejected = add64-zero t.send_rejected h.send_rejected i;
  schedule_count = add64-zero t.schedule_count h.schedule_count i;
  schedule_aborted_system_stopping =
      add64-zero t.schedule_aborted_system_stopping h.schedule_aborted_system_stopping i;
  run_count = add64-zero t.run_count h.run_count i;
  messages_handled = add64-zero t.messages_handled h.messages_handled i;
  queue_wait_us_total = add64-zero t.queue_wait_us_total h.queue_wait_us_total i;
  spawn_count = add64-zero t.spawn_count h.spawn_count i;
  finalize_count = add64-zero t.finalize_count h.finalize_count i;
  handler_exception_count = add64-zero t.handler_exception_count h.handler_exception_count i;
  worker_sleep_count = add64-zero t.worker_sleep_count h.worker_sleep_count i;
  local_push_count = add64-zero t.local_push_count h.local_push_count i;
  injection_push_count = add64-zero t.injection_push_count h.injection_push_count i;
}

pub accumulate_into-AreWords : (t a : Stats) → AreWords (accumulate_into t a)
unfolding accumulate_into
accumulate_into-AreWords t a = omega arith

abbrev pub runtime_counters : Accumulate Stats
runtime_counters = record {
  zero_block = zero_stats;
  accumulate_into = accumulate_into;
  AreWords = AreWords;
  accumulate_into_assoc = accumulate_into_assoc;
  accumulate_into-right_comm = accumulate_into-right_comm;
  accumulate_into-zero = accumulate_into-zero;
  accumulate_into-AreWords = accumulate_into-AreWords;
}
