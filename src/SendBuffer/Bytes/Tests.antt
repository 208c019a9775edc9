-- ===== src/SendBuffer/Bytes/Tests.antt =====
-- Bytes that are written through two buffers of one chunk, before and after a Commit.
use my_utils.Base.{ℕ, ◌≡◌, some, List, refl, arith}
use my_utils.Queue.Fifo.{fifo}
use my_utils.SendBuffer.Buffer.{
  Caller, SendBuffer, SendView, empty_buffer, empty_view, commit, writable_data,
}
use my_utils.SendBuffer.Memory.{release_ref}
use my_utils.SendBuffer.World.{buffer, view, caller, after, place}
use my_utils.SendBuffer.Tests.{get, reserve_all, two_buffers, two_buffers-Reach, first, second}
use my_utils.SendBuffer.Bytes.{Stored, write, read_view, no_step, then_write}
use my_utils.SendBuffer.Bytes.Laws.{written_bytes_arrive}

abbrev blank : Stored (List ℕ)
blank = record { world = two_buffers; bytes = λ _ _. 0 }

abbrev committing : Caller (List ℕ) × SendBuffer × SendView
committing =
    get (caller two_buffers 0 (some 0), empty_buffer, empty_view)
      (commit fifo (caller two_buffers 0 (some 0)) first 10)

-- 42 at index 3 of the first buffer, and 7 at index 0 of the second one.
abbrev filled : Stored (List ℕ)
filled = record blank { bytes = write (write blank.bytes 0 3 42) 0 100 7 }

abbrev committed : Stored (List ℕ)
committed = record filled {
  world =
      place (place (after two_buffers 0 committing.0) 1 (buffer committing.1)) 3
        (view committing.2);
}

-- 8 at index 1 of the second buffer, after the Commit.
abbrev refilled : Stored (List ℕ)
refilled = record committed { bytes = write committed.bytes 0 101 8 }

written_bytes_arrive_example : read_view refilled.bytes committing.2 3 ≡ some 42
unfolding reserve_all commit writable_data release_ref
written_bytes_arrive_example =
    written_bytes_arrive blank filled refilled 0 1 3 3 42 10 (some 0) first committing.1
      committing.0 committing.2 0 0 two_buffers-Reach refl refl
      (then_write 2 0 7 second no_step (omega arith) refl refl (omega arith)) (omega arith)
      (omega arith) (omega arith) refl refl refl
      (then_write 2 1 8 second no_step (omega arith) refl refl (omega arith)) (omega arith)
