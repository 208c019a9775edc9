-- ===== src/SendBuffer/Ledger/Cells.antt =====
-- The ledger through the operations on the chunks.
use my_utils.Base.{
  ℕ, ◌^◌, ◌<◌, ◌≡◌, ◌≢◌, refl, true, false, Option, none, some, arith, update, tally-update,
  tally-append,
}
use my_utils.Queue.{ConcurrentQueue}
use my_utils.SendBuffer.Memory.{Memory, Cell, plain, with_chunk, delete_chunk}
use my_utils.SendBuffer.Invariant.Acquire.{IsSpare}
use my_utils.SendBuffer.Ledger.{Ledger, lives, live_bytes}

lives_one : (k : Cell) → k.alive ≡ true → lives k ≡ 1
lives_one k h = ground arith

lives_zero : (k : Cell) → k.alive ≡ false → lives k ≡ 0
lives_zero k h = ground arith

bytes_all : (k : Cell) → k.alive ≡ true → live_bytes k ≡ k.chunk.capacity
bytes_all k h = ground arith

bytes_zero : (k : Cell) → k.alive ≡ false → live_bytes k ≡ 0
bytes_zero k h = ground arith

module _ {Q : Type 0} {queue : ConcurrentQueue Q} {loose : Option ℕ} {m : Memory Q}
    (led : Ledger queue loose m) where
  alive-lt-next : (c : ℕ) → (m.cells c).alive ≡ true → c < m.next
  alive-lt-next c h = ground (arith, led.fresh c)

  -- A cell that lives may change in all but its size.
  pub set_cell-Ledger :
      (c : ℕ) (k : Cell) (loose' : Option ℕ)
      → (m.cells c).alive ≡ true
      → k.alive ≡ true
      → k.chunk.capacity ≡ (m.cells c).chunk.capacity
      → queue.copies m.idle c ≡ 0
      → (k.refs ≡ 0 → loose' ≡ some c)
      → ((d : ℕ) → d ≢ c → loose' ≢ some d → loose ≢ some d)
      → Ledger queue loose' (record m { cells = update m.cells c k })
  set_cell-Ledger c k loose' old new size free mark others = record {
    fresh = λ d h. ground (arith, led.fresh d);
    held_alive = λ d h. ground (arith, led.held_alive d);
    idle_once = led.idle_once;
    idle_free = λ d h. ground (arith, led.idle_free d);
    kept = λ d h z ne. ground (arith, led.kept d, others d, mark);
    small = λ d h. ground (arith, led.small d);
    count_exact = omega (
      arith,
      led.count_exact,
      tally-update lives m.next m.cells c k (alive-lt-next c old),
      lives_one (m.cells c) old,
      lives_one k new,
    );
    bytes_exact = omega (
      arith,
      led.bytes_exact,
      tally-update live_bytes m.next m.cells c k (alive-lt-next c old),
      bytes_all (m.cells c) old,
      bytes_all k new,
      size,
    );
  }

  pub delete_chunk-Ledger :
      (c : ℕ)
      → IsSpare queue m c
      → ((d : ℕ) → d ≢ c → loose ≢ some d)
      → Ledger queue none (delete_chunk c m)
  unfolding delete_chunk
  delete_chunk-Ledger c spare others = record {
    fresh = λ d h. ground (arith, led.fresh d);
    held_alive = λ d h. ground (arith, led.held_alive d, spare.unheld);
    idle_once = led.idle_once;
    idle_free = λ d h. ground (arith, led.idle_free d, spare.not_idle);
    kept = λ d h z ne. ground (arith, led.kept d, others d);
    small = λ d h. ground (arith, led.small d);
    count_exact = omega (
      arith,
      led.count_exact,
      tally-update lives m.next m.cells c gone (alive-lt-next c spare.alive),
      lives_one (m.cells c) spare.alive,
      lives_zero gone refl,
    );
    bytes_exact = omega (
      arith,
      led.bytes_exact,
      led.small c spare.alive,
      tally-update live_bytes m.next m.cells c gone (alive-lt-next c spare.alive),
      bytes_all (m.cells c) spare.alive,
      bytes_zero gone refl,
    );
  }
    where
      gone : Cell
      gone = record (m.cells c) { alive = false }

  pub with_chunk-Ledger :
      (capacity : ℕ)
      → capacity < 2 ^ 64
      → loose ≡ none
      → Ledger queue (some m.next) (with_chunk capacity m)
  with_chunk-Ledger capacity few none_loose = record {
    fresh = λ d h. ground (arith, led.fresh d);
    held_alive = λ d h. ground (arith, led.held_alive d);
    idle_once = led.idle_once;
    idle_free = λ d h. ground (arith, led.idle_free d, led.fresh m.next);
    kept = λ d h z ne. ground (arith, led.kept d);
    small = λ d h. ground (arith, led.small d);
    count_exact = omega (arith, led.count_exact, tally-append lives m.next m.cells made);
    bytes_exact = omega (arith, led.bytes_exact, tally-append live_bytes m.next m.cells made);
  }
    where
      made : Cell
      made = record {
        chunk = record { capacity = capacity; offset = 0 };
        refs = 0;
        deleter = plain;
        alive = true;
      }

  pub next_unheld : (m.cells m.next).refs ≡ 0
  next_unheld = ground (arith, led.held_alive m.next, led.fresh m.next)

  pub fresh-IsSpare : (capacity : ℕ) → IsSpare queue (with_chunk capacity m) m.next
  fresh-IsSpare capacity = record {
    unheld = ground arith;
    alive = ground arith;
    not_idle = ground (arith, led.idle_free m.next, led.fresh m.next);
  }

  pub dequeue-Ledger :
      (c : ℕ) (rest : Q)
      → loose ≡ none
      → queue.try_dequeue m.idle ≡ some (c, rest)
      → Ledger queue (some c) (record m { idle = rest })
        × IsSpare queue (record m { idle = rest }) c
  dequeue-Ledger c rest none_loose hit = (
    record {
      fresh = led.fresh;
      held_alive = led.held_alive;
      idle_once =
          λ d. ground (arith, led.idle_once d, queue.copies-try_dequeue m.idle rest c d hit);
      idle_free =
          λ d h. ground (arith, led.idle_free d, queue.copies-try_dequeue m.idle rest c d hit);
      kept = λ d h z ne. ground (arith, led.kept d, queue.copies-try_dequeue m.idle rest c d hit);
      small = led.small;
      count_exact = led.count_exact;
      bytes_exact = led.bytes_exact;
    },
    record {
      unheld = (led.idle_free c taken).0;
      alive = (led.idle_free c taken).1;
      not_idle = ground (arith, queue.copies-try_dequeue m.idle rest c c hit, led.idle_once c);
    },
  )
    where
      taken : 0 < queue.copies m.idle c
      taken = ground (arith, queue.copies-try_dequeue m.idle rest c c hit)

  pub enqueue-Ledger :
      (c : ℕ)
      → IsSpare queue m c
      → ((d : ℕ) → d ≢ c → loose ≢ some d)
      → (queue.enqueue m.idle c).1 ≡ true
      → Ledger queue none (record m { idle = (queue.enqueue m.idle c).0 })
  enqueue-Ledger c spare others stored = record {
    fresh = led.fresh;
    held_alive = led.held_alive;
    idle_once = λ d.
        ground (arith, led.idle_once d, spare.not_idle, queue.copies-enqueue m.idle c d stored);
    idle_free =
        λ d h. ground (arith, led.idle_free d, spare, queue.copies-enqueue m.idle c d stored);
    kept = λ d h z ne. ground (arith, led.kept d, others d, queue.copies-enqueue m.idle c d stored);
    small = led.small;
    count_exact = led.count_exact;
    bytes_exact = led.bytes_exact;
  }

  pub requeue-Ledger :
      (q : Q)
      → ((d : ℕ) → queue.copies q d ≡ queue.copies m.idle d)
      → Ledger queue loose (record m { idle = q })
  requeue-Ledger q same = record {
    fresh = led.fresh;
    held_alive = led.held_alive;
    idle_once = λ d. omega (arith, led.idle_once d, same d);
    idle_free = λ d h. led.idle_free d (omega (arith, same d));
    kept = λ d h z ne. omega (arith, led.kept d h z ne, same d);
    small = led.small;
    count_exact = led.count_exact;
    bytes_exact = led.bytes_exact;
  }
