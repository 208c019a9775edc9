-- ===== src/Queue.antt =====
-- moodycamel::ConcurrentQueue, which the sources call and do not hold: a parameter of the model.
-- A queue of pointers is seen through the number of copies of each pointer that it stores; the
-- order of its elements is left open, as the library leaves it open between producers.
pub mod Fifo
use my_utils.Base.{ℕ, ◌+◌, ◌<◌, ◌≡◌, Bool, true, false, Option, none, some, ◌==◌, if◌then◌else◌}

abbrev pub one_if : Bool → ℕ
one_if b = if b then 1 else 0

-- The calls that the sources make, with what the documentation says of each: a successful
-- `enqueue` adds one copy, a failed one changes nothing, a successful `try_dequeue` takes one
-- copy out. A `try_dequeue` that fails leaves the queue as it is.
pub record ConcurrentQueue (Q : Type 0) : Type 0 where
  pub empty : Q
  pub enqueue : Q → ℕ → Q × Bool
  pub try_dequeue : Q → Option (ℕ × Q)
  pub size_approx : Q → ℕ
  pub copies : Q → ℕ → ℕ
  pub copies-empty : (y : ℕ) → copies empty y ≡ 0
  pub copies-enqueue :
      (q : Q) (x y : ℕ)
      → (enqueue q x).1 ≡ true
      → copies (enqueue q x).0 y ≡ copies q y + one_if (x == y)
  pub copies-enqueue_failed :
      (q : Q) (x y : ℕ) → (enqueue q x).1 ≡ false → copies (enqueue q x).0 y ≡ copies q y
  pub copies-try_dequeue :
      (q r : Q) (x y : ℕ) → try_dequeue q ≡ some (x, r) → copies q y ≡ copies r y + one_if (x == y)

module _ {Q : Type 0} (queue : ConcurrentQueue Q) where
  -- A `try_dequeue` that fails while nobody else uses the queue has found it empty.
  abbrev pub IsExact : Type 0
  IsExact = (q : Q) → queue.try_dequeue q ≡ none → (y : ℕ) → queue.copies q y ≡ 0

  -- A queue stores finitely many elements: a `try_dequeue` that succeeds leaves fewer than there were.
  abbrev pub Shrinks : (Q → ℕ) → Type 0
  Shrinks size = (q r : Q) (x : ℕ) → queue.try_dequeue q ≡ some (x, r) → size r < size q
