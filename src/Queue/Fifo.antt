-- ===== src/Queue/Fifo.antt =====
-- A queue that satisfies what is assumed of moodycamel::ConcurrentQueue: a first-in first-out
-- list. It shows that the assumptions can hold, and runs in the tests.
use my_utils.Base.{
  ℕ, ◌+◌, ◌≡◌, refl, Bool, true, false, List, [], ◌∷◌, ◌++◌, Option, none, some, arith, ◌==◌,
  length, ap,
}
use my_utils.Queue.{ConcurrentQueue, IsExact, Shrinks, one_if}

abbrev pub copies : List ℕ → ℕ → ℕ
copies [] y = 0
copies (x ∷ xs) y = copies xs y + one_if (x == y)

abbrev pub dequeue : List ℕ → Option (ℕ × List ℕ)
dequeue [] = none
dequeue (x ∷ xs) = some (x, xs)

pub copies-append :
    (xs : List ℕ) (x y : ℕ) → copies (xs ++ x ∷ []) y ≡ copies xs y + one_if (x == y)
copies-append [] x y = omega arith
copies-append (z ∷ xs) x y = omega (arith, copies-append xs x y)

pub copies-dequeue :
    (q r : List ℕ) (x y : ℕ) → dequeue q ≡ some (x, r) → copies q y ≡ copies r y + one_if (x == y)
copies-dequeue [] r x y e = cc
copies-dequeue (z ∷ q) r x y e = ground arith

pub copies-append_failed :
    (q : List ℕ) (x y : ℕ) → ◌≡◌ {A = Bool} true false → copies (q ++ x ∷ []) y ≡ copies q y
copies-append_failed q x y e = cc

abbrev pub fifo : ConcurrentQueue (List ℕ)
fifo = record {
  empty = [];
  enqueue = λ q x. (q ++ x ∷ [], true);
  try_dequeue = dequeue;
  size_approx = length;
  copies = copies;
  copies-empty = λ y. refl;
  copies-enqueue = λ q x y _. copies-append q x y;
  copies-enqueue_failed = copies-append_failed;
  copies-try_dequeue = copies-dequeue;
}

pub fifo-IsExact : IsExact fifo
fifo-IsExact [] e y = refl
fifo-IsExact (x ∷ xs) e y = cc e

pub length-Shrinks : Shrinks fifo length
length-Shrinks [] r task hit = cc
length-Shrinks (x ∷ xs) r task hit = omega (arith, ap length tail)
  where
    tail : xs ≡ r
    tail = cc hit
