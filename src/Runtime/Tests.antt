-- ===== src/Runtime/Tests.antt =====
-- Two workers with a few tasks in their queues, and the start of the runtime.
use my_utils.Base.{ℕ, zero, suc, ◌≡◌, false, List, [], ◌∷◌, none, length, refl, arith}
use my_utils.Queue.Fifo.{fifo, length-Shrinks}
use my_utils.Runtime.Pool.{
  Pool, acquire_anywhere, pop_local, take_back, take_injected, try_steal, steal_from, or_else,
}
use my_utils.Runtime.Discard.{discard_pending, discard_pending-ends}

abbrev items : ℕ → List ℕ
items zero = 5 ∷ 6 ∷ []
items (suc _) = []

abbrev two_workers : Pool (List ℕ)
two_workers = record {
  injection = 9 ∷ [];
  local = items;
  worker_count = 2;
  idle_count = 1;
  stopping = false;
}

abbrev no_tasks : Pool (List ℕ)
no_tasks = record two_workers { injection = []; local = λ _. [] }

abbrev polled : Pool (List ℕ)
polled = record two_workers { injection = [] }

finds_nothing : acquire_anywhere fifo no_tasks 1 ≡ none
unfolding acquire_anywhere or_else pop_local take_back take_injected try_steal steal_from
finds_nothing = refl

discard_pending-ends_example :
    (discard_pending fifo 3 two_workers ≡ discard_pending fifo 1 two_workers)
    × ((discard_pending fifo 1 two_workers).local 0 ≡ [])
    × (acquire_anywhere fifo (discard_pending fifo 1 two_workers) 0 ≡ none)
discard_pending-ends_example =
    discard_pending-ends fifo length length-Shrinks 1 3 0 two_workers (omega arith) (omega arith)
      (omega arith)
