-- ===== src/Actors/Together/Counting/Accounts.antt =====
-- What counters that count each step at once would say about the messages of all actors.
use my_utils.Base.{
  ℕ, ◌+◌, ◌-◌, ◌%◌, ◌^◌, ◌<◌, ◌≡◌, true, false, [], ◌∷◌, length, length-append, tally, tally-update,
  tally-eq-zero, sum_below-agree, le-tally, update, refl, sym, ap, arith,
}
use my_utils.Queue.{ConcurrentQueue}
use my_utils.Runtime.Stats.{Stats, zero_stats}
use my_utils.Actors.Block.{
  Block, Pc, outside, executing, handling, pushing, reverting, Move, accepts, pops,
}
use my_utils.Actors.Counting.{count, count_schedule}
use my_utils.Actors.Together.{
  Together, Call, Step, initial, turns, goes_on, submits, submit_fails, works, stops_pool, joins,
  discards,
}
use my_utils.Actors.Together.Counting.{count_push, count_together}

-- Inside Handle.
abbrev pub in_handle : Pc → ℕ
in_handle (handling _ _) = 1
in_handle _ = 0

abbrev pub accepted_of : Block → ℕ
accepted_of m = length m.accepted

abbrev pub handed_of : Block → ℕ
handed_of m = length m.handed

abbrev pub handling_of : Call → ℕ
handling_of k = in_handle k.pc

-- A step of one actor, with what the counters hold of the others.
module _ {m : Block} (c : Stats) (others : ℕ) where
  Move-sent :
      {m' : Block} {p p' : Pc} (mv : Move m p m' p')
      → c.send_accepted ≡ (others + accepted_of m) % 2 ^ 64
      → (count mv c).send_accepted ≡ (others + accepted_of m') % 2 ^ 64
  Move-sent (accepts {message} _ _) e = omega (arith, e, length-append m.accepted (message ∷ []))
  Move-sent mv e = ground (arith, e)

  Move-done :
      (inside : ℕ) {m' : Block} {p p' : Pc} (mv : Move m p m' p')
      → (c.messages_handled + c.handler_exception_count + (inside + in_handle p)) % 2 ^ 64
        ≡ (others + handed_of m) % 2 ^ 64
      → ((count mv c).messages_handled
            + (count mv c).handler_exception_count
            + (inside + in_handle p'))
          % 2 ^ 64
        ≡ (others + handed_of m') % 2 ^ 64
  Move-done inside (pops {message = message} _ _ _) e =
      omega (arith, e, length-append m.handed (message ∷ []))
  Move-done inside mv e = omega (arith, e)

pub record Accounts {Q : Type 0} (n actors : ℕ) (s : Together Q) (c : Stats) : Type 0 where
  pub sent : c.send_accepted ≡ tally accepted_of actors s.blocks % 2 ^ 64
  pub done :
      (c.messages_handled + c.handler_exception_count + tally handling_of n s.calls) % 2 ^ 64
      ≡ tally handed_of actors s.blocks % 2 ^ 64

on_call :
    (k : Call) (b : ℕ) (p : Pc) → k ≡ record { actor = b; pc = p } → handling_of k ≡ in_handle p
on_call k b p e = ap handling_of e

module _ {Q : Type 0} {n actors : ℕ} (s : Together Q) (i a : ℕ) (m : Block) (k : Call) (c : Stats)
    (lt : i < n) (known : a < actors) (acc : Accounts n actors s c) where
  -- An access to the queues counts no message.
  queue_step :
      (c' : Stats)
      → accepted_of m ≡ accepted_of (s.blocks a)
      → handed_of m ≡ handed_of (s.blocks a)
      → handling_of k ≡ handling_of (s.calls i)
      → c'.send_accepted ≡ c.send_accepted
      → c'.messages_handled ≡ c.messages_handled
      → c'.handler_exception_count ≡ c.handler_exception_count
      → Accounts n actors (record s { blocks = update s.blocks a m; calls = update s.calls i k }) c'
  queue_step c' w x y e f g = record {
    sent = omega (arith, acc.sent, e, w, tally-update accepted_of actors s.blocks a m known);
    done = omega (
      arith,
      acc.done,
      f,
      g,
      x,
      y,
      tally-update handed_of actors s.blocks a m known,
      tally-update handling_of n s.calls i k lt,
    );
  }

  call_step :
      {p : Pc} (mv : Move (s.blocks a) p m k.pc)
      → handling_of (s.calls i) ≡ in_handle p
      → Accounts n actors
          (record s { blocks = update s.blocks a m; calls = update s.calls i k })
          (count mv c)
  call_step mv stands = record {
    sent = omega (
      arith,
      tally-update accepted_of actors s.blocks a m known,
      le-tally accepted_of actors s.blocks a known,
      Move-sent c (tally accepted_of actors s.blocks - accepted_of (s.blocks a)) mv
          (omega (arith, acc.sent, le-tally accepted_of actors s.blocks a known)),
    );
    done = omega (
      arith,
      tally-update handed_of actors s.blocks a m known,
      le-tally handed_of actors s.blocks a known,
      tally-update handling_of n s.calls i k lt,
      le-tally handling_of n s.calls i lt,
      Move-done c (tally handed_of actors s.blocks - handed_of (s.blocks a))
          (tally handling_of n s.calls - handling_of (s.calls i)) mv
          (omega (
            arith,
            acc.done,
            stands,
            le-tally handed_of actors s.blocks a known,
            le-tally handling_of n s.calls i lt,
          )),
    );
  }

same_handling :
    (f : ℕ → Call) (i a j : ℕ)
    → (f i).pc ≡ outside
    → handling_of (update f i (record { actor = a; pc = outside }) j) ≡ handling_of (f j)
same_handling f i a j out = ground (arith, out)

known_actor :
    (f : ℕ → Call) (i actors : ℕ) (k : Call)
    → ((j : ℕ) → (update f i k j).actor < actors)
    → k.actor < actors
known_actor f i actors k few = ground (arith, few i)

module _ {Q : Type 0} {queue : ConcurrentQueue Q} {n actors : ℕ} where
  pub Step-Accounts :
      {s t : Together Q} (c : Stats) (st : Step queue n s t)
      → ((i : ℕ) → (t.calls i).actor < actors)
      → Accounts n actors s c
      → Accounts n actors t (count_together st c)
  Step-Accounts {s} c (turns i a out) few acc = record {
    sent = acc.sent;
    done = omega (
      arith,
      acc.done,
      sum_below-agree (λ j. handling_of (update s.calls i (record { actor = a; pc = outside }) j))
          (λ j. handling_of (s.calls j)) n (λ j lt. same_handling s.calls i a j out),
    );
  }
  Step-Accounts {s} c (goes_on i a {m = m} {p = p} {p' = p'} lt here mv other) few acc =
      call_step s i a m (record { actor = a; pc = p' }) c lt (known_actor s.calls i actors _ few)
        acc mv (on_call (s.calls i) a p here)
  Step-Accounts {s} c (submits i a self lt here own stored) few acc =
      let acc' =
        queue_step s i a (record (s.blocks a) { queued = (s.blocks a).queued + 1 })
          (record { actor = a; pc = outside }) c lt (known_actor s.calls i actors _ few) acc
          (count_schedule true (count_push self c)) refl refl
          (sym (on_call (s.calls i) a pushing here)) (ground arith) (ground arith) (ground arith) in
      record { sent = acc'.sent; done = acc'.done }
  Step-Accounts {s} c (submit_fails i a self lt here own lost) few acc =
      let acc' =
        queue_step s i a (record (s.blocks a) { refused = true })
          (record { actor = a; pc = reverting }) c lt (known_actor s.calls i actors _ few) acc
          (count_schedule false c) refl refl (sym (on_call (s.calls i) a pushing here)) refl refl
          refl in
      record { sent = acc'.sent; done = acc'.done }
  Step-Accounts {s} c (works i index tick a pool' lt out index_lt free got) few acc =
      let acc' =
        queue_step s i a (record (s.blocks a) { queued = (s.blocks a).queued - 1 })
          (record { actor = a; pc = executing }) c lt (known_actor s.calls i actors _ few) acc c
          refl refl (ap in_handle (sym out)) refl refl refl in
      record { sent = acc'.sent; done = acc'.done }
  Step-Accounts c stops_pool few acc = record { sent = acc.sent; done = acc.done }
  Step-Accounts c (joins stopped quiet) few acc = record { sent = acc.sent; done = acc.done }
  Step-Accounts c (discards rounds over ended) few acc = record { sent = acc.sent; done = acc.done }

pub initial-Accounts :
    {Q : Type 0} {n actors : ℕ} (queue : ConcurrentQueue Q) (worker_count : ℕ)
    → Accounts n actors (initial queue n worker_count) zero_stats
initial-Accounts {n = n} {actors = actors} queue worker_count = record {
  sent =
      omega
        (arith, tally-eq-zero accepted_of actors (initial queue n worker_count).blocks (λ j. refl));
  done = omega (
    arith,
    tally-eq-zero handling_of n (initial queue n worker_count).calls (λ j. refl),
    tally-eq-zero handed_of actors (initial queue n worker_count).blocks (λ j. refl),
  );
}
