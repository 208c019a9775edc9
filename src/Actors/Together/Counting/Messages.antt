-- ===== src/Actors/Together/Counting/Messages.antt =====
-- The messages of all actors, in the counters of all threads.
use my_utils.Base.{
  ℕ, ◌+◌, ◌%◌, ◌^◌, ◌≡◌, ◌++◌, List, [], length, length-append, tally, tally-split, sum_below-agree,
  refl, ap, arith,
}
use my_utils.Queue.{ConcurrentQueue, IsExact}
use my_utils.Runtime.Stats.{Stats}
use my_utils.Actors.Block.{Block}
use my_utils.Actors.Together.{Together}
use my_utils.Actors.Safety.{messages_in_order}
use my_utils.Actors.Together.Projection.{actors_run_alone}
use my_utils.Actors.Together.Counting.{Counted}
use my_utils.Actors.Together.Counting.Accounts.{accepted_of, handed_of, handling_of, Accounts}
use my_utils.Actors.Together.Counting.Delayed.{Counted-Reach, Counted-Accounts}

-- The messages of an actor that wait in its mailbox or that Finalize dropped.
abbrev pub unhandled_of : Block → ℕ
unhandled_of m = length m.mailbox + length m.dropped

-- In every pool with many actors that is reached, of a program that numbers its actors below a bound,
-- where each call has counted what it did, which a call does later than the step that it counts, the
-- messages that all threads count as accepted are the ones that they count as handled or as thrown
-- by a handler, with the ones inside Handle, and those of all actors in the mailbox or dropped by
-- Finalize, modulo 2 ^ 64.
-- A try_dequeue that fails while nobody else uses the queue has found it empty.
pub all_messages_accounted :
    {Q : Type 0} {queue : ConcurrentQueue Q} {n worker_count actors : ℕ} {s : Together Q}
    {waiting : ℕ → List Stats} {c : Stats}
    → IsExact queue
    → Counted queue n worker_count actors s waiting c
    → ((i : ℕ) → waiting i ≡ [])
    → c.send_accepted
      ≡ (c.messages_handled
          + c.handler_exception_count
          + tally handling_of n s.calls
          + tally unhandled_of actors s.blocks)
        % 2 ^ 64
all_messages_accounted {n = n} {actors = actors} {s = s} {c = c} exact r none_waits = omega (
  arith,
  acc.sent,
  acc.done,
  sum_below-agree (λ a. accepted_of (s.blocks a))
      (λ a. handed_of (s.blocks a) + unhandled_of (s.blocks a)) actors (λ a lt. parts a),
  tally-split (λ m. handed_of m + unhandled_of m) handed_of unhandled_of (λ m. refl) actors
      s.blocks,
)
  where
    acc : Accounts n actors s c
    acc = Counted-Accounts r none_waits

    parts : (a : ℕ) → accepted_of (s.blocks a) ≡ handed_of (s.blocks a) + unhandled_of (s.blocks a)
    parts a = omega (
      arith,
      ap length (messages_in_order (actors_run_alone exact (Counted-Reach r) a).0).0,
      length-append (s.blocks a).handed ((s.blocks a).mailbox ++ (s.blocks a).dropped),
      length-append (s.blocks a).mailbox (s.blocks a).dropped,
    )
