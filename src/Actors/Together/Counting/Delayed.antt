-- ===== src/Actors/Together/Counting/Delayed.antt =====
-- Counters that trail behind the steps: with what the calls have still to count, they are the ones
-- that count each step at once.
use my_utils.Base.{
  ℕ, ◌+◌, ◌%◌, ◌^◌, ◌<◌, ◌≡◌, true, false, List, [], ◌∷◌, tally, tally-update, tally-eq-zero,
  update, refl, ap, add64, arith,
}
use my_utils.Queue.{ConcurrentQueue}
use my_utils.Runtime.Pool.{WorkerIdentity}
use my_utils.Runtime.Stats.{Stats, zero_stats, accumulate_into}
use my_utils.Actors.Block.{Block, Pc, Move, accepts}
use my_utils.Actors.Counting.{count, count_schedule, counts_later}
use my_utils.Actors.Together.{
  Together, Step, initial, Reach, turns, goes_on, submits, submit_fails, works, stops_pool, joins,
  discards,
}
use my_utils.Actors.Together
use my_utils.Actors.Together.Counting.{
  count_push, count_together, to_count, HasCounted, Counted, at_start, then_step, then_count,
}
use my_utils.Actors.Together.Counting.Accounts.{Accounts, Step-Accounts, initial-Accounts}

-- What a list of counts adds to one counter.
abbrev pub added : (Stats → ℕ) → List Stats → ℕ
added field [] = 0
added field (d ∷ ds) = field d + added field ds

-- A counter of messages, and its value where each step is counted at once.
abbrev Trails : (Stats → ℕ) → ℕ → (ℕ → List Stats) → Stats → Stats → Type 0
Trails field n waiting c e = field e ≡ (field c + tally (added field) n waiting) % 2 ^ 64

-- The counters that the accounts of the messages speak of.
record Trailing (n : ℕ) (waiting : ℕ → List Stats) (c e : Stats) : Type 0 where
  word : c.send_accepted < 2 ^ 64
  sent : Trails (λ d. d.send_accepted) n waiting c e
  handled : Trails (λ d. d.messages_handled) n waiting c e
  thrown : Trails (λ d. d.handler_exception_count) n waiting c e

nothing_added :
    (n : ℕ) (waiting : ℕ → List Stats)
    → ((i : ℕ) → waiting i ≡ [])
    → (field : Stats → ℕ) → (tally (added field) n waiting ≡ 0)
nothing_added n waiting none_waits field =
    tally-eq-zero (added field) n waiting (λ i. ap (added field) (none_waits i))

-- What one step adds at once and later.
abbrev Splits : (Stats → ℕ) → List Stats → Stats → Stats → Type 0
Splits field ds e e' = field e < 2 ^ 64 → field e' ≡ (field e + added field ds) % 2 ^ 64

record Split (ds : List Stats) (e e' : Stats) : Type 0 where
  sent : Splits (λ d. d.send_accepted) ds e e'
  handled : Splits (λ d. d.messages_handled) ds e e'
  thrown : Splits (λ d. d.handler_exception_count) ds e e'

Move-Split :
    {m m' : Block} {p p' : Pc} (mv : Move m p m' p') (e : Stats)
    → Split (counts_later mv) e (count mv e)
Move-Split (accepts _ _) e = ground arith
Move-Split mv e = ground arith

submits-Split :
    (self : WorkerIdentity) (e : Stats)
    → Split
        (count_push self zero_stats ∷ (count_schedule true zero_stats ∷ []))
        e
        (count_schedule true (count_push self e))
submits-Split self e = ground arith

submit_fails-Split :
    (e : Stats) → Split (count_schedule false zero_stats ∷ []) e (count_schedule false e)
submit_fails-Split e = ground arith

module _ (n : ℕ) (waiting : ℕ → List Stats) (i : ℕ) (lt : i < n) where
  Trails-wait :
      (field : Stats → ℕ) (ds : List Stats) (c e e' : Stats)
      → waiting i ≡ []
      → Splits field ds e e'
      → Trails field n waiting c e
      → Trails field n (update waiting i ds) c e'
  Trails-wait field ds c e e' empty splits trails = omega (
    arith,
    splits (omega (arith, trails)),
    trails,
    tally-update (added field) n waiting i ds lt,
    ap (added field) empty,
  )

  Trailing-wait :
      (ds : List Stats) (c e e' : Stats)
      → waiting i ≡ []
      → Split ds e e'
      → Trailing n waiting c e
      → Trailing n (update waiting i ds) c e'
  Trailing-wait ds c e e' empty split trailing = record {
    word = trailing.word;
    sent = Trails-wait (λ d. d.send_accepted) ds c e e' empty split.sent trailing.sent;
    handled = Trails-wait (λ d. d.messages_handled) ds c e e' empty split.handled trailing.handled;
    thrown =
        Trails-wait (λ d. d.handler_exception_count) ds c e e' empty split.thrown trailing.thrown;
  }

  Trails-count :
      (field : Stats → ℕ) (ds : List Stats) (c d e : Stats)
      → waiting i ≡ d ∷ ds
      → field (accumulate_into c d) ≡ add64 (field c) (field d)
      → Trails field n waiting c e
      → Trails field n (update waiting i ds) (accumulate_into c d) e
  Trails-count field ds c d e first adds trails =
      omega
        (arith, adds, trails, tally-update (added field) n waiting i ds lt, ap (added field) first)

  Trailing-count :
      (ds : List Stats) (c d e : Stats)
      → waiting i ≡ d ∷ ds
      → Trailing n waiting c e
      → Trailing n (update waiting i ds) (accumulate_into c d) e
  unfolding accumulate_into
  Trailing-count ds c d e first trailing = record {
    word = omega arith;
    sent = Trails-count (λ d. d.send_accepted) ds c d e first refl trailing.sent;
    handled = Trails-count (λ d. d.messages_handled) ds c d e first refl trailing.handled;
    thrown = Trails-count (λ d. d.handler_exception_count) ds c d e first refl trailing.thrown;
  }

module _ {Q : Type 0} {queue : ConcurrentQueue Q} {n : ℕ} where
  Step-Trailing :
      {s t : Together Q} (st : Step queue n s t) (waiting : ℕ → List Stats) (c e : Stats)
      → HasCounted st waiting
      → Trailing n waiting c e
      → Trailing n (to_count st waiting) c (count_together st e)
  Step-Trailing (turns i a out) waiting c e empty trailing = trailing
  Step-Trailing (goes_on i a lt here mv other) waiting c e empty trailing =
      Trailing-wait n waiting i lt _ c e _ empty (Move-Split mv e) trailing
  Step-Trailing (submits i a self lt here own stored) waiting c e empty trailing =
      Trailing-wait n waiting i lt _ c e _ empty (submits-Split self e) trailing
  Step-Trailing (submit_fails i a self lt here own lost) waiting c e empty trailing =
      Trailing-wait n waiting i lt _ c e _ empty (submit_fails-Split e) trailing
  Step-Trailing (works i index tick a pool' lt out index_lt free got) waiting c e empty trailing =
      trailing
  Step-Trailing stops_pool waiting c e empty trailing = trailing
  Step-Trailing (joins over quiet) waiting c e empty trailing = trailing
  Step-Trailing (discards rounds over ended) waiting c e empty trailing = trailing

  pub Counted-Reach :
      {worker_count actors : ℕ} {s : Together Q} {waiting : ℕ → List Stats} {c : Stats}
      → Counted queue n worker_count actors s waiting c
      → Reach queue n worker_count s
  Counted-Reach at_start = Together.at_start
  Counted-Reach (then_step r st idle few) = Together.then_step (Counted-Reach r) st
  Counted-Reach (then_count r i lt first) = Counted-Reach r

  Counted-Trailing :
      {worker_count actors : ℕ} {s : Together Q} {waiting : ℕ → List Stats} {c : Stats}
      → Counted queue n worker_count actors s waiting c
      → (e : Stats) × Accounts n actors s e × Trailing n waiting c e
  Counted-Trailing {worker_count} at_start = (
    zero_stats,
    initial-Accounts queue worker_count,
    record {
      word = omega arith;
      sent = starts (λ d. d.send_accepted) refl;
      handled = starts (λ d. d.messages_handled) refl;
      thrown = starts (λ d. d.handler_exception_count) refl;
    },
  )
    where
      starts :
          (field : Stats → ℕ)
          → field zero_stats ≡ 0
          → Trails field n (λ _. []) zero_stats zero_stats
      starts field z = omega (arith, z, nothing_added n (λ _. []) (λ i. refl) field)
  Counted-Trailing (then_step {waiting = waiting} {c = c} r st idle few) =
      let (e, acc, trailing) = Counted-Trailing r in
      (count_together st e, Step-Accounts e st few acc, Step-Trailing st waiting c e idle trailing)
  Counted-Trailing (then_count {waiting = waiting} {c = c} {d = d} {ds = ds} r i lt first) =
      let (e, acc, trailing) = Counted-Trailing r in
      (e, acc, Trailing-count n waiting i lt ds c d e first trailing)

  -- Where no call has still to count, the counters are as if each step were counted at once.
  pub Counted-Accounts :
      {worker_count actors : ℕ} {s : Together Q} {waiting : ℕ → List Stats} {c : Stats}
      → Counted queue n worker_count actors s waiting c
      → ((i : ℕ) → waiting i ≡ [])
      → Accounts n actors s c
  Counted-Accounts {waiting = waiting} r none_waits =
      let (e, acc, trailing) = Counted-Trailing r in
      record {
        sent = omega (
          arith,
          acc.sent,
          trailing.sent,
          trailing.word,
          nothing_added n waiting none_waits (λ d. d.send_accepted),
        );
        done = omega (
          arith,
          acc.done,
          trailing.handled,
          trailing.thrown,
          nothing_added n waiting none_waits (λ d. d.messages_handled),
          nothing_added n waiting none_waits (λ d. d.handler_exception_count),
        );
      }
