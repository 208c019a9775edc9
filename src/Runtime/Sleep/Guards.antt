-- ===== src/Runtime/Sleep/Guards.antt =====
-- What the tactics read of a move: its premises, and how it shifts the counts.
use my_utils.Base.{
  ℕ, ◌+◌, ◌%◌, ◌^◌, ◌<◌, ◌≤◌, ◌≡◌, ◌≢◌, true, false, Option, update, add64, total-update, le-total,
  total-le-total, total-le, total, arith,
}
use my_utils.Runtime.Sleep.Defs.{
  Shared, Pc, Move, starts, leaves, polls_injection, polls_deque, submits, skips_notify, signals,
  passes, enters, exits, stays, own_empty, own_taken, injection_empty, injection_taken,
  victim_empty, victim_taken, sleeps, relocks, offers, rings, checking, waiting,
}
use my_utils.Runtime.Sleep.Weights.{
  holds, idles, waits, checks, is_past, looks, owes, signs, Counts, counts,
}

-- The premise of a move, for a clause that does not name it.
abbrev pub Guard : {n i : ℕ} {m m' : Shared} {p p' : Pc} → Move n i m p m' p' → Type 0
Guard {n} {i} {m} (starts _) = m.stopping ≡ false
Guard {n} {i} {m} (leaves _) = m.stopping ≡ true
Guard {n} {i} {m} (polls_injection _) = 0 < m.injection
Guard {n} {i} {m} (polls_deque j _ _) = (j < n) × (0 < m.local j)
Guard {n} {i} {m} (submits _) = m.stopping ≡ false
Guard {n} {i} {m} (skips_notify _) = m.idle_count ≡ 0
Guard {n} {i} {m} (signals _) = m.idle_count ≢ 0
Guard {n} {i} {m} (passes _) = m.locked ≡ false
Guard {n} {i} {m} (enters _) = m.locked ≡ false
Guard {n} {i} {m} (exits _) = m.stopping ≡ true
Guard {n} {i} {m} (stays _) = m.stopping ≡ false
Guard {n} {i} {m} (own_empty _) = m.local i ≡ 0
Guard {n} {i} {m} (own_taken _) = 0 < m.local i
Guard {n} {i} {m} (injection_empty _) = m.injection ≡ 0
Guard {n} {i} {m} (injection_taken _) = 0 < m.injection
Guard {n} {i} {m} (victim_empty {offset = offset} _ _) =
    (offset < n) × (m.local (add64 i offset % n) ≡ 0)
Guard {n} {i} {m} (victim_taken {offset = offset} victim _ _ _) =
    (offset < n) × (victim ≡ add64 i offset % n) × (0 < m.local victim)
Guard {n} {i} {m} (sleeps {offset = offset} _) = n ≤ offset
Guard {n} {i} {m} (relocks _) = m.locked ≡ false
Guard {n} {i} {m} (offers _) = m.stopping ≡ false
Guard {n} {i} {m} (rings _) = m.locked ≡ false
Guard _ = Unit {0}

pub guard : {n i : ℕ} {m m' : Shared} {p p' : Pc} (mv : Move n i m p m' p') → Guard mv
guard (starts a) = a
guard (leaves a) = a
guard (polls_injection a) = a
guard (polls_deque _ a b) = (a, b)
guard (submits a) = a
guard (skips_notify a) = a
guard (signals a) = a
guard (passes a) = a
guard (enters a) = a
guard (exits a) = a
guard (stays a) = a
guard (own_empty a) = a
guard (own_taken a) = a
guard (injection_empty a) = a
guard (injection_taken a) = a
guard (victim_empty a b) = (a, b)
guard (victim_taken _ a b c) = (a, b, c)
guard (sleeps a) = a
guard (relocks a) = a
guard (offers a) = a
guard (rings a) = a
guard _ = tt

-- The counts before and after thread `i` goes from `p` to `p'`.
pub record Shift (n : ℕ) (q : Option ℕ) (i : ℕ) (p p' : Pc) (c d : Counts) : Type 0 where
  pub holders : d.holders + holds p ≡ c.holders + holds p'
  pub idlers : d.idlers + idles p ≡ c.idlers + idles p'
  pub waiters : d.waiters + waits p ≡ c.waiters + waits p'
  pub checkers : d.checkers + checks p ≡ c.checkers + checks p'
  pub past : d.past + is_past n q i p ≡ c.past + is_past n q i p'
  pub lookers : d.lookers + looks n q i p ≡ c.lookers + looks n q i p'
  pub owing : d.owing + owes q i p ≡ c.owing + owes q i p'
  pub signing : d.signing + signs q i p ≡ c.signing + signs q i p'
  pub waiters-le : c.waiters ≤ c.idlers
  pub past-le-idlers : c.past ≤ c.idlers
  pub past-le-holders : c.past ≤ c.holders
  pub held : holds p ≤ c.holders
  pub idle_few : d.idlers < 2 ^ 64

pub waits-le-idles :
    (n k : ℕ) (q : Option ℕ) (pc : ℕ → Pc) → (counts n q k pc).waiters ≤ (counts n q k pc).idlers
waits-le-idles n k q pc = total-le-total (λ i. waits) (λ i. idles) (λ i. below) k pc
  where
    below : (p : Pc) → waits p ≤ idles p
    below waiting = omega arith
    below p = omega arith

past-le-idles :
    (n k : ℕ) (q : Option ℕ) (pc : ℕ → Pc) → (counts n q k pc).past ≤ (counts n q k pc).idlers
past-le-idles n k q pc = total-le-total (is_past n q) (λ i. idles) below k pc
  where
    below : (i : ℕ) (p : Pc) → is_past n q i p ≤ idles p
    below i (checking o) = ground arith
    below i p = omega arith

past-le-holds :
    (n k : ℕ) (q : Option ℕ) (pc : ℕ → Pc) → (counts n q k pc).past ≤ (counts n q k pc).holders
past-le-holds n k q pc = total-le-total (is_past n q) (λ i. holds) below k pc
  where
    below : (i : ℕ) (p : Pc) → is_past n q i p ≤ holds p
    below i (checking o) = ground arith
    below i p = omega arith

idles_few : (k : ℕ) (pc : ℕ → Pc) → k < 2 ^ 64 → total (λ i. idles) k pc < 2 ^ 64
idles_few k pc few = omega (arith, total-le (λ i. idles) (λ i. small) k pc)
  where
    small : (p : Pc) → idles p ≤ 1
    small waiting = omega arith
    small p = omega arith

pub Shift-update :
    (n k : ℕ) (q : Option ℕ) (pc : ℕ → Pc) (i : ℕ) (p' : Pc)
    → k < 2 ^ 64
    → i < k
    → Shift n q i (pc i) p' (counts n q k pc) (counts n q k (update pc i p'))
Shift-update n k q pc i p' few lt = record {
  holders = total-update (λ i. holds) k pc i p' lt;
  idlers = total-update (λ i. idles) k pc i p' lt;
  waiters = total-update (λ i. waits) k pc i p' lt;
  checkers = total-update (λ i. checks) k pc i p' lt;
  past = total-update (is_past n q) k pc i p' lt;
  lookers = total-update (looks n q) k pc i p' lt;
  owing = total-update (owes q) k pc i p' lt;
  signing = total-update (signs q) k pc i p' lt;
  waiters-le = waits-le-idles n k q pc;
  past-le-idlers = past-le-idles n k q pc;
  past-le-holders = past-le-holds n k q pc;
  held = le-total (λ i. holds) k pc i lt;
  idle_few = idles_few k (update pc i p') few;
}
