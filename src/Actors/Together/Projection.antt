-- ===== src/Actors/Together/Projection.antt =====
-- What one actor sees of a pool with many actors, as a system of Actors/System.antt.
use my_utils.Base.{
  ℕ, ◌<◌, ◌≤◌, ◌≡◌, ◌≢◌, ◌⊎◌, inl, inr, ◌==◌, if◌then◌else◌, update, total-eq-zero, ℕ_discrete,
  fun_ext, sym, ap, ◌∙◌, subst, arith,
}
use my_utils.Queue.{ConcurrentQueue, IsExact, one_if}
use my_utils.Runtime.Conservation.{copies_in, search-conserves}
use my_utils.Actors.Block.{Block, Pc, outside, Move, takes, pushes, push_fails}
use my_utils.Actors.System
use my_utils.Actors.System.{System, is_executing, spawned, pick}
use my_utils.Actors.Safety.{queued_once}
use my_utils.Actors.Together.{
  Together, Call, moved, Step, initial, Reach, at_start, then_step, turns, goes_on, submits,
  submit_fails, works, stops_pool, joins, discards,
}
use my_utils.Actors.Together.Queues.{Coupled, Reach-Coupled}

-- Where a call stands for the actor `a`.
abbrev pub pc_on : ℕ → Call → Pc
pc_on a c = if c.actor == a then c.pc else outside

-- The actor `a` and the calls on it.
abbrev pub project : {Q : Type 0} → ℕ → Together Q → System
project a s = record { block = s.blocks a; pc = λ i. pc_on a (s.calls i) }

module _ {Q : Type 0} (s : Together Q) (n i b : ℕ) (lt : i < n) {m : Block} {p' : Pc}
    (mv : Move (s.blocks b) (pc_on b (s.calls i)) m p') where
  project-moved :
      project b (moved s i b m p') ≡ record { block = m; pc = update (project b s).pc i p' }
  project-moved = λ k. record { block = here k; pc = fun_ext elsewhere k }
    where
      here : (moved s i b m p').blocks b ≡ m
      here = ground arith

      elsewhere : (j : ℕ) → pc_on b ((moved s i b m p').calls j) ≡ update (project b s).pc i p' j
      elsewhere j = ground arith

  project-elsewhere :
      (a : ℕ)
      → a ≢ b
      → ((s.calls i).actor ≡ b) ⊎ ((s.calls i).pc ≡ outside)
      → project a (moved s i b m p') ≡ project a s
  project-elsewhere a other before = λ k. record { block = same k; pc = fun_ext pcs k }
    where
      same : (moved s i b m p').blocks a ≡ s.blocks a
      same = ground arith

      pcs : (j : ℕ) → pc_on a ((moved s i b m p').calls j) ≡ pc_on a (s.calls j)
      pcs j = ground (arith, before)

  -- A move on one actor is a step of that actor, and nothing to the others.
  moved-Reach :
      (a : ℕ)
      → ((s.calls i).actor ≡ b) ⊎ ((s.calls i).pc ≡ outside)
      → System.Reach n (project a s)
      → System.Reach n (project a (moved s i b m p'))
  moved-Reach a before r = elim (ℕ_discrete a b) [
    | no other ↦ subst (System.Reach n) (sym (project-elsewhere a other before)) r
    | yes own ↦
        subst (λ c. System.Reach n (project c (moved s i b m p'))) (sym own)
          (subst (System.Reach n) (sym project-moved)
            (System.then_step (subst (λ c. System.Reach n (project c s)) own r) (pick i lt mv)))
  ]

one_if_same : (b : ℕ) → one_if (b == b) ≡ 1
one_if_same b = ground arith

on_its_actor : (c : Call) (b : ℕ) (p : Pc) → c ≡ record { actor = b; pc = p } → pc_on b c ≡ p
on_its_actor c b p e = ground (arith, e)

on_no_actor : (c : Call) (b : ℕ) → c.pc ≡ outside → pc_on b c ≡ outside
on_no_actor c b e = ground (arith, e)

module _ {Q : Type 0} (s : Together Q) (n i b : ℕ) {m : Block} {p p' : Pc} (lt : i < n) where
  -- A call on `b` goes on.
  called-Reach :
      s.calls i ≡ record { actor = b; pc = p }
      → Move (s.blocks b) p m p'
      → (a : ℕ) → System.Reach n (project a s)
      → System.Reach n (project a (moved s i b m p'))
  called-Reach here mv a =
      moved-Reach s n i b lt
        (subst (λ q. Move (s.blocks b) q m p') (sym (on_its_actor (s.calls i) b p here)) mv) a
        (inl (ap (λ c. c.actor) here))

module _ {Q : Type 0} (s : Together Q) (n i b : ℕ) {m : Block} {p' : Pc} (lt : i < n) where
  -- A place without a call starts one on `b`.
  started-Reach :
      (s.calls i).pc ≡ outside
      → Move (s.blocks b) outside m p'
      → (a : ℕ) → System.Reach n (project a s)
      → System.Reach n (project a (moved s i b m p'))
  started-Reach out mv a =
      moved-Reach s n i b lt
        (subst (λ q. Move (s.blocks b) q m p') (sym (on_no_actor (s.calls i) b out)) mv) a (inr out)

project-turns :
    {Q : Type 0} (s : Together Q) (i b a : ℕ)
    → (s.calls i).pc ≡ outside
    → project a s
      ≡ project a (record s { calls = update s.calls i (record { actor = b; pc = outside }) })
project-turns s i b a out = λ k. record { block = s.blocks a; pc = fun_ext pcs k }
  where
    pcs :
        (j : ℕ)
        → pc_on a (s.calls j) ≡ pc_on a (update s.calls i (record { actor = b; pc = outside }) j)
    pcs j = ground (arith, out)

quiet_call : (c : Call) (a : ℕ) → is_executing c.pc ≡ 0 → is_executing (pc_on a c) ≡ 0
quiet_call c a e = ground (arith, e)

module _ {Q : Type 0} (queue : ConcurrentQueue Q) (n worker_count a : ℕ) where
  project-initial : spawned ≡ project a (initial queue n worker_count)
  project-initial = λ k. record { block = spawned.block; pc = fun_ext pcs k }
    where
      pcs : (j : ℕ) → outside ≡ pc_on a ((initial queue n worker_count).calls j)
      pcs j = ground arith

module _ {Q : Type 0} {queue : ConcurrentQueue Q} {n worker_count : ℕ} where
  Step-project :
      {s t : Together Q}
      → Coupled queue worker_count s
      → Step queue n s t
      → (a : ℕ) → System.Reach n (project a s)
      → System.Reach n (project a t)
  Step-project {s} c (turns i b out) a r = subst (System.Reach n) (project-turns s i b a out) r
  Step-project {s} c (goes_on i b lt here mv other) a r = called-Reach s n i b lt here mv a r
  Step-project {s} c (submits i b self lt here own stored) a r =
      called-Reach s n i b lt here pushes a r
  Step-project {s} c (submit_fails i b self lt here own lost) a r =
      called-Reach s n i b lt here push_fails a r
  Step-project {s} c (works i index tick b pool' lt out index_lt free got) a r =
      started-Reach s n i b lt out
        (takes
          (omega (
            arith,
            c.queued b,
            search-conserves queue s.pool pool' index tick b b index_lt got,
            one_if_same b,
          ))
          (c.joined b ∙ free))
        a r
  Step-project c stops_pool a r = System.then_step r System.stops_pool
  Step-project {s} c (joins stopped quiet) a r = System.then_step r (
      System.joins (c.stopping a ∙ stopped) (
        total-eq-zero (λ _. is_executing) n (project a s).pc
          (λ i lt. quiet_call (s.calls i) a (quiet i lt))))
  Step-project c (discards rounds over ended) a r =
      System.then_step r (System.discards (c.joined a ∙ over))

  -- In every pool with many actors, each actor with the calls on it goes through states that the
  -- model of a single actor reaches; the copies of its task that this model counts are those that the
  -- queues of the pool hold, one at most. A try_dequeue that fails after the join has found an empty
  -- queue.
  pub actors_run_alone :
      {s : Together Q}
      → IsExact queue
      → Reach queue n worker_count s
      → (a : ℕ)
      → System.Reach n (project a s)
        × ((s.blocks a).queued ≡ copies_in queue s.pool a)
        × (copies_in queue s.pool a ≤ 1)
  actors_run_alone {s} exact r a = (runs r a, stored, omega (arith, stored, queued_once (runs r a)))
    where
      runs :
          {s : Together Q} → Reach queue n worker_count s → (a : ℕ) → System.Reach n (project a s)
      runs at_start a =
          subst (System.Reach n) (project-initial queue n worker_count a) System.at_spawn
      runs (then_step r st) a = Step-project (Reach-Coupled exact r) st a (runs r a)

      stored : (s.blocks a).queued ≡ copies_in queue s.pool a
      stored = (Reach-Coupled exact r).queued a
