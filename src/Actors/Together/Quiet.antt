-- ===== src/Actors/Together/Quiet.antt =====
-- What the queues of the pool say of the actors, and the actors of a pool that is at rest.
use my_utils.Base.{
  ℕ, ◌<◌, ◌≡◌, ◌^◌, ◌⊎◌, false, [], none, le-tally, total-eq-zero, ◌∙◌, sym, ap, subst, arith,
}
use my_utils.Queue.{ConcurrentQueue, IsExact}
use my_utils.Queue.Fifo.{copies}
use my_utils.Runtime.Pool.{Pool, acquire_anywhere}
use my_utils.Runtime.Conservation.{copies_in}
use my_utils.Runtime.Search.{acquire_anywhere-none}
use my_utils.Actors.Block.{idle, dead, outside}
use my_utils.Actors.System.{is_executing}
use my_utils.Actors.Safety.{one_execute, queued_once, no_lost_wakeup}
use my_utils.Actors.Together.{Together, Call, Reach}
use my_utils.Actors.Together.Queues.{Reach-Coupled}
use my_utils.Actors.Together.Projection.{pc_on, project, actors_run_alone}

on_actor : (c : Call) (a : ℕ) → c.actor ≡ a → pc_on a c ≡ c.pc
on_actor c a e = ground (arith, e)

outside_on : (c : Call) (a : ℕ) → c.pc ≡ outside → pc_on a c ≡ outside
outside_on c a e = ground (arith, e)

module _ {Q : Type 0} (queue : ConcurrentQueue Q) (exact : IsExact queue) where
  -- A search that finds nothing has seen every queue empty.
  none_left :
      (p : Pool Q) (index a : ℕ)
      → p.worker_count < 2 ^ 63
      → index < p.worker_count
      → acquire_anywhere queue p index ≡ none
      → copies_in queue p a ≡ 0
  unfolding copies_in
  none_left p index a few at miss = omega (
    arith,
    exact p.injection (acquire_anywhere-none queue p index index few at at miss).1 a,
    total-eq-zero (λ _ items. copies items a) p.worker_count p.local
        (λ j lt.
          ap (λ items. copies items a) (acquire_anywhere-none queue p index j few at lt miss).0),
  )

module _ {Q : Type 0} {queue : ConcurrentQueue Q} {n worker_count : ℕ} {s : Together Q}
    (exact : IsExact queue) (reached : Reach queue n worker_count s) (a : ℕ) where
  running_on :
      (i : ℕ)
      → (s.calls i).actor ≡ a
      → 0 < is_executing (s.calls i).pc
      → 0 < is_executing (pc_on a (s.calls i))
  running_on i own inside =
      subst (λ p. 0 < is_executing p) (sym (on_actor (s.calls i) a own)) inside

  -- In every pool with many actors that is reached, two calls on one actor that are in Execute, up to
  -- its last compare-exchange, are the same, and no queue of the pool holds the task of that actor.
  -- A try_dequeue that fails while nobody else uses the queue has found it empty.
  pub served_once :
      (i j : ℕ)
      → i < n
      → j < n
      → (s.calls i).actor ≡ a
      → (s.calls j).actor ≡ a
      → 0 < is_executing (s.calls i).pc
      → 0 < is_executing (s.calls j).pc
      → (copies_in queue s.pool a ≡ 0) × (i ≡ j)
  served_once i j p q own own' inside inside' =
      let (alone, stored, _) = actors_run_alone exact reached a in
      (
        omega (
          arith,
          stored,
          queued_once alone,
          running_on i own inside,
          le-tally is_executing n (project a s).pc i p,
        ),
        one_execute alone i j p q (running_on i own inside) (running_on j own' inside'),
      )

  -- In every pool with many actors that is reached, where every call has returned, the workers are
  -- not joined, and a worker, of fewer than 2 ^ 63, looks for a task and finds none, every actor for
  -- which Submit never returned false is idle and has handled every accepted message, or is dead; its
  -- mailbox is empty.
  -- A try_dequeue that fails while nobody else uses the queue has found it empty.
  pub all_handled :
      (index : ℕ)
      → ((i : ℕ) → (s.calls i).pc ≡ outside)
      → s.joined ≡ false
      → (s.blocks a).refused ≡ false
      → worker_count < 2 ^ 63
      → index < worker_count
      → acquire_anywhere queue s.pool index ≡ none
      → ((s.blocks a).mailbox ≡ [])
        × (((s.blocks a).state ≡ idle) × ((s.blocks a).handed ≡ (s.blocks a).accepted)
            ⊎ ((s.blocks a).state ≡ dead))
  all_handled index out free kept few at miss =
      let (alone, stored, _) = actors_run_alone exact reached a in
      let coupled = Reach-Coupled exact reached in
      no_lost_wakeup alone (λ i. outside_on (s.calls i) a (out i))
        (stored
          ∙ none_left queue exact s.pool index a (omega (arith, coupled.workers, few))
              (omega (arith, coupled.workers, at)) miss)
        (coupled.joined a ∙ free) kept
