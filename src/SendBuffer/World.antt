-- ===== src/SendBuffer/World.antt =====
-- The objects that the threads of a program hold, and the calls that they make on them in any
-- order. A call is one step: a chunk's cursor is used by one thread alone, the pool's queue is
-- concurrent, and the counts of a shared_ptr are atomic.
use my_utils.Base.{ℕ, ◌<◌, ◌≡◌, false, Option, none, update, ◌==◌}
use my_utils.Assert.{ok}
use my_utils.Queue.{ConcurrentQueue}
use my_utils.SendBuffer.Constants.{default_pool_idle_limit}
use my_utils.SendBuffer.Stats.{SendBufferStats, zero_stats}
use my_utils.SendBuffer.Memory.{Memory, plain}
use my_utils.SendBuffer.Buffer.{
  Caller, SendBuffer, SendView, move_buffer, destroy_buffer, assign_buffer, commit, copy_view,
  destroy_view, release_current_chunk,
}
use my_utils.SendBuffer.Manager.{reserve}

-- One place of the program: nothing, the thread_local manager of a thread, or an object that the
-- program declared.
pub data Object : Type 0 where
  free : Object
  manager : (current : Option ℕ) → Object
  buffer : SendBuffer → Object
  view : SendView → Object

-- A thread is named by the place of its manager, which also names its block of counters.
pub record World (Q : Type 0) : Type 0 where
  pub memory : Memory Q
  pub objects : ℕ → Object
  pub stats : ℕ → SendBufferStats

module _ {Q : Type 0} where
  -- What the thread `t` sees, with `current` in its manager.
  abbrev pub caller : World Q → ℕ → Option ℕ → Caller Q
  caller w t current = record { memory = w.memory; current = current; stats = w.stats t }

  -- The world after a call of the thread `t`.
  abbrev pub after : World Q → ℕ → Caller Q → World Q
  after w t e = record {
    memory = e.memory;
    objects = update w.objects t (manager e.current);
    stats = update w.stats t e.stats;
  }

  abbrev pub place : World Q → ℕ → Object → World Q
  place w i o = record w { objects = update w.objects i o }

  -- Before the first call of any thread: no chunk was ever made, and no object is there.
  abbrev pub initial : ConcurrentQueue Q → World Q
  initial queue = record {
    memory = record {
      cells = λ _. record {
        chunk = record { capacity = 0; offset = 0 };
        refs = 0;
        deleter = plain;
        alive = false;
      };
      next = 0;
      live_chunk_count = 0;
      live_chunk_bytes = 0;
      idle = queue.empty;
      idle_limit = default_pool_idle_limit;
    };
    objects = λ _. free;
    stats = λ _. zero_stats;
  }

module _ {Q : Type 0} (queue : ConcurrentQueue Q) (n : ℕ) where
  -- A step of a program with places below `n`. The thread `t` makes the call; `i`, `j` are places.
  pub data Step (w : World Q) : World Q → Type 0 where
    starts_thread :
        (t : ℕ)
        → t < n
        → w.objects t ≡ free
        → Step w (record w {
          objects = update w.objects t (manager none);
          stats = update w.stats t zero_stats;
        })
    ends_thread :
        (t : ℕ) (current : Option ℕ)
        → t < n
        → w.objects t ≡ manager current
        → Step w (place (after w t (release_current_chunk queue (caller w t current))) t free)
    releases_current :
        (t : ℕ) (current : Option ℕ)
        → t < n
        → w.objects t ≡ manager current
        → Step w (after w t (release_current_chunk queue (caller w t current)))
    reserves :
        (t i capacity : ℕ) (current : Option ℕ) (e : Caller Q) (b : SendBuffer)
        → t < n
        → i < n
        → w.objects t ≡ manager current
        → w.objects i ≡ free
        → reserve queue (caller w t current) capacity ≡ ok (e, b)
        → Step w (place (after w t e) i (buffer b))
    commits :
        (t i j size : ℕ) (current : Option ℕ) (b b' : SendBuffer) (e : Caller Q) (v : SendView)
        → t < n
        → i < n
        → j < n
        → w.objects t ≡ manager current
        → w.objects i ≡ buffer b
        → w.objects j ≡ free
        → commit queue (caller w t current) b size ≡ ok (e, b', v)
        → Step w (place (place (after w t e) i (buffer b')) j (view v))
    destroys_buffer :
        (t i : ℕ) (current : Option ℕ) (b : SendBuffer) (e : Caller Q)
        → t < n
        → i < n
        → w.objects t ≡ manager current
        → w.objects i ≡ buffer b
        → destroy_buffer queue (caller w t current) b ≡ ok e
        → Step w (place (after w t e) i free)
    moves_buffer :
        (i j : ℕ) (b : SendBuffer)
        → i < n
        → j < n
        → w.objects i ≡ buffer b
        → w.objects j ≡ free
        → Step w (place (place w i (buffer (move_buffer b).1)) j (buffer (move_buffer b).0))
    assigns_buffer :
        (t i j : ℕ) (current : Option ℕ) (this other this' other' : SendBuffer) (e : Caller Q)
        → t < n
        → i < n
        → j < n
        → w.objects t ≡ manager current
        → w.objects i ≡ buffer this
        → w.objects j ≡ buffer other
        → assign_buffer queue (caller w t current) (i == j) this other ≡ ok (e, this', other')
        → Step w (place (place (after w t e) i (buffer this')) j (buffer other'))
    copies_view :
        (t i j : ℕ) (current : Option ℕ) (v : SendView)
        → t < n
        → i < n
        → j < n
        → w.objects t ≡ manager current
        → w.objects i ≡ view v
        → w.objects j ≡ free
        → Step w (
            place
              (after w t (copy_view (caller w t current) v).0)
              j
              (view (copy_view (caller w t current) v).1))
    destroys_view :
        (t i : ℕ) (current : Option ℕ) (v : SendView)
        → t < n
        → i < n
        → w.objects t ≡ manager current
        → w.objects i ≡ view v
        → Step w (place (after w t (destroy_view queue (caller w t current) v)) i free)
    sets_idle_limit :
        (limit : ℕ) → Step w (record w { memory = record w.memory { idle_limit = limit } })

  pub data Reach : World Q → Type 0 where
    at_start : Reach (initial queue)
    then_step : {w w' : World Q} → Reach w → Step w w' → Reach w'
