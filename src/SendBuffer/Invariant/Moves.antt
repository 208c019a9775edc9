-- ===== src/SendBuffer/Invariant/Moves.antt =====
-- An object goes from one place to another, or stays where it is.
use my_utils.Base.{ℕ, ◌<◌, ◌≡◌, ◌≢◌, refl, sym, subst, none, arith, update, update_self}
use mathlib.Core.Path.{fun_ext}
use my_utils.Queue.{ConcurrentQueue}
use my_utils.SendBuffer.Memory.{Memory}
use my_utils.SendBuffer.Buffer.{SendView}
use my_utils.SendBuffer.World.{Object, view}
use my_utils.SendBuffer.Invariant.Defs.{chunk_of, manager_chunk, IsFormed, Inv}
use my_utils.SendBuffer.Invariant.Cells.{plus}
use my_utils.SendBuffer.Invariant.Transfers.{Fits, place-Inv}

-- An object that holds no reference.
pub record IsEmpty (o : Object) : Type 0 where
  pub no_chunk : chunk_of o ≡ none
  pub formed : IsFormed o

manager_chunk-none : (o : Object) → chunk_of o ≡ none → manager_chunk o ≡ none
manager_chunk-none (Object.manager current) h = h
manager_chunk-none _ h = refl

module _ {Q : Type 0} {m : Memory Q} {objects : ℕ → Object} where
  pub IsEmpty-Fits : (i : ℕ) (o : Object) → IsEmpty o → Fits m objects i o
  IsEmpty-Fits i o e = record {
    sole = λ j c p q. cc (manager_chunk-none o e.no_chunk);
    pooled = λ c p. cc (manager_chunk-none o e.no_chunk);
    formed = e.formed;
    within = λ c p q. cc e.no_chunk;
    disjoint = λ j c ne w p q r s. cc e.no_chunk;
  }

module _ {Q : Type 0} {queue : ConcurrentQueue Q} {n : ℕ} {extra : ℕ → ℕ} {m : Memory Q}
    {objects : ℕ → Object} (inv : Inv queue n extra m objects) where
  pub replace_self-Inv :
      (i : ℕ) (o : Object) → objects i ≡ o → Inv queue n extra m (update objects i o)
  replace_self-Inv i o h = subst (Inv queue n extra m) (sym (update_self objects i o h)) inv

  -- What stands at `i` fits at any other place, once it is gone from `i`.
  taken-Fits :
      (i j : ℕ) (o : Object) → i ≢ j → IsEmpty o → Fits m (update objects i o) j (objects i)
  taken-Fits i j o ne e = record {
    sole = λ k c p q. ground (arith, inv.sole i k c, manager_chunk-none o e.no_chunk);
    pooled = inv.pooled i;
    formed = inv.formed i;
    within = inv.within i;
    disjoint = λ k c jk w p q r s. ground (arith, inv.disjoint i k c, e.no_chunk);
  }

  -- The object at `i` goes to `j`, where an object without a chunk stood, and leaves one at `i`.
  pub move-Inv :
      (i j : ℕ) (o : Object)
      → i < n
      → j < n
      → i ≢ j
      → IsEmpty o
      → IsEmpty (objects j)
      → Inv queue n extra m (update (update objects i o) j (objects i))
  move-Inv i j o li lj ne e f =
      place-Inv
        (place-Inv inv i o (plus extra (chunk_of (objects i))) li (λ c. ground (arith, e.no_chunk))
          (IsEmpty-Fits i o e))
        j (objects i) extra lj (λ c. ground (arith, f.no_chunk)) (taken-Fits i j o ne e)

  -- A copy of a view fits anywhere.
  pub copy-Fits : (i j : ℕ) (v : SendView) → objects i ≡ view v → Fits m objects j (view v)
  copy-Fits i j v h = record {
    sole = λ k c p q. cc;
    pooled = λ c p. cc;
    formed = ground (arith, inv.formed i);
    within = λ c p q. ground (arith, inv.within i c);
    disjoint = λ k c ne w p q r s. ground (arith, inv.disjoint i k c);
  }

module _ {Q : Type 0} {queue : ConcurrentQueue Q} {n : ℕ} {extra : ℕ → ℕ} {m : Memory Q} where
  -- The object `o` at `i` goes on to `j`, and `o'` stays behind.
  pub pass_on-Inv :
      (objects : ℕ → Object) (i j : ℕ) (o o' : Object)
      → Inv queue n extra m (update objects i o)
      → i < n
      → j < n
      → i ≢ j
      → IsEmpty o'
      → IsEmpty (objects j)
      → Inv queue n extra m (update (update objects i o') j o)
  pass_on-Inv objects i j o o' inv li lj ne e f =
      subst (Inv queue n extra m) (fun_ext λ k. ground arith) (
        move-Inv inv i j o' li lj ne e
          (record { no_chunk = ground (arith, f); formed = inv.formed j }))
