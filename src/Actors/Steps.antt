-- ===== src/Actors/Steps.antt =====
-- Every system that Spawn and any sequence of steps reach keeps the invariant.
use my_utils.Base.{ℕ, ◌+◌, ◌≡◌, tally, tally-eq-zero, tally-split, refl, arith}
use my_utils.Actors.Block.{Pc, outside}
use my_utils.Actors.System.{
  System, is_executing, Step, pick, stops_pool, joins, discards, spawned, Reach, at_spawn,
  then_step,
}
use my_utils.Actors.Invariant.Defs.{
  in_submit, in_revert, in_entry, in_run, in_wakeup, in_shutdown, in_late_shutdown, in_gate,
  in_swap, in_cleanup, counts, Inv,
}
use my_utils.Actors.Invariant.Guards.{Shift-update}
use my_utils.Actors.Invariant.Moves.{Move-Inv}

pub tally-is_executing :
    (n : ℕ) (pc : ℕ → Pc) → tally is_executing n pc ≡ tally in_entry n pc + tally in_run n pc
tally-is_executing = tally-split is_executing in_entry in_run λ p. ground arith

spawned-Inv : (n : ℕ) → Inv spawned.block (counts n spawned.pc)
spawned-Inv n = ground (
  arith,
  nobody in_submit refl,
  nobody in_revert refl,
  nobody in_entry refl,
  nobody in_run refl,
  nobody in_wakeup refl,
  nobody in_shutdown refl,
  nobody in_late_shutdown refl,
  nobody in_gate refl,
  nobody in_swap refl,
  nobody in_cleanup refl,
)
  where
    nobody : (w : Pc → ℕ) → w outside ≡ 0 → tally w n spawned.pc ≡ 0
    nobody w e = tally-eq-zero w n spawned.pc λ i. e

Step-Inv :
    {n : ℕ} {s t : System} → Inv s.block (counts n s.pc) → Step n s t → Inv t.block (counts n t.pc)
Step-Inv {n} {s} inv (pick i {p = p'} lt mv) = Move-Inv inv mv (Shift-update n s.pc i p' lt)
Step-Inv inv stops_pool = ground arith
Step-Inv {n} {s} inv (joins stopped quiet) = ground (arith, tally-is_executing n s.pc)
Step-Inv inv (discards joined) = ground arith

pub Reach-Inv : {n : ℕ} {s : System} → Reach n s → Inv s.block (counts n s.pc)
Reach-Inv {n} at_spawn = spawned-Inv n
Reach-Inv (then_step r st) = Step-Inv (Reach-Inv r) st
