-- ===== src/Actors/Shutdown.antt =====
-- What RuntimeBody::Shutdown leaves of the actors that were registered before it.
use my_utils.Base.{ℕ, ◌≡◌, ◌⊎◌, inl, inr, false, List, [], ◌∷◌, ◌==◌, if◌then◌else◌, refl, arith}
use my_utils.Actors.Registry.{
  finalized, Registry, try_register, close_gate, finalize, stop, finalize_each, finalize_all, Body,
  shutdown,
}

-- No Finalize is half done.
abbrev pub IsSettled : Registry → Type 0
IsSettled r = (c : ℕ) → ((r.blocks c).finalize_started ≡ false) ⊎ (r.blocks c ≡ finalized)

abbrev pub In : ℕ → List ℕ → Type 0
In c [] = ⊥
In c (d ∷ ds) = (c ≡ d) ⊎ In c ds

finalize-stop-blocks :
    (r : Registry) (c d : ℕ)
    → ((r.blocks c).finalize_started ≡ false) ⊎ (r.blocks c ≡ finalized)
    → (finalize (stop r c) c).blocks d ≡ (if c == d then finalized else r.blocks d)
unfolding finalize stop
finalize-stop-blocks r c d settled = ground arith

finalize-stop-accepting : (r : Registry) (c : ℕ) → (finalize (stop r c) c).accepting ≡ r.accepting
unfolding finalize stop
finalize-stop-accepting r c = ground arith

finalize-stop-IsSettled : (r : Registry) (c : ℕ) → IsSettled r → IsSettled (finalize (stop r c) c)
finalize-stop-IsSettled r c settled d =
    ground (arith, finalize-stop-blocks r c d (settled c), settled d)

-- The loop of FinalizeAll keeps what is finalized, and finalizes the actors of its snapshot.
finalize_each-blocks :
    (cs : List ℕ) (r : Registry) (c : ℕ)
    → IsSettled r
    → In c cs ⊎ (r.blocks c ≡ finalized)
    → (finalize_each cs r).blocks c ≡ finalized
unfolding finalize_each
finalize_each-blocks [] r c settled (inl h) = absurd h
finalize_each-blocks [] r c settled (inr e) = e
finalize_each-blocks (d ∷ ds) r c settled h =
    finalize_each-blocks ds (finalize (stop r d) d) c (finalize-stop-IsSettled r d settled)
      (later h)
  where
    later :
        In c (d ∷ ds) ⊎ (r.blocks c ≡ finalized)
        → In c ds ⊎ ((finalize (stop r d) d).blocks c ≡ finalized)
    later (inl (inl e)) = inr (ground (arith, e, finalize-stop-blocks r d c (settled d)))
    later (inl (inr i)) = inl i
    later (inr e) = inr (ground (arith, e, finalize-stop-blocks r d c (settled d)))

finalize_each-accepting :
    (cs : List ℕ) (r : Registry) → (finalize_each cs r).accepting ≡ r.accepting
unfolding finalize_each
finalize_each-accepting [] r = refl
finalize_each-accepting (c ∷ cs) r =
    ground (arith, finalize_each-accepting cs (finalize (stop r c) c), finalize-stop-accepting r c)

-- What is asked of the workers and the other threads until StopAndJoin returns: they leave the
-- gate as it is and no Finalize half done, and an actor leaves the registry only finalized.
pub record Joins (join : Registry → Registry) : Type 0 where
  pub keeps_gate : (r : Registry) → (join r).accepting ≡ r.accepting
  pub settles : (r : Registry) → IsSettled r → IsSettled (join r)
  pub keeps_members :
      (r : Registry) (c : ℕ)
      → In c r.members
      → In c (join r).members ⊎ ((join r).blocks c ≡ finalized)

-- What the first Shutdown leaves of an actor that is registered or finalized after the join.
pub shutdown-blocks :
    (join : Registry → Registry) (b : Body) (c : ℕ)
    → Joins join
    → b.shutdown_started ≡ false
    → IsSettled b.registry
    → In c (join (close_gate b.registry)).members
      ⊎ ((join (close_gate b.registry)).blocks c ≡ finalized)
    → (shutdown join b).registry.blocks c ≡ finalized
unfolding shutdown finalize_all
shutdown-blocks join b c joins first settled known = ground (
  arith,
  first,
  finalize_each-blocks (join (close_gate b.registry)).members (join (close_gate b.registry)) c
      (joins.settles (close_gate b.registry) settled) known,
)

pub shutdown-accepting :
    (join : Registry → Registry) (b : Body)
    → Joins join
    → b.shutdown_started ≡ false
    → (shutdown join b).registry.accepting ≡ false
unfolding shutdown finalize_all
shutdown-accepting join b joins first = ground (
  arith,
  first,
  finalize_each-accepting (join (close_gate b.registry)).members (join (close_gate b.registry)),
  joins.keeps_gate (close_gate b.registry),
)

-- Where the workers and the other threads, until the workers are joined, leave the gate of the registry
-- as it is, leave no Finalize half done and take an actor out of the registry only finalized, and no
-- other thread is inside a Stop while FinalizeAll runs, the first Shutdown finalizes every actor that
-- is registered when it starts; it leaves the registry empty and refuses every later registration, and
-- a second Shutdown does nothing. No Finalize is half done when it starts.
pub shutdown_finalizes :
    (join : Registry → Registry) (b : Body) (c d : ℕ)
    → Joins join
    → b.shutdown_started ≡ false
    → IsSettled b.registry
    → In c b.registry.members
    → ((shutdown join b).registry.blocks c ≡ finalized)
      × ((shutdown join b).registry.members ≡ [])
      × ((try_register (shutdown join b).registry d).1 ≡ false)
      × (shutdown join (shutdown join b) ≡ shutdown join b)
unfolding shutdown finalize_all
shutdown_finalizes join b c d joins first settled member = ground (
  arith,
  first,
  shutdown-blocks join b c joins first settled
      (joins.keeps_members (close_gate b.registry) c member),
  shutdown-accepting join b joins first,
)
