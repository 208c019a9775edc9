-- ===== src/Actors/Census/Balance.antt =====
-- LiveActorCount against the counters.
use my_utils.Base.{
  ℕ, ◌+◌, ◌%◌, ◌^◌, ◌≤◌, ◌≡◌, ◌⊎◌, inl, false, List, [], ◌∷◌, ◌==◌, if◌then◌else◌, length, times,
  nil_of_times, refl, sym, ap, ◌∙◌, arith,
}
use my_utils.Counters.{remove}
use my_utils.Actors.Registry.{finalize, stop}
use my_utils.Actors.Census.{
  Census, live_actor_count, census_spawn, census_finalize, census_stop, census_finalize_each,
  census_finalize_all, IsMade, Step, spawns, stops, finalizes, closes_gate, finalizes_all, Reach,
  at_start, then_step,
}

times-remove : (c d : ℕ) (xs : List ℕ) → times d (remove c xs) ≡ (if c == d then 0 else times d xs)
unfolding remove
times-remove c d [] = ground arith
times-remove c d (x ∷ xs) = ground (arith, times-remove c d xs)

length-remove : (c : ℕ) (xs : List ℕ) → length (remove c xs) + times c xs ≡ length xs
unfolding remove
length-remove c [] = refl
length-remove c (x ∷ xs) = ground (arith, length-remove c xs)

record Balanced (e : Census) : Type 0 where
  once : (c : ℕ) → times c e.registry.members ≤ 1
  unfinished :
      (c : ℕ) → 1 ≤ times c e.registry.members → (e.registry.blocks c).finalize_started ≡ false
  counted : e.stats.spawn_count ≡ (e.stats.finalize_count + length e.registry.members) % 2 ^ 64

census_spawn-Balanced :
    (e : Census) (c : ℕ) → times c e.registry.members ≡ 0 → Balanced e → Balanced (census_spawn e c)
unfolding census_spawn
census_spawn-Balanced e c fresh b = record {
  once = λ d. ground (arith, b.once d, times-remove c d e.registry.members);
  unfinished = λ d h. ground (arith, b.unfinished d, times-remove c d e.registry.members);
  counted = ground (arith, b.counted, fresh, length-remove c e.registry.members);
}

census_finalize-Balanced :
    (e : Census) (c : ℕ) → IsMade e.registry c → Balanced e → Balanced (census_finalize e c)
unfolding census_finalize finalize
census_finalize-Balanced e c made b = record {
  once = λ d. ground (arith, b.once d, times-remove c d e.registry.members);
  unfinished = λ d h. ground (arith, b.unfinished d, times-remove c d e.registry.members);
  counted = ground (arith, b.counted, made, b.once c, length-remove c e.registry.members);
}

census_stop-Balanced :
    (e : Census) (c : ℕ) → IsMade e.registry c → Balanced e → Balanced (census_stop e c)
unfolding census_stop stop finalize
census_stop-Balanced e c made b = record {
  once = λ d. ground (arith, b.once d, times-remove c d e.registry.members);
  unfinished = λ d h. ground (arith, b.unfinished d, times-remove c d e.registry.members);
  counted = ground (arith, b.counted, made, b.once c, length-remove c e.registry.members);
}

-- Finalize after Stop takes a registered actor out of the registry.
stopped-members :
    (e : Census) (c : ℕ)
    → (e.registry.blocks c).finalize_started ≡ false
    → (census_finalize (census_stop e c) c).registry.members ≡ remove c e.registry.members
unfolding census_finalize census_stop stop finalize
stopped-members e c unfinished = ground (arith, unfinished)

census_stop-IsMade :
    (e : Census) (c : ℕ) → IsMade e.registry c → IsMade (census_stop e c).registry c
unfolding census_stop stop finalize
census_stop-IsMade e c made = ground (arith, made)

-- The loop of FinalizeAll over a snapshot of the registry empties the registry.
census_finalize_each-Balanced :
    (cs : List ℕ) (e : Census)
    → Balanced e
    → ((c : ℕ) → times c cs ≡ times c e.registry.members)
    → Balanced (census_finalize_each cs e) × ((census_finalize_each cs e).registry.members ≡ [])
unfolding census_finalize_each
census_finalize_each-Balanced [] e b same = (b, nil_of_times e.registry.members (λ c. sym (same c)))
census_finalize_each-Balanced (c ∷ cs) e b same =
    census_finalize_each-Balanced cs (census_finalize (census_stop e c) c)
      (census_finalize-Balanced (census_stop e c) c (census_stop-IsMade e c (inl member))
        (census_stop-Balanced e c (inl member) b))
      (λ d. left d ∙ sym (ap (times d) (stopped-members e c (b.unfinished c member))))
  where
    member : 1 ≤ times c e.registry.members
    member = ground (arith, same c)

    left : (d : ℕ) → times d cs ≡ times d (remove c e.registry.members)
    left d = ground (arith, same d, same c, b.once c, times-remove c d e.registry.members)

census_finalize_all-Balanced : (e : Census) → Balanced e → Balanced (census_finalize_all e)
unfolding census_finalize_all
census_finalize_all-Balanced e b =
    let (b', empty) = census_finalize_each-Balanced e.registry.members e b (λ c. refl) in
    record {
      once = λ c. omega arith;
      unfinished = λ c h. absurd (omega (arith, h));
      counted = omega (arith, b'.counted, ap length empty);
    }

Step-Balanced : {e e' : Census} → Step e e' → Balanced e → Balanced e'
Step-Balanced {e} (spawns c fresh) b = census_spawn-Balanced e c fresh b
Step-Balanced {e} (stops c made) b = census_stop-Balanced e c made b
Step-Balanced {e} (finalizes c made) b = census_finalize-Balanced e c made b
Step-Balanced closes_gate b = record {
  once = b.once;
  unfinished = b.unfinished;
  counted = b.counted;
}
Step-Balanced {e} finalizes_all b = census_finalize_all-Balanced e b

Reach-Balanced : {e : Census} → Reach e → Balanced e
Reach-Balanced at_start = record {
  once = λ c. omega arith;
  unfinished = λ c h. absurd (omega (arith, h));
  counted = omega arith;
}
Reach-Balanced (then_step r st) = Step-Balanced st (Reach-Balanced r)

-- After any calls of Spawn, Stop, Finalize, CloseGate and FinalizeAll, each taken whole, LiveActorCount is
-- the number of spawned actors that are counted less the number of finalized ones, modulo 2 ^ 64; no
-- actor is registered twice, and the Finalize of a registered actor has not begun.
pub live_actors_counted :
    {e : Census} (c : ℕ)
    → Reach e
    → (e.stats.spawn_count ≡ (e.stats.finalize_count + live_actor_count e.registry) % 2 ^ 64)
      × (times c e.registry.members ≤ 1)
      × ((times c e.registry.members ≡ 0) ⊎ ((e.registry.blocks c).finalize_started ≡ false))
live_actors_counted c r =
    let b = Reach-Balanced r in (b.counted, b.once c, ground (arith, b.unfinished c))
