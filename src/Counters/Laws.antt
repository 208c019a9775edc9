-- ===== src/Counters/Laws.antt =====
-- A thread that starts or ends counting changes no total.
use my_utils.Base.{ℕ, ◌≡◌, refl, ap, ◌∙◌, ◌≢◌, ◌⊎◌, inl, inr, List, [], ◌∷◌, ◌++◌, arith, update}
use my_utils.Counters.{
  Accumulate, Registry, remove, construct_block, destroy_block, accumulate_all, snapshot_stats,
  count_own,
}

abbrev pub Absent : ℕ → List ℕ → Type 0
Absent i [] = Unit {0}
Absent i (j ∷ js) = (j ≢ i) × Absent i js

-- The block `i` is registered, once.
abbrev pub Once : ℕ → List ℕ → Type 0
Once i [] = ⊥
Once i (j ∷ js) = ((j ≡ i) × Absent i js) ⊎ ((j ≢ i) × Once i js)

remove-Absent : (i : ℕ) (js : List ℕ) → Absent i js → remove i js ≡ js
unfolding remove
remove-Absent i [] h = refl
remove-Absent i (j ∷ js) h = ground (arith, remove-Absent i js h.1)

module _ {S : Type 0} (a : Accumulate S) where
  accumulate_all-remove :
      (v : ℕ → S) (i : ℕ) (js : List ℕ) (t : S)
      → Once i js
      → accumulate_all a v (remove i js) (a.accumulate_into t (v i)) ≡ accumulate_all a v js t
  unfolding accumulate_all remove
  accumulate_all-remove v i [] t h = absurd h
  accumulate_all-remove v i (j ∷ js) t (inl h) = ground (arith, remove-Absent i js h.1)
  accumulate_all-remove v i (j ∷ js) t (inr h) = ground (
    arith,
    a.accumulate_into-right_comm t (v i) (v j),
    accumulate_all-remove v i js (a.accumulate_into t (v j)) h.1,
  )

  -- The end of a thread, which folds its block into the retired counters, leaves every total of
  -- the snapshot as it was, provided its block was registered once.
  pub snapshot_stats-destroy_block :
      (i : ℕ) (r : Registry S)
      → Once i r.blocks
      → snapshot_stats a (destroy_block a i r) ≡ snapshot_stats a r
  unfolding snapshot_stats destroy_block
  snapshot_stats-destroy_block i r h = accumulate_all-remove r.values i r.blocks r.retired h

  accumulate_all-append :
      (v : ℕ → S) (is : List ℕ) (j : ℕ) (t : S)
      → accumulate_all a v (is ++ j ∷ []) t ≡ a.accumulate_into (accumulate_all a v is t) (v j)
  unfolding accumulate_all
  accumulate_all-append v [] j t = refl
  accumulate_all-append v (i ∷ is) j t = accumulate_all-append v is j (a.accumulate_into t (v i))

  accumulate_all-update :
      (v : ℕ → S) (i : ℕ) (s : S) (js : List ℕ) (t : S)
      → Absent i js
      → accumulate_all a (update v i s) js t ≡ accumulate_all a v js t
  unfolding accumulate_all
  accumulate_all-update v i s [] t h = refl
  accumulate_all-update v i s (j ∷ js) t h =
      ground (arith, accumulate_all-update v i s js (a.accumulate_into t (v j)) h.1)

  accumulate_all-AreWords :
      (v : ℕ → S) (is : List ℕ) (t : S) → a.AreWords t → a.AreWords (accumulate_all a v is t)
  unfolding accumulate_all
  accumulate_all-AreWords v [] t h = h
  accumulate_all-AreWords v (i ∷ is) t h =
      accumulate_all-AreWords v is _ (a.accumulate_into-AreWords t (v i))

  -- A thread that registers a block that was not registered yet leaves every total of the
  -- snapshot as it was, provided the retired counters are words.
  pub snapshot_stats-construct_block :
      (i : ℕ) (r : Registry S)
      → Absent i r.blocks
      → a.AreWords r.retired
      → snapshot_stats a (construct_block a i r) ≡ snapshot_stats a r
  unfolding snapshot_stats construct_block
  snapshot_stats-construct_block i r h w =
      accumulate_all-append (update r.values i a.zero_block) r.blocks i r.retired
      ∙ new_block
      ∙ a.accumulate_into-zero _ (accumulate_all-AreWords _ r.blocks r.retired w)
      ∙ accumulate_all-update r.values i a.zero_block r.blocks r.retired h
    where
      new_block :
          a.accumulate_into
            (accumulate_all a (update r.values i a.zero_block) r.blocks r.retired)
            (update r.values i a.zero_block i)
          ≡ a.accumulate_into
              (accumulate_all a (update r.values i a.zero_block) r.blocks r.retired)
              a.zero_block
      new_block = ground arith

  accumulate_all-into :
      (v : ℕ → S) (js : List ℕ) (t d : S)
      → accumulate_all a v js (a.accumulate_into t d)
        ≡ a.accumulate_into (accumulate_all a v js t) d
  unfolding accumulate_all
  accumulate_all-into v [] t d = refl
  accumulate_all-into v (j ∷ js) t d =
      ap (accumulate_all a v js) (a.accumulate_into-right_comm t d (v j))
      ∙ accumulate_all-into v js (a.accumulate_into t (v j)) d

  accumulate_all-count_in :
      (v : ℕ → S) (i : ℕ) (js : List ℕ) (t d : S)
      → Once i js
      → accumulate_all a (update v i (a.accumulate_into (v i) d)) js t
        ≡ a.accumulate_into (accumulate_all a v js t) d
  unfolding accumulate_all
  accumulate_all-count_in v i [] t d h = absurd h
  accumulate_all-count_in v i (j ∷ js) t d (inl h) =
      accumulate_all-update v i _ js _ h.1
      ∙ ap (accumulate_all a v js) own
      ∙ accumulate_all-into v js (a.accumulate_into t (v j)) d
    where
      own :
          a.accumulate_into t (update v i (a.accumulate_into (v i) d) j)
          ≡ a.accumulate_into (a.accumulate_into t (v j)) d
      own = ground (arith, h, a.accumulate_into_assoc t (v j) d)
  accumulate_all-count_in v i (j ∷ js) t d (inr h) =
      ap (accumulate_all a (update v i (a.accumulate_into (v i) d)) js) other
      ∙ accumulate_all-count_in v i js (a.accumulate_into t (v j)) d h.1
    where
      other :
          a.accumulate_into t (update v i (a.accumulate_into (v i) d) j) ≡ a.accumulate_into t (v j)
      other = ground (arith, h)

  -- What a thread adds to its own block, which is registered once, SnapshotStats adds to the totals,
  -- modulo 2 ^ 64 for each counter: no other thread's counts are lost or counted again.
  pub snapshot_stats-count_own :
      (i : ℕ) (d : S) (r : Registry S)
      → Once i r.blocks
      → snapshot_stats a (count_own i (λ s. a.accumulate_into s d) r)
        ≡ a.accumulate_into (snapshot_stats a r) d
  unfolding snapshot_stats
  snapshot_stats-count_own i d r h = accumulate_all-count_in r.values i r.blocks r.retired d h

  pub snapshot_stats-AreWords :
      (r : Registry S) → a.AreWords r.retired → a.AreWords (snapshot_stats a r)
  unfolding snapshot_stats
  snapshot_stats-AreWords r h = accumulate_all-AreWords r.values r.blocks r.retired h
