-- ===== src/Base/Families.antt =====
-- Families indexed by ℕ (chunks, objects, threads): a write at one index, and weighted sums.
use Prim.Native.Nat.{ℕ, zero, suc, ◌+◌, ◌≤◌, ◌<◌}
use mathlib.Core.Path.{◌≡◌, refl, ap, fun_ext}
use mathlib.Core.Logic.{◌≢◌}
use native.Mathlib.Decide.{ℕ_discrete, dec_lt}
use native.Mathlib.Omega.{arith}
use my_utils.Base.Tests.{◌==◌, if◌then◌else◌}

abbrev pub update {ℓ} : {A : Type ℓ} → (ℕ → A) → ℕ → A → ℕ → A
update f i a j = if i == j then a else f j

module _ {ℓ} {A : Type ℓ} where
  pub update-update : (f : ℕ → A) (i : ℕ) (a b : A) → update (update f i a) i b ≡ update f i b
  update-update f i a b = fun_ext λ j. ground arith

  pub update_self : (f : ℕ → A) (i : ℕ) (a : A) → f i ≡ a → update f i a ≡ f
  update_self f i a h = fun_ext λ j. ground arith

  pub update_comm :
      (f : ℕ → A) (i j : ℕ) (a b : A)
      → i ≢ j
      → update (update f i a) j b ≡ update (update f j b) i a
  update_comm f i j a b h = fun_ext λ k. ground arith

-- h 0 + … + h (n - 1)
unfoldable pub sum_below : (ℕ → ℕ) → ℕ → ℕ
sum_below h zero = 0
sum_below h (suc n) = h n + sum_below h n

pub sum_below-agree :
    (h k : ℕ → ℕ) (n : ℕ) → ((j : ℕ) → j < n → h j ≡ k j) → sum_below h n ≡ sum_below k n
unfolding sum_below
sum_below-agree h k zero same = refl
sum_below-agree h k (suc n) same =
    omega (arith, same n (omega arith), sum_below-agree h k n (λ j lt. same j (omega arith)))

-- Two summands that differ at `i` alone.
sum_below-differ :
    (h k : ℕ → ℕ) (i n : ℕ)
    → i < n
    → ((j : ℕ) → i ≢ j → h j ≡ k j)
    → sum_below h n + k i ≡ sum_below k n + h i
unfolding sum_below
sum_below-differ h k i zero lt same = elim lt [ ]
sum_below-differ h k i (suc n) lt same = elim (ℕ_discrete i n) [
  | yes top ↦ ground (arith, sum_below-agree h k n (λ j below. same j (λ e. omega arith)))
  | no inner ↦ omega (arith, same n inner, sum_below-differ h k i n (omega arith) same)
]

-- The weight of the first `n` members of a family.
abbrev pub tally {ℓ} : {A : Type ℓ} → (A → ℕ) → ℕ → (ℕ → A) → ℕ
tally weight n f = sum_below (λ j. weight (f j)) n

module _ {ℓ} {A : Type ℓ} (weight : A → ℕ) where
  pub tally-update :
      (n : ℕ) (f : ℕ → A) (i : ℕ) (a : A)
      → i < n
      → tally weight n (update f i a) + weight (f i) ≡ tally weight n f + weight a
  tally-update n f i a lt =
      omega (arith, ap weight here, sum_below-differ _ (λ j. weight (f j)) i n lt elsewhere)
    where
      here : update f i a i ≡ a
      here = ground arith

      elsewhere : (j : ℕ) → i ≢ j → weight (update f i a j) ≡ weight (f j)
      elsewhere j ne = ap weight (ground arith)

  pub le-tally : (n : ℕ) (f : ℕ → A) (i : ℕ) → i < n → weight (f i) ≤ tally weight n f
  unfolding sum_below
  le-tally zero f i lt = elim lt [ ]
  le-tally (suc n) f i lt = elim (ℕ_discrete i n) [
    | yes top ↦ ground (arith, top)
    | no inner ↦ omega (arith, le-tally n f i (omega arith))
  ]

  pub tally-eq-zero : (n : ℕ) (f : ℕ → A) → ((i : ℕ) → weight (f i) ≡ 0) → tally weight n f ≡ 0
  unfolding sum_below
  tally-eq-zero zero f none_weighs = refl
  tally-eq-zero (suc n) f none_weighs = omega (arith, none_weighs n, tally-eq-zero n f none_weighs)

  pub tally-append :
      (n : ℕ) (f : ℕ → A) (a : A)
      → tally weight (n + 1) (update f n a) ≡ tally weight n f + weight a
  unfolding sum_below
  tally-append n f a = omega (
    arith,
    last,
    ap weight here,
    sum_below-agree (λ j. weight (update f n a j)) (λ j. weight (f j)) n elsewhere,
  )
    where
      successor : n + 1 ≡ suc n
      successor = omega arith

      last :
          tally weight (n + 1) (update f n a)
          ≡ weight (update f n a n) + tally weight n (update f n a)
      last = ap (λ k. tally weight k (update f n a)) successor

      here : update f n a n ≡ a
      here = ground arith

      elsewhere : (j : ℕ) → j < n → weight (update f n a j) ≡ weight (f j)
      elsewhere j lt = ap weight (ground arith)

  pub pair-le-tally :
      (n : ℕ) (f : ℕ → A) (i j : ℕ)
      → i < n
      → j < n
      → i ≢ j
      → weight (f i) + weight (f j) ≤ tally weight n f
  unfolding sum_below
  pair-le-tally zero f i j p q ne = elim p [ ]
  pair-le-tally (suc n) f i j p q ne = elim (ℕ_discrete i n) [
    | yes top ↦ ground (arith, top, le-tally n f j (omega arith))
    | no below ↦ elim (ℕ_discrete j n) [
      | yes top ↦ ground (arith, top, le-tally n f i (omega arith))
      | no inner ↦ omega (arith, pair-le-tally n f i j (omega arith) (omega arith) ne)
    ]
  ]

  pub tally-split :
      (u v : A → ℕ)
      → ((a : A) → weight a ≡ u a + v a)
      → (n : ℕ) (f : ℕ → A) → tally weight n f ≡ tally u n f + tally v n f
  unfolding sum_below
  tally-split u v parts zero f = refl
  tally-split u v parts (suc n) f = omega (arith, parts (f n), tally-split u v parts n f)

-- Weights that depend on the place in the family.
abbrev pub total {ℓ} : {A : Type ℓ} → (ℕ → A → ℕ) → ℕ → (ℕ → A) → ℕ
total weight n f = sum_below (λ j. weight j (f j)) n

module _ {ℓ} {A : Type ℓ} (weight : ℕ → A → ℕ) where
  pub total-update :
      (n : ℕ) (f : ℕ → A) (i : ℕ) (a : A)
      → i < n
      → total weight n (update f i a) + weight i (f i) ≡ total weight n f + weight i a
  total-update n f i a lt =
      omega (arith, ap (weight i) here, sum_below-differ _ (λ j. weight j (f j)) i n lt elsewhere)
    where
      here : update f i a i ≡ a
      here = ground arith

      elsewhere : (j : ℕ) → i ≢ j → weight j (update f i a j) ≡ weight j (f j)
      elsewhere j ne = ap (weight j) (ground arith)

  pub le-total : (n : ℕ) (f : ℕ → A) (i : ℕ) → i < n → weight i (f i) ≤ total weight n f
  unfolding sum_below
  le-total zero f i lt = elim lt [ ]
  le-total (suc n) f i lt = elim (ℕ_discrete i n) [
    | yes top ↦ ground (arith, top)
    | no inner ↦ omega (arith, le-total n f i (omega arith))
  ]

  pub total-eq-zero :
      (n : ℕ) (f : ℕ → A) → ((i : ℕ) → i < n → weight i (f i) ≡ 0) → total weight n f ≡ 0
  unfolding sum_below
  total-eq-zero zero f none_weighs = refl
  total-eq-zero (suc n) f none_weighs =
      omega (
        arith,
        none_weighs n (omega arith),
        total-eq-zero n f (λ i lt. none_weighs i (omega arith)),
      )

  pub total-le-total :
      (other : ℕ → A → ℕ)
      → ((i : ℕ) (a : A) → weight i a ≤ other i a)
      → (n : ℕ) (f : ℕ → A) → total weight n f ≤ total other n f
  unfolding sum_below
  total-le-total other below zero f = omega arith
  total-le-total other below (suc n) f =
      omega (arith, below n (f n), total-le-total other below n f)

  pub total-map :
      (g : A → A)
      → ((i : ℕ) (a : A) → weight i (g a) ≡ weight i a)
      → (n : ℕ) (f : ℕ → A) → total weight n (λ i. g (f i)) ≡ total weight n f
  total-map g same n f = sum_below-agree _ (λ j. weight j (f j)) n (λ j lt. same j (f j))

  pub total-le : ((i : ℕ) (a : A) → weight i a ≤ 1) → (n : ℕ) (f : ℕ → A) → total weight n f ≤ n
  unfolding sum_below
  total-le small zero f = omega arith
  total-le small (suc n) f = omega (arith, small n (f n), total-le small n f)

  pub total-pos :
      (n : ℕ) (f : ℕ → A) → 0 < total weight n f → (i : ℕ) × (i < n) × (0 < weight i (f i))
  unfolding sum_below
  total-pos zero f h = absurd (omega arith)
  total-pos (suc n) f h = elim (dec_lt 0 (weight n (f n))) [
    | yes top ↦ (n, omega arith, top)
    | no inner ↦ let (i, lt, w) = total-pos n f (omega arith) in (i, omega arith, w)
  ]
