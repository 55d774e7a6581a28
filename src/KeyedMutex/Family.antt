-- ===== src/KeyedMutex/Family.antt =====
-- One value for each goroutine or address: a change at one place, and sums over the first places.
use mathlib.Core.Logic.{ite}
use native.Mathlib.Decide.{ℕ_discrete}
use sitebrush_v.Prelude.{ℕ, zero, suc, ◌+◌, ◌≤◌, ◌<◌, ◌≡◌, ◌≢◌, refl, arith}

-- The family with another value at one place.
abbrev pub update {ℓ} : {A : Type ℓ} (family : ℕ → A) (place : ℕ) (value : A) → ℕ → A
update family place value other = ite (ℕ_discrete place other) value (family other)

-- g 0 + … + g (n - 1)
pub sum_below : (ℕ → ℕ) → ℕ → ℕ
sum_below g zero = 0
sum_below g (suc n) = g n + sum_below g n

-- Functions that agree below n have one sum.
sum_below-agree :
    (g h : ℕ → ℕ) (n : ℕ) → ((j : ℕ) → j < n → g j ≡ h j) → sum_below g n ≡ sum_below h n
unfolding sum_below
sum_below-agree g h zero same = refl
sum_below-agree g h (suc n) same =
    omega (arith, same n (omega arith), sum_below-agree g h n (λ j lt. same j (omega arith)))

-- Functions that agree but at k have sums that differ as their values at k do.
sum_below-change :
    (g h : ℕ → ℕ) (k : ℕ)
    → ((j : ℕ) → j ≢ k → g j ≡ h j)
    → (n : ℕ) → k < n
    → sum_below g n + h k ≡ sum_below h n + g k
unfolding sum_below
sum_below-change g h k same zero inside = absurd (omega arith)
sum_below-change g h k same (suc n) inside = elim (ℕ_discrete n k) [
  | yes here ↦ ground (arith, sum_below-agree g h n (λ j lt. same j (omega arith)))
  | no away ↦ omega (arith, same n away, sum_below-change g h k same n (omega arith))
]

-- A value of the sum is a part of it, and so are two.
sum_below-part : (g : ℕ → ℕ) (n k : ℕ) → k < n → g k ≤ sum_below g n
unfolding sum_below
sum_below-part g zero k inside = absurd (omega arith)
sum_below-part g (suc n) k inside = elim (ℕ_discrete n k) [
  | yes here ↦ ground arith
  | no away ↦ omega (arith, sum_below-part g n k (omega arith))
]

sum_below-parts : (g : ℕ → ℕ) (n k l : ℕ) → k < n → l < n → k ≢ l → g k + g l ≤ sum_below g n
unfolding sum_below
sum_below-parts g zero k l below_k below_l apart = absurd (omega arith)
sum_below-parts g (suc n) k l below_k below_l apart = elim (ℕ_discrete n k) [
  | yes here ↦ ground (arith, sum_below-part g n l (omega arith))
  | no away ↦ elim (ℕ_discrete n l) [
    | yes here ↦ ground (arith, sum_below-part g n k (omega arith))
    | no far ↦ omega (arith, sum_below-parts g n k l (omega arith) (omega arith) apart)
  ]
]

sum_below-nothing : (g : ℕ → ℕ) (n : ℕ) → ((j : ℕ) → g j ≡ 0) → sum_below g n ≡ 0
unfolding sum_below
sum_below-nothing g zero none_of = refl
sum_below-nothing g (suc n) none_of = omega (arith, none_of n, sum_below-nothing g n none_of)

module _ {ℓ} {A : Type ℓ} (weight : A → ℕ) where
  -- The weights of the first n members of a family.
  abbrev pub total : ℕ → (ℕ → A) → ℕ
  total n family = sum_below (λ j. weight (family j)) n

  -- A change at one place moves the sum by the difference of the weights.
  pub total-update :
      (n : ℕ) (family : ℕ → A) (k : ℕ) (value : A)
      → k < n
      → total n (update family k value) + weight (family k) ≡ total n family + weight value
  total-update n family k value inside = ground (
    arith,
    sum_below-change (λ j. weight (update family k value j)) (λ j. weight (family j)) k
        (λ j away. ground arith) n inside,
  )

  pub total-two :
      (n : ℕ) (family : ℕ → A) (k l : ℕ)
      → k < n
      → l < n
      → k ≢ l
      → weight (family k) + weight (family l) ≤ total n family
  total-two n family k l below_k below_l apart =
      sum_below-parts (λ j. weight (family j)) n k l below_k below_l apart

  pub total-eq-zero :
      (n : ℕ) (family : ℕ → A) → ((j : ℕ) → weight (family j) ≡ 0) → total n family ≡ 0
  total-eq-zero n family none_of = sum_below-nothing (λ j. weight (family j)) n none_of
