-- ===== src/Auth/Store/First.antt =====
-- The element that `split_first` finds.
use sitebrush_v.Prelude.{◌≡◌, refl, Bool, true, List, [], ◌∷◌, ◌++◌, none, some, arith, count_if}
use sitebrush_v.Auth.Store.{split_first}

module _ {ℓ} {A : Type ℓ} (p : A → Bool) where
  -- What is found passes the test, and stands between the rest.
  pub split_first-some :
      (xs before : List A) (x : A) (after : List A)
      → split_first p xs ≡ some (before, x, after)
      → (xs ≡ before ++ x ∷ after) × (p x ≡ true)
  unfolding split_first
  split_first-some [] before x after h = cc
  split_first-some (y ∷ xs) [] x after h = ground arith
  split_first-some (y ∷ xs) (z ∷ before) x after h =
      ground (arith, split_first-some xs before x after)

  pub split_first-none : (xs : List A) → split_first p xs ≡ none → count_if p xs ≡ 0
  unfolding split_first
  split_first-none [] h = refl
  split_first-none (y ∷ xs) h = ground (arith, split_first-none xs)

  -- What stands behind elements that fail the test is found.
  pub split_first-append :
      (before : List A) (x : A) (after : List A)
      → count_if p before ≡ 0
      → p x ≡ true
      → split_first p (before ++ x ∷ after) ≡ some (before, x, after)
  unfolding split_first
  split_first-append [] x after h good = ground arith
  split_first-append (y ∷ before) x after h good = ground (arith, split_first-append before x after)
