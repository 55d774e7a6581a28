-- ===== src/Text/Split.antt =====
-- strings.Split by one rune.
use sitebrush_v.Prelude.{
  ℕ, ◌≡◌, refl, false, List, [], ◌∷◌, ◌++◌, if◌then◌else◌, ◌==◌, ==_self, arith,
}
use sitebrush_v.Text.Chars.{Text}
use sitebrush_v.Text.Basic.{contains}

-- The first part, and the others.
unfoldable pub split_on : ℕ → Text → Text × List Text
split_on sep [] = ([], [])
split_on sep (c ∷ s) =
    let rest = split_on sep s in if c == sep then ([], rest.0 ∷ rest.1) else (c ∷ rest.0, rest.1)

-- A text without the separator is one part.
pub split_on_whole : (sep : ℕ) (a : Text) → contains sep a ≡ false → split_on sep a ≡ (a, [])
unfolding split_on contains
split_on_whole sep [] h = refl
split_on_whole sep (c ∷ a) h = ground (arith, split_on_whole sep a)

-- The part in front of a separator is the first.
pub split_on-append :
    (sep : ℕ) (a b : Text)
    → contains sep a ≡ false
    → split_on sep (a ++ sep ∷ b) ≡ (a, (split_on sep b).0 ∷ (split_on sep b).1)
unfolding split_on contains
split_on-append sep [] b h = ground (arith, ==_self sep)
split_on-append sep (c ∷ a) b h = ground (arith, split_on-append sep a b)
