-- ===== src/Text/Search.antt =====
-- strings.Contains.
use sitebrush_v.Prelude.{Bool, ◌||◌, [], ◌∷◌}
use sitebrush_v.Text.Chars.{Text}
use sitebrush_v.Text.Basic.{has_prefix}

-- strings.Contains(s, p)
unfoldable pub contains_text : Text → Text → Bool
unfolding has_prefix
contains_text p [] = has_prefix p []
contains_text p (c ∷ s) = has_prefix p (c ∷ s) || contains_text p s
