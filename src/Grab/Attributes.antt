-- ===== src/Grab/Attributes.antt =====
-- dangerousImportedURLAttr and what stands around it in pkg/webserver/grab.go: which attributes an imported
-- page may keep, and which of its markers are names of templates.
use sitebrush_v.Prelude.{ℕ, Bool, true, false, ◌||◌, List, [], ◌∷◌, if◌then◌else◌, ◌==◌, leb}
use sitebrush_v.Text.{Text, codes, Unicode, text_eq, one_of, has_prefix, to_lower, trim_space}

-- The runes that normalizeImportedURLForSafety leaves out.
unfoldable pub is_skipped : ℕ → Bool
is_skipped c = leb c b' ' || c == 0x7F

-- The loop of normalizeImportedURLForSafety.
unfoldable pub without_skipped : Text → Text
unfolding is_skipped
without_skipped [] = []
without_skipped (c ∷ s) = let rest = without_skipped s in if is_skipped c then rest else c ∷ rest

module _ (u : Unicode) where
  unfoldable pub normalize_imported_url : Text → Text
  unfolding to_lower trim_space without_skipped
  normalize_imported_url value = without_skipped (to_lower u (trim_space value))

  abbrev pub url_attributes : List Text
  url_attributes =
      codes "href" ∷ codes "src" ∷ codes "action" ∷ codes "formaction" ∷ codes "xlink:href" ∷ []

  -- The tests on the normalized value.
  unfoldable pub is_dangerous_url : Text → Text → Bool
  unfolding has_prefix text_eq
  is_dangerous_url name normalized =
      if has_prefix (codes "javascript:") normalized || has_prefix (codes "data:") normalized
      then true
      else if text_eq name (codes "action") || text_eq name (codes "formaction")
      then has_prefix (codes "http:") normalized
        || (has_prefix (codes "https:") normalized || has_prefix (codes "//") normalized)
      else false

  unfoldable pub dangerous_imported_url_attr : Text → Text → Bool
  unfolding one_of normalize_imported_url is_dangerous_url
  dangerous_imported_url_attr name value =
      if one_of name url_attributes
      then is_dangerous_url name (normalize_imported_url value)
      else false
