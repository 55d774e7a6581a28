-- ===== src/Pages/Names.antt =====
-- safeArchiveName and revisionDir of pkg/webserver/functions.go: the names of a page's files in the archive.
use sitebrush_v.Prelude.{ℕ, true, [], ◌∷◌, ◌++◌, if◌then◌else◌, ◌==◌, take}
use sitebrush_v.Text.{Text, codes, is_empty, trim_prefix, trim_both}
use sitebrush_v.Paths.{segments, clean_from, join_slash}

-- path.Clean("/" + strings.TrimPrefix(uri, "/"))
unfoldable pub clean_uri : Text → Text
unfolding clean_from segments join_slash trim_prefix
clean_uri uri = b'/' ∷ join_slash (clean_from true [] (segments (trim_prefix (codes "/") uri)))

-- strings.ReplaceAll of one rune by another
unfoldable pub replace_rune : ℕ → ℕ → Text → Text
replace_rune a b [] = []
replace_rune a b (c ∷ s) = let rest = replace_rune a b s in if c == a then b ∷ rest else c ∷ rest

unfoldable pub safe_name : Text → Text
unfolding clean_uri replace_rune trim_both
safe_name uri =
    let name = trim_both (λ c. c == b'_') (replace_rune b'/' b'_' (clean_uri uri)) in
    if is_empty name then codes "index" else name

-- The directory under "revisions": the last component of revisionDir.
unfoldable pub revision_dir : Text → Text
unfolding safe_name
revision_dir uri = safe_name uri

-- safeArchiveName, for SHA-256 in hexadecimal.
unfoldable pub safe_archive_name : (Text → Text) → Text → Text
unfolding safe_name clean_uri
safe_archive_name sha256_hex uri =
    safe_name uri ++ codes "-" ++ take 12 (sha256_hex (clean_uri uri))
