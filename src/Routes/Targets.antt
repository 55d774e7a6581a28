-- ===== src/Routes/Targets.antt =====
-- validInternalRedirectTarget of pkg/webserver/functions.go, over url.Parse.
use sitebrush_v.Prelude.{
  ◌≡◌, refl, inl, inr, Bool, true, false, not, ◌&&◌, ◌||◌, List, [], ◌∷◌, Option, none, some,
  if◌then◌else◌, arith, Option-cases,
}
use sitebrush_v.Text.{Text, codes, text_eq, is_empty, contains, has_prefix}
use sitebrush_v.Hosts.{has_blank}
use sitebrush_v.Paths.{segments, path_unescape}
use sitebrush_v.Routes.Runes.{runes}
use sitebrush_v.Routes.Query.{cut_at}

-- The path of url.Parse, for a text that begins with one slash and has no control character: the text in front of
-- the query, unescaped. A fragment is unescaped too.
unfoldable pub parsed_path : Text → Option Text
unfolding cut_at path_unescape
parsed_path target =
    let (before, fragment) = cut_at b'#' target in
    elim (path_unescape (cut_at b'?' before).0) [
      | none ↦ none
      | some path ↦ elim (path_unescape fragment) [ none ↦ none | some _ ↦ some path ]
    ]

-- No segment is "..".
unfoldable pub no_dots : List Text → Bool
no_dots [] = true
no_dots (s ∷ ss) = not (text_eq s (codes "..")) && no_dots ss

-- The tests on the path, unescaped a second time.
unfoldable pub path_is_internal : Text → Bool
unfolding runes has_blank no_dots segments
path_is_internal path =
    not (contains b'\\' path)
    && (not (has_prefix (codes "//") path)
        && (not (has_blank (runes path)) && no_dots (segments path)))

unfoldable pub valid_internal_redirect_target : Text → Bool
unfolding parsed_path path_unescape path_is_internal runes has_blank
valid_internal_redirect_target target =
    if is_empty target || not (has_prefix (codes "/") target) || has_prefix (codes "//") target
    then false
    else if contains b'\\' target
    then false
    else if has_blank (runes target)
    then false
    else elim (parsed_path target) [
      | none ↦ false
      | some path ↦ if not (has_prefix (codes "/") path) then false else elim (path_unescape path) [
        | none ↦ false
        | some unescaped ↦ path_is_internal unescaped
      ]
    ]

-- A target on the site itself: it begins with one slash, has no backslash and no blank, and nor has its path once
-- it is unescaped twice, which has no ".." segment either.
pub record IsInternal (target : Text) : Type 0 where
  pub slash : has_prefix (codes "/") target ≡ true
  pub no_host : has_prefix (codes "//") target ≡ false
  pub no_backslash : contains b'\\' target ≡ false
  pub no_blank : has_blank (runes target) ≡ false
  pub path : Text
  pub parsed : parsed_path target ≡ some path
  pub unescaped : Text
  pub unescapes : path_unescape path ≡ some unescaped
  pub still_no_host : has_prefix (codes "//") unescaped ≡ false
  pub still_no_backslash : contains b'\\' unescaped ≡ false
  pub still_no_blank : has_blank (runes unescaped) ≡ false
  pub stays : no_dots (segments unescaped) ≡ true

four_tests :
    (a b c d : Bool)
    → (not a && (not b && (not c && d))) ≡ true
    → (a ≡ false) × (b ≡ false) × (c ≡ false) × (d ≡ true)
four_tests a b c d h = (ground arith, ground arith, ground arith, ground arith)

guards :
    (a b c d e r : Bool)
    → (if a || not b || c then false else if d then false else if e then false else r) ≡ true
    → (b ≡ true) × (c ≡ false) × (d ≡ false) × (e ≡ false) × (r ≡ true)
guards a b c d e r h = (ground arith, ground arith, ground arith, ground arith, ground arith)

-- The tests on the parsed path.
path_tests : Option Text → Bool
unfolding path_unescape path_is_internal
path_tests parsed = elim parsed [
  | none ↦ false
  | some path ↦
      if not (has_prefix (codes "/") path)
      then false
      else elim (path_unescape path) [ none ↦ false | some unescaped ↦ path_is_internal unescaped ]
]

path_tests_passed :
    (parsed : Option Text)
    → path_tests parsed ≡ true
    → (path unescaped : Text) × (parsed ≡ some path)
      × (path_unescape path ≡ some unescaped)
      × (path_is_internal unescaped ≡ true)
unfolding path_tests
path_tests_passed none h = absurd (ground arith)
path_tests_passed (some path) h = elim (Option-cases (path_unescape path)) [
  | inl f ↦ absurd (ground (arith, f))
  | inr (unescaped, f) ↦ (path, unescaped, refl, f, ground (arith, f))
]

internal_path :
    (s : Text)
    → path_is_internal s ≡ true
    → (contains b'\\' s ≡ false)
      × (has_prefix (codes "//") s ≡ false)
      × (has_blank (runes s) ≡ false)
      × (no_dots (segments s) ≡ true)
unfolding path_is_internal
internal_path s h =
    four_tests (contains b'\\' s) (has_prefix (codes "//") s) (has_blank (runes s))
      (no_dots (segments s)) h

-- What the tests let through as the target of a redirect stays on the site.
pub valid_internal_redirect_target-IsInternal :
    (target : Text) → valid_internal_redirect_target target ≡ true → IsInternal target
unfolding valid_internal_redirect_target path_tests
valid_internal_redirect_target-IsInternal target h =
    let (slash, no_host, no_backslash, no_blank, rest) =
      guards (is_empty target) (has_prefix (codes "/") target) (has_prefix (codes "//") target)
        (contains b'\\' target) (has_blank (runes target)) (path_tests (parsed_path target)) h in
    let (path, unescaped, parsed, unescapes, passed) =
      path_tests_passed (parsed_path target) rest in
    let (still_no_backslash, still_no_host, still_no_blank, stays) =
      internal_path unescaped passed in
    record {
      slash = slash;
      no_host = no_host;
      no_backslash = no_backslash;
      no_blank = no_blank;
      path = path;
      parsed = parsed;
      unescaped = unescaped;
      unescapes = unescapes;
      still_no_host = still_no_host;
      still_no_backslash = still_no_backslash;
      still_no_blank = still_no_blank;
      stays = stays;
    }
