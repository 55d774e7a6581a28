-- ===== src/Subpages.antt =====
-- createSubpage of pkg/webserver/functions.go: a new page below another. template.HTMLEscapeString enters as an
-- argument.
mod Tests
pub mod Created
use sitebrush_v.Prelude.{
  ◌≡◌, ◌==◌, ℕ, Bool, true, false, not, ◌&&◌, ◌||◌, List, [], ◌∷◌, ◌++◌, Option, none, some,
  if◌then◌else◌,
}
use sitebrush_v.Routes.Runes.{trim_space_bytes}
use sitebrush_v.Text.{Text, codes, text_eq, is_empty, contains, has_prefix, trim_right}
use sitebrush_v.Files.{Write, written, atomic_write_file}
use sitebrush_v.Paths.{
  AbsPath, Stat, segments, clean_from, join_slash, last_of, ends_with_slash, path_unescape,
  PathResult, path_ok, path_err, safe_writable_static_file_path, canonical_request_uri_for_file,
}
use sitebrush_v.Pages.Titles.{without_ext, title_from_request_uri}
use sitebrush_v.Properties.Rename.{Files, path_eq, is_there}
use sitebrush_v.Properties.{Surroundings}

unfoldable pub any_dots : List Text → Bool
unfolding text_eq
any_dots [] = false
any_dots (s ∷ ss) = text_eq s (codes "..") || any_dots ss

unfoldable pub contains_path_traversal_segment : Text → Bool
unfolding path_unescape any_dots segments
contains_path_traversal_segment path = elim (path_unescape path) [
  | none ↦ true
  | some unescaped ↦ any_dots (segments unescaped)
]

-- path.Ext(uri) != ""
unfoldable pub has_ext : Text → Bool
unfolding last_of segments contains
has_ext uri = elim (last_of (segments uri)) [ none ↦ false | some base ↦ contains b'.' base ]

unfoldable pub subpage_prefix : Text → Text
unfolding ends_with_slash has_ext without_ext trim_right text_eq
subpage_prefix uri =
    if is_empty uri || text_eq uri (codes "/")
    then codes "/"
    else if ends_with_slash uri
    then uri
    else if has_ext uri
    then without_ext uri ++ codes "/"
    else trim_right (λ c. c == b'/') uri ++ codes "/"

-- strings.HasSuffix(path, ".html")
unfoldable pub is_html : Text → Bool
unfolding text_eq
is_html [] = false
is_html (c ∷ s) = text_eq (c ∷ s) (codes ".html") || is_html s

-- The path with the extension that a page gets.
unfoldable pub with_html : Text → Text
unfolding is_html ends_with_slash
with_html path =
    if not (is_html path) && not (ends_with_slash path) then path ++ codes ".html" else path

-- path.Join of an absolute path and another.
unfoldable pub join_path : Text → Text → Text
unfolding clean_from segments join_slash
join_path prefix path = b'/' ∷ join_slash (clean_from true [] (segments (prefix ++ b'/' ∷ path)))

pub data SubpageError : Type 0 where
  unsafe_subpage subpage_exists not_statted not_written : SubpageError

-- How the system answers one creation: `stats` is whether os.Stat tells if the file is there.
pub record Answer : Type 0 where
  pub stats : Bool
  pub writes : Write

module _ (d : Surroundings) (escape : Text → Text) where
  -- The path that is asked for, absolute; `none` if the current file has none.
  unfoldable pub requested : AbsPath → Text → Option Text
  unfolding with_html has_prefix canonical_request_uri_for_file join_path subpage_prefix
  requested current path =
      if has_prefix (codes "/") (with_html path)
      then some (with_html path)
      else elim (canonical_request_uri_for_file d.index_file d.root_path current) [
        | none ↦ none
        | some uri ↦ some (join_path (subpage_prefix uri) (with_html path))
      ]

  abbrev pub page_body : Text → Text
  page_body title =
      codes "<!doctype html>\n<html><head><meta charset=\"utf-8\"><title>"
      ++ escape title
      ++ codes "</title></head><body><h1>"
      ++ escape title
      ++ codes "</h1></body></html>\n"

  -- The title, from the page's path if none is given.
  unfoldable pub title_of : AbsPath → Text → Option Text
  unfolding trim_space_bytes canonical_request_uri_for_file title_from_request_uri
  title_of name title =
      if not (is_empty (trim_space_bytes title))
      then some (trim_space_bytes title)
      else elim (canonical_request_uri_for_file d.index_file d.root_path name) [
        | none ↦ none
        | some uri ↦ some (title_from_request_uri uri)
      ]

  -- From os.Stat on.
  unfoldable pub write_subpage : Answer → AbsPath → Text → Files → Files × Option SubpageError
  unfolding title_of atomic_write_file path_eq
  write_subpage w name title files =
      if not w.stats
      then (files, some not_statted)
      else if is_there (files name)
      then (files, some subpage_exists)
      else elim (title_of name title) [
        | none ↦ (files, some unsafe_subpage)
        | some t ↦ (
          (λ path.
              if path_eq path name
              then atomic_write_file w.writes (files name) (some (page_body t))
              else files path),
          (if written w.writes then none else some not_written),
        )
      ]

  unfoldable pub create_subpage :
      Answer → AbsPath → Text → Text → Files → Files × Option SubpageError
  unfolding contains_path_traversal_segment requested safe_writable_static_file_path write_subpage
      trim_space_bytes
  create_subpage w current path title files =
      let trimmed = trim_space_bytes path in
      if is_empty trimmed || contains_path_traversal_segment trimmed
      then (files, some unsafe_subpage)
      else elim (requested current trimmed) [
        | none ↦ (files, some unsafe_subpage)
        | some absolute_path ↦
            elim (safe_writable_static_file_path d.cwd d.lstat d.eval_symlinks d.root absolute_path
              d.index_file) [
                | path_err e ↦ (files, some unsafe_subpage)
                | path_ok name ↦ write_subpage w name title files
              ]
      ]
