-- ===== src/Subpages/Tests.antt =====
-- A witness for a new page: /news below the home page of a site in /srv/web that has no other files.
use sitebrush_v.Prelude.{
  ◌≡◌, ◌⊎◌, refl, true, false, [], ◌∷◌, none, some, length, if◌then◌else◌, ltb,
}
use sitebrush_v.Routes.Runes.{trim_space_bytes}
use sitebrush_v.Text.{Text, codes}
use sitebrush_v.Paths.{AbsPath, exists, missing, path_ok, safe_writable_static_file_path}
use sitebrush_v.Properties.Rename.{Files}
use sitebrush_v.Properties.{Surroundings}
use sitebrush_v.Subpages.{Answer, contains_path_traversal_segment, requested, create_subpage}
use sitebrush_v.Subpages.Created.{IsMade, IsRefused, create_subpage_outcome}

abbrev surroundings : Surroundings
surroundings = record {
  cwd = some (codes "srv" ∷ []);
  lstat = λ path. if ltb (length path) 3 then exists else missing;
  eval_symlinks = λ path. some path;
  root = codes "web";
  root_path = codes "srv" ∷ codes "web" ∷ [];
  index_file = codes "index.html";
  sha256_hex = λ s. s;
  domain = codes "x.org";
}

abbrev escape : Text → Text
escape s = s

abbrev answer : Answer
answer = record { stats = true; writes = record { renames = true; syncs = true } }

abbrev home : AbsPath
home = codes "srv" ∷ codes "web" ∷ codes "index.html" ∷ []

abbrev no_files : Files
no_files path = none

create_subpage_outcome_example :
    (((create_subpage surroundings escape answer home (codes "news") [] no_files).1 ≡ none)
      × (contains_path_traversal_segment (trim_space_bytes (codes "news")) ≡ false)
      × ((absolute_path : Text) × (name : AbsPath) × (requested surroundings escape home
              (trim_space_bytes (codes "news"))
            ≡ some absolute_path)
          × (safe_writable_static_file_path surroundings.cwd surroundings.lstat
                surroundings.eval_symlinks surroundings.root absolute_path surroundings.index_file
              ≡ path_ok name)
          × IsMade surroundings escape answer name home [] no_files
              (create_subpage surroundings escape answer home (codes "news") [] no_files).0))
    ⊎ IsRefused surroundings escape answer home no_files
        (create_subpage surroundings escape answer home (codes "news") [] no_files)
create_subpage_outcome_example =
    create_subpage_outcome surroundings escape answer home home (codes "news") [] no_files

news_is_made : (create_subpage surroundings escape answer home (codes "news") [] no_files).1 ≡ none
unfolding create_subpage
news_is_made = refl
