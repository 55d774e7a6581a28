-- ===== src/Properties/Tests.antt =====
-- Witnesses for the properties of a page: /old of a site in /srv/web, whose move to /new goes through, or is taken
-- back because a directory cannot be synced or a redirect cannot be saved.
use sitebrush_v.Prelude.{
  ◌≡◌, ◌⊎◌, refl, arith, Bool, true, false, [], ◌∷◌, Option, none, some, length, if◌then◌else◌, ltb,
}
use sitebrush_v.Prelude.Int.{pos}
use sitebrush_v.Text.{
  codes, text_eq, contains, has_prefix, strip_prefix, trim_prefix, split_on, trim_left, trim_right,
  is_space,
}
use sitebrush_v.Files.{Write, atomic_write_file}
use sitebrush_v.Data.{Redirect}
use sitebrush_v.Database.Sql.{sqlite, Answers, draws_id, reads_id}
use sitebrush_v.Database.Redirects.{save_redirect, insert_redirect, with_defaults}
use sitebrush_v.Paths.{
  AbsPath, segments, drop_last, last_of, go_up, enter, clean_from, join_slash, absolute, join_under,
  join_index, rel, rel_text, path_is_inside_root, path_unescape, segments_safe, ends_with_slash,
  relative_path, check_target, safe_path_under_root, request_uri, canonical_request_uri_for_file,
  Stat, exists, missing, existing_parent, check_parent, validate_existing_parent_symlink_safe,
  safe_writable_static_file_path,
}
use sitebrush_v.Pages.Names.{safe_archive_name}
use sitebrush_v.Properties
use sitebrush_v.Routes.Runes.{trim_space_bytes}
use sitebrush_v.Properties.{
  State, Form, Surroundings, metadata_of, json_metadata, wanted_path, metadata_name,
  remove_page_metadata, clean_up, redirect_moved, move_page, apply_properties, update_properties,
  rename_failed,
}
use sitebrush_v.Properties.Rename
use sitebrush_v.Properties.Rename.{
  parent_is_safe, Files, path_eq, rename_file, rollback_rename, rename_static_file, sync_failed,
}
use sitebrush_v.Properties.RedirectFile
use sitebrush_v.Properties.RedirectFile.{
  listed, Redirects, load_redirects, replace_or_append, restore_redirects_file, record_redirect,
  save_redirect_file, find_redirect, found, not_in_database, not_written, rollback_failed,
}
use sitebrush_v.Properties.Redirected.{configured, find_redirect-save_redirect_file}
use sitebrush_v.Properties.Update.{Target, update_properties-failed}
use sitebrush_v.Properties.Moved.{IsMoved, update_properties-IsMoved}

abbrev done : Write
done = record { renames = true; syncs = true }

abbrev site : AbsPath
site = codes "srv" ∷ codes "web" ∷ []

abbrev old_path : AbsPath
old_path = codes "srv" ∷ codes "web" ∷ codes "old" ∷ []

abbrev new_path : AbsPath
new_path = codes "srv" ∷ codes "web" ∷ codes "new" ∷ codes "index.html" ∷ []

abbrev files : Files
unfolding path_eq
files path = if path_eq path old_path then some (codes "hello") else none

abbrev no_links : AbsPath → Option AbsPath
no_links path = some path

abbrev directories : AbsPath → Stat
directories path = if ltb (length path) 3 then exists else missing

abbrev rename_answer : Bool → Rename.Answer
rename_answer syncs = record {
  root_path = site;
  lstat = directories;
  eval_symlinks = no_links;
  stats_new = true;
  stats_current = true;
  makes_dir = true;
  renames = true;
  syncs_new = syncs;
  syncs_current = true;
  renames_back = true;
  syncs_back_current = true;
  syncs_back_new = true;
}

abbrev engine : Bool → Answers
engine connected = record {
  connected = connected;
  begins = true;
  selects = true;
  draws = true;
  deletes = true;
  inserts = true;
  reports_id = true;
  commits = true;
  row_id = pos 7;
  random_id = pos 8;
}

abbrev redirect_answer : Bool → RedirectFile.Answer
redirect_answer connected = record {
  reads = true;
  writes = done;
  database = some (sqlite, engine connected);
  now = pos 5;
  restores = done;
  removes = true;
}

abbrev moved_redirect : Redirect
moved_redirect = record {
  id = pos 0;
  old_uri = codes "/old";
  new_uri = codes "/new/";
  date = pos 5;
  status = codes "active";
  domain = codes "x.org";
}

abbrev no_redirects : Redirects
no_redirects = record { file = listed []; rows = [] }

sample_redirect : (save_redirect_file (redirect_answer true) moved_redirect no_redirects).1 ≡ none
unfolding save_redirect_file load_redirects record_redirect save_redirect insert_redirect draws_id
    reads_id with_defaults
sample_redirect = refl

find_redirect-save_redirect_file_example :
    (row : Redirect) × (find_redirect
        (configured (redirect_answer true) moved_redirect no_redirects)
        true
        (codes "/old")
        (codes "x.org")
        (save_redirect_file (redirect_answer true) moved_redirect no_redirects).0
      ≡ found row)
    × (row.new_uri ≡ codes "/new/")
find_redirect-save_redirect_file_example =
    find_redirect-save_redirect_file (redirect_answer true) moved_redirect no_redirects
      sample_redirect refl (λ d. absurd (ground (arith, d)))

abbrev surroundings : Surroundings
surroundings = record {
  cwd = some (codes "srv" ∷ []);
  lstat = directories;
  eval_symlinks = no_links;
  root = codes "web";
  root_path = site;
  index_file = codes "index.html";
  sha256_hex = λ s. s;
  domain = codes "x.org";
}

abbrev answer : Bool → Properties.Answer
answer syncs = record {
  writes_metadata = done;
  renames = rename_answer syncs;
  saves_redirect = redirect_answer true;
  renames_back = rename_answer true;
  removes_metadata = true;
  syncs_metadata = true;
  now = pos 5;
}

abbrev form : Form
form = record {
  new_path = codes "/new/";
  title = codes "New";
  tags = [];
  status = [];
  published = true;
}

abbrev state : State
state = record { files = files; metadata = λ name. none; redirects = no_redirects }

sample_update : (update_properties surroundings (answer true) form old_path state).1 ≡ none
unfolding update_properties apply_properties move_page redirect_moved clean_up remove_page_metadata
    metadata_of wanted_path canonical_request_uri_for_file request_uri last_of save_redirect_file
    load_redirects record_redirect save_redirect insert_redirect draws_id reads_id with_defaults
    rename_static_file rollback_rename parent_is_safe path_eq safe_writable_static_file_path
    validate_existing_parent_symlink_safe existing_parent check_parent drop_last
    safe_path_under_root path_unescape contains has_prefix strip_prefix trim_prefix segments_safe
    segments split_on absolute clean_from enter go_up text_eq join_under relative_path join_index
    ends_with_slash check_target path_is_inside_root rel rel_text join_slash atomic_write_file
    trim_space_bytes trim_left trim_right is_space safe_archive_name
sample_update = refl

sample_update_failure :
    (update_properties surroundings (answer false) form old_path state).1
    ≡ some (rename_failed sync_failed)
unfolding update_properties apply_properties move_page redirect_moved clean_up remove_page_metadata
    metadata_of wanted_path canonical_request_uri_for_file request_uri last_of save_redirect_file
    load_redirects record_redirect save_redirect insert_redirect draws_id reads_id with_defaults
    rename_static_file rollback_rename parent_is_safe path_eq safe_writable_static_file_path
    validate_existing_parent_symlink_safe existing_parent check_parent drop_last
    safe_path_under_root path_unescape contains has_prefix strip_prefix trim_prefix segments_safe
    segments split_on absolute clean_from enter go_up text_eq join_under relative_path join_index
    ends_with_slash check_target path_is_inside_root rel rel_text join_slash atomic_write_file
    trim_space_bytes trim_left trim_right is_space safe_archive_name
sample_update_failure = refl

update_properties-failed_example :
    (update_properties surroundings (answer false) form old_path state).0.files old_path
    ≡ files old_path
update_properties-failed_example =
    update_properties-failed surroundings (answer false) form old_path state
      (rename_failed sync_failed) old_path sample_update_failure (λ e. absurd (ground (arith, e)))

sample_file : files old_path ≡ some (codes "hello")
unfolding text_eq files
sample_file = refl

update_properties-IsMoved_example :
    (t : Target surroundings (answer true) form old_path state) × ((update_properties surroundings
          (answer true)
          form
          old_path
          state).0.metadata
        (metadata_name surroundings t.new_uri)
      ≡ some (json_metadata (metadata_of form t.new_uri (pos 5))))
    × (((text_eq t.new_uri t.current_uri ≡ true)
          × ((path : AbsPath)
              → (update_properties surroundings (answer true) form old_path state).0.files path
                ≡ files path))
        ⊎ IsMoved surroundings (answer true) form old_path state t (codes "hello"))
update_properties-IsMoved_example =
    update_properties-IsMoved surroundings (answer true) form old_path state (codes "hello")
      sample_file (λ t d. absurd (ground (arith, d))) sample_update
