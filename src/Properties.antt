-- ===== src/Properties.antt =====
-- updateProperties of pkg/webserver/functions.go: a page's metadata, and its move to another path with a
-- redirect from the old one. SHA-256, the file system's answers and the request's domain enter as arguments.
pub mod Rename
pub mod RedirectFile
pub mod Redirected
pub mod Renamed
pub mod Update
pub mod Moved
mod Tests
use sitebrush_v.Prelude.{
  Bool, true, false, not, ◌&&◌, List, [], ◌∷◌, ◌++◌, Option, none, some, if◌then◌else◌,
}
use sitebrush_v.Prelude.Int.{ℤ, pos}
use sitebrush_v.Text.{Text, codes, text_eq, is_empty, has_prefix}
use sitebrush_v.Files.{Write, written, atomic_write_file}
use sitebrush_v.Data.{Redirect}
use sitebrush_v.Paths.{
  AbsPath, Stat, path_ok, path_err, safe_writable_static_file_path, canonical_request_uri_for_file,
}
use sitebrush_v.Routes.Runes.{trim_space_bytes}
use sitebrush_v.Pages.Json.{as_utf8}
use sitebrush_v.Pages.Names.{safe_archive_name}
use sitebrush_v.Pages.Titles.{title_from_request_uri}
use sitebrush_v.Upload.Records.{put}
use sitebrush_v.Properties.Rename.{Files, RenameError, rename_static_file}
use sitebrush_v.Properties.RedirectFile.{Redirects, RedirectError, save_redirect_file}

-- pageMetadata
pub record PageMetadata : Type 0 where
  pub path : Text
  pub title : Text
  pub tags : Text
  pub status : Text
  pub published : Bool
  pub updated_at : ℤ

-- The static files, the metadata files by their names, and the redirects.
pub record State : Type 0 where
  pub files : Files
  pub metadata : Text → Option PageMetadata
  pub redirects : Redirects

-- The fields of the request's form.
pub record Form : Type 0 where
  pub new_path : Text
  pub title : Text
  pub tags : Text
  pub status : Text
  pub published : Bool

-- The site's directories and what the system says of them.
pub record Surroundings : Type 0 where
  pub cwd : Option AbsPath
  pub lstat : AbsPath → Stat
  pub eval_symlinks : AbsPath → Option AbsPath
  pub root : Text
  pub root_path : AbsPath
  pub index_file : Text
  pub sha256_hex : Text → Text
  pub domain : Text

-- How the system answers one update.
pub record Answer : Type 0 where
  pub writes_metadata : Write
  pub renames : Rename.Answer
  pub saves_redirect : RedirectFile.Answer
  pub renames_back : Rename.Answer
  pub removes_metadata : Bool
  pub syncs_metadata : Bool
  pub now : ℤ

pub data UpdateError : Type 0 where
  outside_root unsafe_new_path metadata_not_written : UpdateError
  rename_failed rename_cleanup_failed : RenameError → UpdateError
  redirect_failed redirect_undo_failed redirect_cleanup_failed : RedirectError → UpdateError

-- The path that the form asks for, absolute; the current URI if the field is blank.
unfoldable pub wanted_path : Form → Text → Text
unfolding trim_space_bytes
wanted_path form current_uri =
    let path =
      if is_empty (trim_space_bytes form.new_path)
      then current_uri
      else trim_space_bytes form.new_path in
    if has_prefix (codes "/") path then path else b'/' ∷ path

unfoldable pub metadata_of : Form → Text → ℤ → PageMetadata
unfolding trim_space_bytes title_from_request_uri
metadata_of form uri now = record {
  path = uri;
  title =
      if is_empty (trim_space_bytes form.title)
      then title_from_request_uri uri
      else trim_space_bytes form.title;
  tags = trim_space_bytes form.tags;
  status =
      if is_empty (trim_space_bytes form.status)
      then codes "active"
      else trim_space_bytes form.status;
  published = form.published;
  updated_at = now;
}

-- What json.Unmarshal reads of the metadata that json.MarshalIndent wrote.
abbrev pub json_metadata : PageMetadata → PageMetadata
json_metadata m = record m {
  path = as_utf8 m.path;
  title = as_utf8 m.title;
  tags = as_utf8 m.tags;
  status = as_utf8 m.status;
}

-- removePageMetadata: the file's content after it, and whether it reports no error.
unfoldable pub remove_page_metadata : Answer → Option PageMetadata → Option PageMetadata × Bool
remove_page_metadata w old =
    ((if w.removes_metadata then none else old), w.removes_metadata && w.syncs_metadata)

module _ (d : Surroundings) where
  -- The name of a metadata file.
  abbrev pub metadata_name : Text → Text
  metadata_name uri = safe_archive_name d.sha256_hex uri

  abbrev pub redirect_of : Answer → Text → Text → Redirect
  redirect_of w current_uri new_uri = record {
    id = pos 0;
    old_uri = current_uri;
    new_uri = new_uri;
    date = w.now;
    status = codes "active";
    domain = d.domain;
  }

  -- A failed step takes the new metadata away again, and says whether that failed too.
  unfoldable pub clean_up :
      Answer → Text → State → UpdateError → UpdateError → State × Option UpdateError
  unfolding remove_page_metadata
  clean_up w new_uri s e worse =
      let name = metadata_name new_uri in
      let (old, removed) = remove_page_metadata w (s.metadata name) in
      (record s { metadata = put s.metadata name old }, some (if removed then e else worse))

  -- From the redirect on, once the file is renamed.
  unfoldable pub redirect_moved :
      Answer → AbsPath → AbsPath → Text → Text → State → State × Option UpdateError
  unfolding save_redirect_file rename_static_file clean_up
  redirect_moved w current new current_uri new_uri s =
      let (redirects, failed) =
        save_redirect_file w.saves_redirect (redirect_of w current_uri new_uri) s.redirects in
      let kept = record s { redirects = redirects } in
      elim failed [
        | none ↦ (kept, none)
        | some e ↦
            let (files, stuck) = rename_static_file w.renames_back s.files new current in
            let back = record kept { files = files } in
            elim stuck [
              | some _ ↦ (back, some (redirect_undo_failed e))
              | none ↦ clean_up w new_uri back (redirect_failed e) (redirect_cleanup_failed e)
            ]
      ]

  -- The move of a page to another URI, once its metadata is written.
  unfoldable pub move_page :
      Answer → AbsPath → AbsPath → Text → Text → State → State × Option UpdateError
  unfolding rename_static_file clean_up redirect_moved
  move_page w current new current_uri new_uri s =
      let (files, failed) = rename_static_file w.renames s.files current new in
      let moved = record s { files = files } in
      elim failed [
        | some e ↦ clean_up w new_uri moved (rename_failed e) (rename_cleanup_failed e)
        | none ↦ redirect_moved w current new current_uri new_uri moved
      ]

  -- From the metadata file on.
  unfoldable pub apply_properties :
      Answer → Form → AbsPath → AbsPath → Text → Text → State → State × Option UpdateError
  unfolding metadata_of move_page atomic_write_file
  apply_properties w form current new current_uri new_uri s =
      let name = metadata_name new_uri in
      let metadata =
        atomic_write_file w.writes_metadata (s.metadata name)
          (some (json_metadata (metadata_of form new_uri w.now))) in
      let noted = record s { metadata = put s.metadata name metadata } in
      if not (written w.writes_metadata)
      then (noted, some metadata_not_written)
      else if text_eq new_uri current_uri
      then (noted, none)
      else move_page w current new current_uri new_uri noted

  unfoldable pub update_properties : Answer → Form → AbsPath → State → State × Option UpdateError
  unfolding canonical_request_uri_for_file wanted_path safe_writable_static_file_path
      apply_properties
  update_properties w form current s =
      elim (canonical_request_uri_for_file d.index_file d.root_path current) [
        | none ↦ (s, some outside_root)
        | some current_uri ↦
            elim (safe_writable_static_file_path d.cwd d.lstat d.eval_symlinks d.root
              (wanted_path form current_uri) d.index_file) [
                | path_err _ ↦ (s, some unsafe_new_path)
                | path_ok new ↦ elim (canonical_request_uri_for_file d.index_file d.root_path new) [
                  | none ↦ (s, some outside_root)
                  | some new_uri ↦ apply_properties w form current new current_uri new_uri s
                ]
              ]
      ]
