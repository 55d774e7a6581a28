-- ===== src/Backup/Tests.antt =====
-- Witnesses for the restoring of a backup with one page, whose record cannot be made, so that it is taken back.
use sitebrush_v.Prelude.{
  ◌⊎◌, length, ltb, ◌≡◌, refl, arith, true, false, List, [], ◌∷◌, none, some, All, if◌then◌else◌,
}
use sitebrush_v.Text.{codes, text_eq, contains, has_prefix, strip_prefix, trim_prefix, split_on}
use sitebrush_v.Files.{Write, atomic_write_file}
use sitebrush_v.Paths.{
  AbsPath, exists, missing, validate_existing_parent_symlink_safe, existing_parent, check_parent,
  drop_last, segments, go_up, enter, clean_from, join_slash, join_under, rel, rel_text,
  path_is_inside_root,
}
use sitebrush_v.Paths.Clean.{IsComponent}
use sitebrush_v.Properties.Rename.{path_eq}
use sitebrush_v.Backup
use sitebrush_v.Backup.Places.{Disk, reject_symlink_components, validate_restore_target_path}
use sitebrush_v.Backup.Links.{NoLink, validate_restore_target_path-NoLink}
use sitebrush_v.Backup.{
  ZipEntry, FileTree, Roots, target, trim_last_slash, validate_backup_entry_name, join_target,
  restore_target_for_archive_name, restore_failed, rollback_failed, validate_restore_archive, among,
  collect_restore_targets, put_file, restore_file, restore_files, rollback_restore, all_captured,
  restore_or_undo, restore_backup,
}
use sitebrush_v.Backup.Checked.{MayChange, restore_backup-checked}
use sitebrush_v.Backup.Undone.{restore_backup-undone}

abbrev web : AbsPath
web = codes "web" ∷ []

abbrev archive : AbsPath
archive = codes "archive" ∷ []

abbrev roots : Roots
roots = record { web = web; archive = archive }

abbrev page : AbsPath
page = codes "web" ∷ codes "a" ∷ []

web_components : All IsComponent web
unfolding text_eq contains
web_components = (record { named = refl; no_slash = refl; not_dot = refl; not_dots = refl }, tt)

archive_components : All IsComponent archive
unfolding text_eq contains
archive_components = (record { named = refl; no_slash = refl; not_dot = refl; not_dots = refl }, tt)

abbrev files : FileTree
unfolding path_eq
files path = if path_eq path page then some (codes "old", 0x1A4) else none

abbrev done : Write
done = record { renames = true; syncs = true }

abbrev disk : Disk
disk = record {
  lstat = λ path. if ltb (length path) 2 then exists else missing;
  is_link = λ path. false;
  eval_symlinks = λ path. some path;
}

abbrev unrecorded : Backup.Answer
unrecorded = record {
  opens = true;
  disk = disk;
  captures = λ path. true;
  restores = λ i. done;
  checks_and_records = false;
  writes_back = λ i. done;
  removes_back = λ i. done;
}

abbrev entries : List ZipEntry
entries =
    record {
      name = codes "web/a";
      is_symlink = false;
      is_dir = false;
      content = some (codes "new");
      mode = 0;
    }
    ∷ []

sample_failure : (restore_backup roots unrecorded entries files).1 ≡ some restore_failed
unfolding validate_restore_target_path reject_symlink_components
    validate_existing_parent_symlink_safe existing_parent check_parent drop_last restore_backup
    validate_restore_archive among collect_restore_targets put_file restore_file restore_files
    rollback_restore all_captured restore_or_undo restore_target_for_archive_name
    validate_backup_entry_name trim_last_slash join_target has_prefix strip_prefix trim_prefix
    contains segments split_on clean_from enter go_up rel_text join_slash text_eq join_under
    path_is_inside_root rel path_eq atomic_write_file
sample_failure = refl

restore_backup-undone_example : (restore_backup roots unrecorded entries files).0 page ≡ files page
restore_backup-undone_example =
    restore_backup-undone unrecorded page roots entries files restore_failed sample_failure
      (λ e. absurd (ground (arith, e)))

sample_place : validate_restore_target_path disk web page ≡ true
unfolding validate_restore_target_path reject_symlink_components
    validate_existing_parent_symlink_safe existing_parent check_parent drop_last path_is_inside_root
    rel rel_text join_slash text_eq has_prefix strip_prefix
sample_place = refl

validate_restore_target_path-NoLink_example : NoLink disk page
validate_restore_target_path-NoLink_example =
    validate_restore_target_path-NoLink disk web (codes "a" ∷ []) [] sample_place (refl, tt)

restore_backup-checked_example :
    ((restore_backup roots unrecorded entries files).0 page ≡ files page)
    ⊎ MayChange roots unrecorded web_components archive_components page
restore_backup-checked_example =
    restore_backup-checked roots unrecorded web_components archive_components entries files page
