-- ===== src/Backup.antt =====
-- restoreBackup of pkg/webserver/functions.go: the files of an archive are put back, and if a step fails the
-- files that were there before are. The archive is the list of its entries as archive/zip reads it; links and
-- the file system's answers enter as arguments.
pub mod Places
pub mod Links
pub mod Targets
pub mod Undone
pub mod Checked
mod Tests
use sitebrush_v.Prelude.{
  ℕ, zero, suc, ◌+◌, Bool, true, false, not, ◌&&◌, ◌||◌, List, [], ◌∷◌, ◌++◌, Option, none, some,
  if◌then◌else◌, ◌==◌,
}
use sitebrush_v.Text.{
  Text, codes, text_eq, is_empty, contains, has_prefix, trim_prefix, contains_text,
}
use sitebrush_v.Files.{Write, written, atomic_write_file}
use sitebrush_v.Paths.{AbsPath, segments, clean_from, rel_text, join_under, path_is_inside_root}
use sitebrush_v.Properties.Rename.{path_eq}
use sitebrush_v.Backup.Places.{Disk, validate_restore_target_path}

-- One entry of a zip archive. `content` is `none` where it cannot be read.
pub record ZipEntry : Type 0 where
  pub name : Text
  pub is_symlink : Bool
  pub is_dir : Bool
  pub content : Option Text
  pub mode : ℕ

-- A regular file: its content and its permissions.
abbrev pub RegularFile : Type 0
RegularFile = Text × ℕ

abbrev pub FileTree : Type 0
FileTree = AbsPath → Option RegularFile

-- strings.TrimSuffix(name, "/")
unfoldable pub trim_last_slash : Text → Text
trim_last_slash [] = []
trim_last_slash (c ∷ s) =
    let rest = trim_last_slash s in
    if is_empty s then (if c == b'/' then [] else c ∷ []) else c ∷ rest

-- validateBackupEntryName: whether it reports no error. No name has a volume on Unix.
unfoldable pub validate_backup_entry_name : Text → Bool
unfolding clean_from segments rel_text trim_last_slash has_prefix text_eq
validate_backup_entry_name name =
    let cleaned = rel_text (clean_from false [] (segments name)) in
    if is_empty name || contains b'\\' name || contains 0 name
    then false
    else if has_prefix (codes "/") name
    then false
    else if text_eq cleaned (codes ".")
        || text_eq cleaned (codes "..")
        || has_prefix (codes "../") cleaned
    then false
    else text_eq cleaned (trim_last_slash name)

-- The directories that files are put back into.
pub record Roots : Type 0 where
  pub web : AbsPath
  pub archive : AbsPath

-- Where an entry goes: `ignored` for an entry that is no file of the site.
pub data Target : Type 0 where
  target : AbsPath → AbsPath → Target
  ignored unsafe_target : Target

-- safeJoinUnderRoot of a root and a relative path.
unfoldable pub join_target : AbsPath → Text → Target
unfolding join_under segments path_is_inside_root
join_target root relative =
    let path = join_under root (segments relative) in
    if path_is_inside_root root path then target root path else unsafe_target

-- restoreTargetForArchiveName and restoreRootForArchiveName: the root, and the path under it.
unfoldable pub restore_target_for_archive_name : Roots → Text → Target
unfolding validate_backup_entry_name join_target has_prefix trim_prefix text_eq contains_text
restore_target_for_archive_name d name =
    if not (validate_backup_entry_name name)
    then unsafe_target
    else if has_prefix (codes "web/") name
    then join_target d.web (trim_prefix (codes "web/") name)
    else if text_eq name (codes "archive/site-state.json")
    then target d.archive (d.archive ++ codes "site-state.json" ∷ [])
    else if text_eq name (codes "archive/redirects.json")
    then target d.archive (d.archive ++ codes "redirects.json" ∷ [])
    else if has_prefix (codes "archive/metadata/") name
        || (has_prefix (codes "archive/templates/") name
            || (has_prefix (codes "archive/domains/") name
                && (contains_text (codes "/media/") name
                    || contains_text (codes "/media-metadata/") name)))
    then join_target d.archive (trim_prefix (codes "archive/") name)
    else ignored

-- How the system answers one restoring. `checks_and_records` is whether the steps after the files go through; the row that
-- recordBackup writes to the database is not among the files. `disk` is the file system up to the first write,
-- `captures` the rest of captureRestoreRollbackEntry; the numbers are those of the files in their order. The answer to a removal is a Write as
-- well: whether the file is gone, and whether the directories that were made for it are, and the sync goes through.
pub record Answer : Type 0 where
  pub opens : Bool
  pub disk : Disk
  pub captures : AbsPath → Bool
  pub restores : ℕ → Write
  pub checks_and_records : Bool
  pub writes_back : ℕ → Write
  pub removes_back : ℕ → Write

pub data RestoreError : Type 0 where
  not_opened unsafe_archive duplicate_target not_captured restore_failed rollback_failed :
      RestoreError

-- One file to put back: restoreTarget.
pub record Restored : Type 0 where
  pub path : AbsPath
  pub file : Option RegularFile

-- validateRestoreArchive: whether it reports no error.
unfoldable pub validate_restore_archive : Roots → Answer → List ZipEntry → Bool
unfolding validate_backup_entry_name restore_target_for_archive_name validate_restore_target_path
validate_restore_archive d w [] = true
validate_restore_archive d w (e ∷ es) =
    let rest = validate_restore_archive d w es in
    if not (validate_backup_entry_name e.name) || e.is_symlink
    then false
    else if e.is_dir
    then rest
    else elim (restore_target_for_archive_name d e.name) [
      | unsafe_target ↦ false
      | ignored ↦ rest
      | target root path ↦ validate_restore_target_path w.disk root path && rest
    ]

unfoldable pub among : AbsPath → List Restored → Bool
unfolding path_eq
among path [] = false
among path (t ∷ ts) = path_eq path t.path || among path ts

-- The file of an entry, with the permissions that a missing mode gets.
abbrev pub file_of : ZipEntry → Option RegularFile
file_of e = elim e.content [
  | none ↦ none
  | some content ↦ some (content, (if e.mode == 0 then 0x1A4 else e.mode))
]

-- collectRestoreTargets, for the targets that the entries before have.
unfoldable pub collect_restore_targets :
    Roots → Answer → List Restored → List ZipEntry → Option RestoreError × List Restored
unfolding restore_target_for_archive_name among text_eq validate_restore_target_path
collect_restore_targets d w seen [] = (none, seen)
collect_restore_targets d w seen (e ∷ es) =
    elim (e.is_dir || text_eq e.name (codes "sitebrush-backup.json")) [
      | true ↦ collect_restore_targets d w seen es
      | false ↦ elim (restore_target_for_archive_name d e.name) [
        | unsafe_target ↦ (some unsafe_archive, seen)
        | ignored ↦ collect_restore_targets d w seen es
        | target root path ↦ elim (validate_restore_target_path w.disk root path) [
          | false ↦ (some unsafe_archive, seen)
          | true ↦ elim (among path seen) [
            | true ↦ (some duplicate_target, seen)
            | false ↦
                collect_restore_targets d w (seen ++ record { path = path; file = file_of e } ∷ [])
                  es
          ]
        ]
      ]
    ]

-- One path of the tree gets another file.
unfoldable pub put_file : FileTree → AbsPath → Option RegularFile → FileTree
unfolding path_eq
put_file files path file other = if path_eq other path then file else files other

-- restoreZipFile: an entry that cannot be read is not written.
unfoldable pub restore_file : Write → Restored → FileTree → FileTree × Bool
unfolding put_file atomic_write_file
restore_file w t files = elim t.file [
  | none ↦ (files, false)
  | some f ↦ (put_file files t.path (atomic_write_file w (files t.path) (some f)), written w)
]

-- The loop that puts the files back: the first that fails ends it.
unfoldable pub restore_files : Answer → ℕ → List Restored → FileTree → FileTree × Bool
unfolding restore_file
restore_files w i [] files = (files, true)
restore_files w i (t ∷ ts) files =
    let (after, ok) = restore_file (w.restores i) t files in
    let rest = restore_files w (i + 1) ts after in if ok then rest else (after, false)

-- rollbackRestore, from the last entry on: the path gets what it had in the tree `old`. An entry that fails ends it.
unfoldable pub rollback_restore : Answer → FileTree → ℕ → List Restored → FileTree → FileTree × Bool
unfolding put_file atomic_write_file
rollback_restore w old i [] files = (files, true)
rollback_restore w old i (t ∷ ts) files =
    let (back, fine) = rollback_restore w old (i + 1) ts files in
    elim (old t.path) [
      | some f ↦ (
        if fine
            then put_file back t.path (atomic_write_file (w.writes_back i) (back t.path) (some f))
            else back,
        fine && written (w.writes_back i),
      )
      | none ↦ (
        if fine
            then put_file back t.path (atomic_write_file (w.removes_back i) (back t.path) none)
            else back,
        fine && written (w.removes_back i),
      )
    ]

-- captureRestoreRollbackEntry of every target.
unfoldable pub all_captured : Answer → List Restored → Bool
all_captured w [] = true
all_captured w (t ∷ ts) = w.captures t.path && all_captured w ts

-- From the first file on.
unfoldable pub restore_or_undo : Answer → List Restored → FileTree → FileTree × Option RestoreError
unfolding restore_files rollback_restore
restore_or_undo w ts files =
    let (after, ok) = restore_files w 0 ts files in
    let (back, fine) = rollback_restore w files 0 ts after in
    if ok && w.checks_and_records
    then (after, none)
    else (back, some (if fine then restore_failed else rollback_failed))

-- restoreBackup, for an archive under the directory of backups.
unfoldable pub restore_backup :
    Roots → Answer → List ZipEntry → FileTree → FileTree × Option RestoreError
unfolding validate_restore_archive collect_restore_targets all_captured restore_or_undo
restore_backup d w es files =
    let (wrong, ts) = collect_restore_targets d w [] es in
    if not w.opens
    then (files, some not_opened)
    else if not (validate_restore_archive d w es)
    then (files, some unsafe_archive)
    else elim wrong [
      | some e ↦ (files, some e)
      | none ↦ if all_captured w ts then restore_or_undo w ts files else (files, some not_captured)
    ]
