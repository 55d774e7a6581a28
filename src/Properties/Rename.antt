-- ===== src/Properties/Rename.antt =====
-- renameStaticFile and rollbackRenameAfterSyncFailure of pkg/webserver/functions.go.
use sitebrush_v.Prelude.{
  Bool, true, false, not, ◌&&◌, ◌||◌, [], ◌∷◌, Option, none, some, if◌then◌else◌,
}
use sitebrush_v.Text.{Text, text_eq}
use sitebrush_v.Paths.{AbsPath, drop_last, Stat, validate_existing_parent_symlink_safe}

-- currentAbs == newAbs
unfoldable pub path_eq : AbsPath → AbsPath → Bool
path_eq [] [] = true
path_eq (a ∷ s) (b ∷ t) = text_eq a b && path_eq s t
path_eq _ _ = false

-- The contents of the static files, regular files all; that a page's path is a directory is not modelled.
abbrev pub Files : Type 0
Files = AbsPath → Option Text

-- os.Rename of a file that is there.
unfoldable pub rename_file : Files → AbsPath → AbsPath → Files
unfolding path_eq
rename_file files from to path =
    if path_eq path to then files from else if path_eq path from then none else files path

-- How the system answers one rename, with os.Lstat and filepath.EvalSymlinks as they are before it; `root_path` is the
-- site's directory.
pub record Answer : Type 0 where
  pub root_path : AbsPath
  pub lstat : AbsPath → Stat
  pub eval_symlinks : AbsPath → Option AbsPath
  pub stats_new : Bool
  pub stats_current : Bool
  pub makes_dir : Bool
  pub renames : Bool
  pub syncs_new : Bool
  pub syncs_current : Bool
  pub renames_back : Bool
  pub syncs_back_current : Bool
  pub syncs_back_new : Bool

pub data RenameError : Type 0 where
  unsafe_target target_exists no_answer sync_failed rollback_failed rollback_unsynced : RenameError

abbrev pub same_dir : AbsPath → AbsPath → Bool
unfolding path_eq drop_last
same_dir current new = path_eq (drop_last current) (drop_last new)

-- rollbackRenameAfterSyncFailure
unfoldable pub rollback_rename : Answer → Files → AbsPath → AbsPath → Files × Option RenameError
unfolding rename_file
rollback_rename w files current new =
    if not w.renames_back
    then (files, some rollback_failed)
    else if not w.syncs_back_current
    then (rename_file files new current, some rollback_unsynced)
    else if not (same_dir current new) && not w.syncs_back_new
    then (rename_file files new current, some rollback_unsynced)
    else (rename_file files new current, some sync_failed)

abbrev pub is_there : Option Text → Bool
is_there none = false
is_there (some s) = true

-- The new name passes validateExistingParentSymlinkSafe.
unfoldable pub parent_is_safe : Answer → AbsPath → Bool
unfolding validate_existing_parent_symlink_safe
parent_is_safe w new =
    elim (validate_existing_parent_symlink_safe w.lstat w.eval_symlinks w.root_path new) [
      | none ↦ true
      | some _ ↦ false
    ]

unfoldable pub rename_static_file : Answer → Files → AbsPath → AbsPath → Files × Option RenameError
unfolding rename_file rollback_rename parent_is_safe
rename_static_file w files current new =
    let moved = rename_file files current new in
    if path_eq current new
    then (files, none)
    else if not (parent_is_safe w new)
    then (files, some unsafe_target)
    else if not w.stats_new
    then (files, some no_answer)
    else if is_there (files new)
    then (files, some target_exists)
    else if not w.stats_current
    then (files, some no_answer)
    else if not (is_there (files current))
    then (files, none)
    else if not w.makes_dir || not w.renames
    then (files, some no_answer)
    else if not w.syncs_new
    then rollback_rename w moved current new
    else if not (same_dir current new) && not w.syncs_current
    then rollback_rename w moved current new
    else (moved, none)
