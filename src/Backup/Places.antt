-- ===== src/Backup/Places.antt =====
-- validateRestoreTargetPath of pkg/webserver/functions.go, and rejectSymlinkComponents. nearestExistingParent is the
-- loop that validateExistingParentSymlinkSafe has.
use sitebrush_v.Prelude.{
  Bool, true, false, not, ◌&&◌, ◌||◌, List, [], ◌∷◌, ◌++◌, Option, none, some, if◌then◌else◌,
}
use sitebrush_v.Text.{Text, codes, text_eq, is_empty}
use sitebrush_v.Paths.{
  AbsPath, Stat, exists, missing, unreadable, rel, path_is_inside_root,
  validate_existing_parent_symlink_safe,
}

-- What the system says of paths: os.Lstat, whether what it finds is a link, and filepath.EvalSymlinks.
pub record Disk : Type 0 where
  pub lstat : AbsPath → Stat
  pub is_link : AbsPath → Bool
  pub eval_symlinks : AbsPath → Option AbsPath

-- The loop of rejectSymlinkComponents, for the names that lead on to the target: whether it reports no error.
unfoldable pub reject_symlink_components : Disk → AbsPath → List Text → Bool
unfolding text_eq
reject_symlink_components k current [] = elim (k.lstat current) [
  | missing ↦ true
  | unreadable ↦ false
  | exists ↦ not (k.is_link current)
]
reject_symlink_components k current (name ∷ names) =
    let rest = reject_symlink_components k (current ++ name ∷ []) names in
    elim (k.lstat current) [
      | missing ↦ true
      | unreadable ↦ false
      | exists ↦
          if k.is_link current
          then false
          else if is_empty name || (text_eq name (codes ".") || text_eq name (codes ".."))
          then false
          else rest
    ]

unfoldable pub validate_restore_target_path : Disk → AbsPath → AbsPath → Bool
unfolding path_is_inside_root reject_symlink_components rel validate_existing_parent_symlink_safe
validate_restore_target_path k root target =
    path_is_inside_root root target
    && (reject_symlink_components k root (rel root target)
        && elim (validate_existing_parent_symlink_safe k.lstat k.eval_symlinks root target) [
          | none ↦ true
          | some _ ↦ false
        ])
