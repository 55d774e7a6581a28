-- ===== src/Backup/Links.antt =====
-- What validateRestoreTargetPath of pkg/webserver/functions.go rules out: links on the way to a restored file.
use sitebrush_v.Prelude.{
  ◌≡◌, sym, subst, Bool, true, false, List, [], ◌∷◌, ◌++◌, ◌&&◌, append_assoc, append-nil, arith,
}
use sitebrush_v.Text.{Text}
use sitebrush_v.Paths.{AbsPath, exists, rel, path_is_inside_root}
use sitebrush_v.Paths.Inside.{rel-append}
use sitebrush_v.Backup.Places.{Disk, reject_symlink_components, validate_restore_target_path}

-- A path that is there is no link.
abbrev pub NoLink : Disk → AbsPath → Type 0
NoLink k path = k.lstat path ≡ exists → k.is_link path ≡ false

-- Every path from `current` on down the names is there.
abbrev pub AllExist : Disk → AbsPath → List Text → Type 0
AllExist k current [] = Unit
AllExist k current (name ∷ names) =
    (k.lstat current ≡ exists) × AllExist k (current ++ name ∷ []) names

no_links_between :
    (k : Disk) (current : AbsPath) (above below : List Text)
    → reject_symlink_components k current (above ++ below) ≡ true
    → AllExist k current above
    → NoLink k (current ++ above)
unfolding reject_symlink_components
no_links_between k current [] [] h all e =
    subst (λ p. k.is_link p ≡ false) {x = current} {y = current ++ []} (sym (append-nil current))
      (ground (
        arith,
        h,
        subst (λ p. k.lstat p ≡ exists) {x = current ++ []} {y = current} (append-nil current) e,
      ))
no_links_between k current [] (name ∷ below) h all e =
    subst (λ p. k.is_link p ≡ false) {x = current} {y = current ++ []} (sym (append-nil current))
      (ground (
        arith,
        h,
        subst (λ p. k.lstat p ≡ exists) {x = current ++ []} {y = current} (append-nil current) e,
      ))
no_links_between k current (name ∷ above) below h (here, all) e =
    let same : (current ++ name ∷ []) ++ above ≡ current ++ name ∷ above =
      append_assoc current (name ∷ []) above in
    let deeper =
      no_links_between k (current ++ name ∷ []) above below (ground (arith, h, here)) all (
        subst (λ p. k.lstat p ≡ exists) {x = current ++ name ∷ above}
          {y = (current ++ name ∷ []) ++ above} (sym same) e) in
    subst (λ p. k.is_link p ≡ false) {x = (current ++ name ∷ []) ++ above}
      {y = current ++ name ∷ above} same deeper

second : (a b c : Bool) → (a && (b && c)) ≡ true → b ≡ true
second a b c h = ground arith

passes_links :
    (k : Disk) (root target : AbsPath)
    → validate_restore_target_path k root target ≡ true
    → reject_symlink_components k root (rel root target) ≡ true
unfolding validate_restore_target_path
passes_links k root target h =
    second (path_is_inside_root root target) (reject_symlink_components k root (rel root target)) _
      h

-- A restored file that passes the test at a root has no link on its way: the root is no link if it is there, and
-- neither is any path below it on the way to the file, nor the file, if everything above that path is there.
pub validate_restore_target_path-NoLink :
    (k : Disk) (root above below : AbsPath)
    → validate_restore_target_path k root (root ++ (above ++ below)) ≡ true
    → AllExist k root above
    → NoLink k (root ++ above)
validate_restore_target_path-NoLink k root above below h = no_links_between k root above below (
    subst (λ names. reject_symlink_components k root names ≡ true)
      {x = rel root (root ++ (above ++ below))} {y = above ++ below}
      (rel-append root (above ++ below)) (passes_links k root (root ++ (above ++ below)) h))
