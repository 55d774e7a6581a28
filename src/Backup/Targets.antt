-- ===== src/Backup/Targets.antt =====
-- Where restoreBackup of pkg/webserver/functions.go puts the files of an archive.
use sitebrush_v.Prelude.{
  ◌≡◌, ◌⊎◌, refl, sym, subst, inl, inr, Bool, ◌&&◌, ◌||◌, [], ◌∷◌, ◌++◌, arith, Bool-cases, All,
}
use sitebrush_v.Text.{contains_text, Text, codes, text_eq, has_prefix, trim_prefix}
use sitebrush_v.Paths.{AbsPath, segments, join_under, path_is_inside_root}
use sitebrush_v.Paths.Clean.{IsComponent, clean_from-IsComponent, segments-HasNoSlash}
use sitebrush_v.Paths.Inside.{Inside, path_is_inside_root_iff}
use sitebrush_v.Backup.{
  validate_backup_entry_name, Roots, Target, target, ignored, unsafe_target, join_target,
  restore_target_for_archive_name,
}

-- A file in a root that is the directory of the pages or that of the archive.
abbrev pub InRoots : Roots → AbsPath → AbsPath → Type 0
InRoots d root path = ((root ≡ d.web) ⊎ (root ≡ d.archive)) × Inside root path

abbrev TargetInside : AbsPath → Target → Type 0
TargetInside root (target r path) = (r ≡ root) × Inside root path
TargetInside root ignored = Unit
TargetInside root unsafe_target = Unit

join_target-TargetInside :
    (root : AbsPath) (relative : Text)
    → All IsComponent root
    → TargetInside root (join_target root relative)
unfolding join_target join_under
join_target-TargetInside root relative h =
    let path = join_under root (segments relative) in
    let names : All IsComponent path =
      clean_from-IsComponent root (segments relative) (segments-HasNoSlash relative) h in
    elim (Bool-cases (path_is_inside_root root path)) [
      | inl e ↦
          subst (TargetInside root) {x = target root path} {y = join_target root relative}
            (ground (arith, e)) (refl, (path_is_inside_root_iff root path names).0 e)
      | inr e ↦
          subst (TargetInside root) {x = unsafe_target} {y = join_target root relative}
            (ground (arith, e)) tt
    ]

abbrev TargetInRoots : Roots → Target → Type 0
TargetInRoots d (target r path) = InRoots d r path
TargetInRoots d ignored = Unit
TargetInRoots d unsafe_target = Unit

in_web : (d : Roots) (t : Target) → TargetInside d.web t → TargetInRoots d t
in_web d (target r path) (e, h) = (inl e, subst (λ x. Inside x path) (sym e) h)
in_web d ignored h = tt
in_web d unsafe_target h = tt

in_archive : (d : Roots) (t : Target) → TargetInside d.archive t → TargetInRoots d t
in_archive d (target r path) (e, h) = (inr e, subst (λ x. Inside x path) (sym e) h)
in_archive d ignored h = tt
in_archive d unsafe_target h = tt

-- The entries below archive/ that are put back under their names.
abbrev is_kept : Text → Bool
is_kept name =
    has_prefix (codes "archive/metadata/") name
    || (has_prefix (codes "archive/templates/") name
        || (has_prefix (codes "archive/domains/") name
            && (contains_text (codes "/media/") name
                || contains_text (codes "/media-metadata/") name)))

module _ (d : Roots) (web : All IsComponent d.web) (archive : All IsComponent d.archive) where
  chosen :
      (name : Text) (t : Target)
      → TargetInRoots d t
      → restore_target_for_archive_name d name ≡ t
      → TargetInRoots d (restore_target_for_archive_name d name)
  chosen name t h e =
      subst (TargetInRoots d) {x = t} {y = restore_target_for_archive_name d name} (sym e) h

  restore_target-TargetInRoots :
      (name : Text) → TargetInRoots d (restore_target_for_archive_name d name)
  unfolding restore_target_for_archive_name
  restore_target-TargetInRoots name =
      let site = trim_prefix (codes "web/") name in
      let kept = trim_prefix (codes "archive/") name in
      elim (Bool-cases (validate_backup_entry_name name)) [
        | inr v ↦ chosen name unsafe_target tt (ground (arith, v))
        | inl v ↦ elim (Bool-cases (has_prefix (codes "web/") name)) [
          | inl p ↦
              chosen name (join_target d.web site)
                (in_web d (join_target d.web site) (join_target-TargetInside d.web site web))
                (ground (arith, v, p))
          | inr p ↦ elim (Bool-cases (text_eq name (codes "archive/site-state.json"))) [
            | inl q ↦
                chosen name (target d.archive (d.archive ++ codes "site-state.json" ∷ []))
                  (inr refl, (codes "site-state.json" ∷ [], refl)) (ground (arith, v, p, q))
            | inr q ↦ elim (Bool-cases (text_eq name (codes "archive/redirects.json"))) [
              | inl r ↦
                  chosen name (target d.archive (d.archive ++ codes "redirects.json" ∷ []))
                    (inr refl, (codes "redirects.json" ∷ [], refl)) (ground (arith, v, p, q, r))
              | inr r ↦ elim (Bool-cases (is_kept name)) [
                | inl k ↦
                    chosen name (join_target d.archive kept)
                      (in_archive d (join_target d.archive kept)
                        (join_target-TargetInside d.archive kept archive))
                      (ground (arith, v, p, q, r, k))
                | inr k ↦ chosen name ignored tt (ground (arith, v, p, q, r, k))
              ]
            ]
          ]
        ]
      ]

  -- Where the directories of the pages and of the archive are free of "." and ".." and empty segments, the file that
  -- an archive entry is restored to is in the root that it is tested against, which is one of the two, whatever the entry is called.
  pub restore_target_for_archive_name-InRoots :
      (name : Text) (root path : AbsPath)
      → restore_target_for_archive_name d name ≡ target root path
      → InRoots d root path
  restore_target_for_archive_name-InRoots name root path e =
      subst (TargetInRoots d) {x = restore_target_for_archive_name d name} {y = target root path} e
        (restore_target-TargetInRoots name)
