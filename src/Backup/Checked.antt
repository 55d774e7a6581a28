-- ===== src/Backup/Checked.antt =====
-- The files that restoreBackup of pkg/webserver/functions.go may touch.
use sitebrush_v.Prelude.{
  ℕ, ◌+◌, ◌≡◌, ◌⊎◌, refl, ap, sym, subst, ◌∙◌, inl, inr, true, false, ◌&&◌, ◌||◌, List, [], ◌∷◌,
  ◌++◌, Option, none, some, arith, Bool-cases, Option-cases, All, All-append,
}
use sitebrush_v.Text.{Text, codes, text_eq}
use sitebrush_v.Files.{atomic_write_file}
use sitebrush_v.Paths.{AbsPath}
use sitebrush_v.Paths.Clean.{IsComponent}
use sitebrush_v.Properties.Rename.{path_eq}
use sitebrush_v.Properties.Renamed.{path_eq_sound}
use sitebrush_v.Backup.Links.{AllExist, NoLink, validate_restore_target_path-NoLink}
use sitebrush_v.Backup.Places.{validate_restore_target_path}
use sitebrush_v.Backup.{
  ZipEntry, RegularFile, FileTree, Roots, Answer, RestoreError, unsafe_archive, duplicate_target,
  Restored, Target, target, ignored, unsafe_target, among, file_of, put_file,
  restore_target_for_archive_name, collect_restore_targets, restore_files, rollback_restore,
  restore_or_undo, restore_backup,
}
use sitebrush_v.Backup.Targets.{InRoots, restore_target_for_archive_name-InRoots}
use sitebrush_v.Backup.Undone.{put_file-other, restore_files-other, restore_backup_cases}

Target-cases :
    (t : Target)
    → (t ≡ unsafe_target)
      ⊎ ((t ≡ ignored) ⊎ ((root : AbsPath) × ((path : AbsPath) × (t ≡ target root path))))
Target-cases unsafe_target = inl refl
Target-cases ignored = inr (inl refl)
Target-cases (target root path) = inr (inr (root, (path, refl)))

module _ (w : Answer) (path : AbsPath) (old : FileTree) where
  undone_other :
      (i : ℕ) (t : Restored) (ts : List Restored) (files : FileTree)
      → path_eq path t.path ≡ false
      → (rollback_restore w old i (t ∷ ts) files).0 path
        ≡ (rollback_restore w old (i + 1) ts files).0 path
  unfolding rollback_restore
  undone_other i t ts files h =
      let back = (rollback_restore w old (i + 1) ts files).0 in
      elim (Bool-cases (rollback_restore w old (i + 1) ts files).1) [
        | inr fine ↦ elim (Option-cases (old t.path)) [
          | inl e ↦ ground (arith, fine, e)
          | inr (f, e) ↦ ground (arith, fine, e)
        ]
        | inl fine ↦ elim (Option-cases (old t.path)) [
          | inl e ↦
              removed fine e
              ∙ put_file-other back t.path path
                  (atomic_write_file (w.removes_back i) (back t.path) none) h
          | inr (f, e) ↦
              rewritten fine f e
              ∙ put_file-other back t.path path
                  (atomic_write_file (w.writes_back i) (back t.path) (some f)) h
        ]
      ]
    where
      removed :
          (rollback_restore w old (i + 1) ts files).1 ≡ true
          → old t.path ≡ none
          → (rollback_restore w old i (t ∷ ts) files).0 path
            ≡ put_file
                (rollback_restore w old (i + 1) ts files).0
                t.path
                (atomic_write_file
                  (w.removes_back i)
                  ((rollback_restore w old (i + 1) ts files).0 t.path)
                  none)
                path
      removed fine e = ground (arith, fine, e)

      rewritten :
          (rollback_restore w old (i + 1) ts files).1 ≡ true
          → (f : RegularFile) → old t.path ≡ some f
          → (rollback_restore w old i (t ∷ ts) files).0 path
            ≡ put_file
                (rollback_restore w old (i + 1) ts files).0
                t.path
                (atomic_write_file
                  (w.writes_back i)
                  ((rollback_restore w old (i + 1) ts files).0 t.path)
                  (some f))
                path
      rewritten fine f e = ground (arith, fine, e)

  rollback_restore-other :
      (i : ℕ) (ts : List Restored) (files : FileTree)
      → among path ts ≡ false
      → (rollback_restore w old i ts files).0 path ≡ files path
  unfolding rollback_restore among
  rollback_restore-other i [] files h = refl
  rollback_restore-other i (t ∷ ts) files h =
      undone_other i t ts files (ground (arith, h))
      ∙ rollback_restore-other (i + 1) ts files (ground (arith, h))

module _ (d : Roots) (w : Answer) (web : All IsComponent d.web)
    (archive : All IsComponent d.archive) where
  -- A file in one of the two directories that has passed the tests for links before the first write.
  abbrev Checked : AbsPath → Type 0
  Checked path =
      (root : AbsPath) × (InRoots d root path)
      × (validate_restore_target_path w.disk root path ≡ true)

  abbrev Placed : List Restored → Type 0
  Placed ts = All (λ (t : Restored). Checked t.path) ts

  collect_restore_targets-Placed :
      (seen : List Restored) (es : List ZipEntry)
      → Placed seen
      → Placed (collect_restore_targets d w seen es).1
  unfolding collect_restore_targets
  collect_restore_targets-Placed seen [] h = h
  collect_restore_targets-Placed seen (e ∷ es) h =
      let here = restore_target_for_archive_name d e.name in
      elim (Bool-cases (e.is_dir || text_eq e.name (codes "sitebrush-backup.json"))) [
        | inl s ↦
            from (collect_restore_targets d w seen es) (ground (arith, s))
              (collect_restore_targets-Placed seen es h)
        | inr s ↦ elim (Target-cases here) [
          | inl u ↦ from (some unsafe_archive, seen) (ground (arith, s, u)) h
          | inr (inl u) ↦
              from (collect_restore_targets d w seen es) (ground (arith, s, u))
                (collect_restore_targets-Placed seen es h)
          | inr (inr (root, (path, u))) ↦
              elim (Bool-cases (validate_restore_target_path w.disk root path)) [
                | inr v ↦ from (some unsafe_archive, seen) (ground (arith, s, u, v)) h
                | inl v ↦ elim (Bool-cases (among path seen)) [
                  | inl m ↦ from (some duplicate_target, seen) (ground (arith, s, u, v, m)) h
                  | inr m ↦
                      let new : Restored = record { path = path; file = file_of e } in
                      let placed =
                        restore_target_for_archive_name-InRoots d web archive e.name root path u in
                      from (collect_restore_targets d w (seen ++ new ∷ []) es)
                        (ground (arith, s, u, v, m))
                        (collect_restore_targets-Placed (seen ++ new ∷ []) es (
                          All-append (λ (t : Restored). Checked t.path) seen (new ∷ []) h
                            ((root, placed, v), tt)))
                ]
              ]
        ]
      ]
    where
      from :
          (r : Option RestoreError × List Restored)
          → collect_restore_targets d w seen (e ∷ es) ≡ r
          → Placed r.1
          → Placed (collect_restore_targets d w seen (e ∷ es)).1
      from r q k =
          subst (λ (r : Option RestoreError × List Restored). Placed r.1) {x = r}
            {y = collect_restore_targets d w seen (e ∷ es)} (sym q) k

  Checked-among :
      (path : AbsPath) (ts : List Restored) → Placed ts → among path ts ≡ true → Checked path
  unfolding among
  Checked-among path [] h e = absurd (ground arith)
  Checked-among path (t ∷ ts) h e = elim (Bool-cases (path_eq path t.path)) [
    | inl f ↦ subst Checked (sym (path_eq_sound path t.path f)) h.0
    | inr f ↦ Checked-among path ts h.1 (ground (arith, f))
  ]

  restore_or_undo-other :
      (path : AbsPath) (ts : List Restored) (files : FileTree)
      → among path ts ≡ false
      → (restore_or_undo w ts files).0 path ≡ files path
  unfolding restore_or_undo
  restore_or_undo-other path ts files h =
      let after = (restore_files w 0 ts files).0 in
      let kept = restore_files-other w path 0 ts files h in
      elim (Bool-cases ((restore_files w 0 ts files).1 && w.checks_and_records)) [
        | inl ok ↦ ap (λ f. f path) (done ok) ∙ kept
        | inr ok ↦
            ap (λ f. f path) (undone ok) ∙ rollback_restore-other w path files 0 ts after h ∙ kept
      ]
    where
      done :
          ((restore_files w 0 ts files).1 && w.checks_and_records) ≡ true
          → (restore_or_undo w ts files).0 ≡ (restore_files w 0 ts files).0
      done ok = ground (arith, ok)

      undone :
          ((restore_files w 0 ts files).1 && w.checks_and_records) ≡ false
          → (restore_or_undo w ts files).0
            ≡ (rollback_restore w files 0 ts (restore_files w 0 ts files).0).0
      undone ok = ground (arith, ok)

  -- What is known of a file that a restoring may change: it is in the directory of the pages or in that of the archive,
  -- it has passed the tests against that directory, and no link is on its way there.
  abbrev pub MayChange : AbsPath → Type 0
  MayChange path =
      (root : AbsPath) × (InRoots d root path)
      × (validate_restore_target_path w.disk root path ≡ true)
      × ((above below : List Text)
          → path ≡ root ++ (above ++ below)
          → AllExist w.disk root above
          → NoLink w.disk (root ++ above))

  Checked-MayChange : (path : AbsPath) → Checked path → MayChange path
  Checked-MayChange path (root, placed, valid) = (
    root,
    placed,
    valid,
    λ above below e.
        validate_restore_target_path-NoLink w.disk root above below
          (subst (λ p. validate_restore_target_path w.disk root p ≡ true) e valid),
  )

  -- Whatever the entries of an archive are called and however its restoring ends, a file is as it was, or it is in the
  -- directory of the pages or in that of the archive and has passed the tests against that directory before the first
  -- write. Nothing that was there on the way to it, from the directory to the file itself, was a link then. The two
  -- directories are free of "." and ".." and empty segments, and the row of recordBackup is not among the files.
  pub restore_backup-checked :
      (es : List ZipEntry) (files : FileTree) (path : AbsPath)
      → ((restore_backup d w es files).0 path ≡ files path) ⊎ MayChange path
  restore_backup-checked es files path =
      let ts = (collect_restore_targets d w [] es).1 in
      elim (restore_backup_cases d w es files) [
        | inl e ↦ inl (ap (λ f. f path) e)
        | inr e ↦ elim (Bool-cases (among path ts)) [
          | inl m ↦ inr (
              Checked-MayChange path
                (Checked-among path ts (collect_restore_targets-Placed [] es tt) m))
          | inr m ↦ inl (ap (λ r. r.0 path) e ∙ restore_or_undo-other path ts files m)
        ]
      ]
