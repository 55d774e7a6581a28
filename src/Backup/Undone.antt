-- ===== src/Backup/Undone.antt =====
-- What restoreBackup of pkg/webserver/functions.go leaves behind when it reports an error.
use sitebrush_v.Prelude.{
  ◌⊎◌, inl, inr, ℕ, ◌+◌, ◌≡◌, ◌≢◌, refl, ap, sym, ◌∙◌, inl, inr, true, false, ◌&&◌, List, [], ◌∷◌,
  Option, none, some, arith, Bool-cases, Option-cases,
}
use sitebrush_v.Files.{Write, atomic_write_file}
use sitebrush_v.Paths.{AbsPath}
use sitebrush_v.Properties.Rename.{path_eq}
use sitebrush_v.Properties.Renamed.{path_eq_sound}
use sitebrush_v.Backup.{
  ZipEntry, RegularFile, FileTree, Roots, Answer, RestoreError, rollback_failed, Restored, among,
  put_file, restore_file, restore_files, rollback_restore, restore_or_undo, restore_backup,
  collect_restore_targets, all_captured, validate_restore_archive,
}

pub put_file-other :
    (files : FileTree) (path other : AbsPath) (file : Option RegularFile)
    → path_eq other path ≡ false
    → put_file files path file other ≡ files other
unfolding put_file
put_file-other files path other file h = ground (arith, h)

put_file-here :
    (files : FileTree) (path other : AbsPath) (file : Option RegularFile)
    → path_eq other path ≡ true
    → put_file files path file other ≡ file
unfolding put_file
put_file-here files path other file h = ground (arith, h)

-- A restoring stops before its first write, or it comes to the writes.
pub restore_backup_cases :
    (d : Roots) (w : Answer) (es : List ZipEntry) (files : FileTree)
    → ((restore_backup d w es files).0 ≡ files)
      ⊎ (restore_backup d w es files
          ≡ restore_or_undo w (collect_restore_targets d w [] es).1 files)
unfolding restore_backup
restore_backup_cases d w es files = elim (Bool-cases (w.opens && validate_restore_archive d w es)) [
  | inr v ↦ inl (ground (arith, v))
  | inl v ↦ elim (Option-cases (collect_restore_targets d w [] es).0) [
    | inr (x, c) ↦ inl (ground (arith, v, c))
    | inl c ↦ elim (Bool-cases (all_captured w (collect_restore_targets d w [] es).1)) [
      | inr a ↦ inl (ground (arith, v, c, a))
      | inl a ↦ inr (ground (arith, v, c, a))
    ]
  ]
]

module _ (w : Answer) (path : AbsPath) where
  restore_file-other :
      (m : Write) (t : Restored) (files : FileTree)
      → path_eq path t.path ≡ false
      → (restore_file m t files).0 path ≡ files path
  unfolding restore_file
  restore_file-other m t files h = elim (Option-cases t.file) [
    | inl e ↦ ap (λ f. f path) (same e)
    | inr (f, e) ↦
        ap (λ g. g path) (wrote f e)
        ∙ put_file-other files t.path path (atomic_write_file m (files t.path) (some f)) h
  ]
    where
      same : t.file ≡ none → (restore_file m t files).0 ≡ files
      same e = ground (arith, e)

      wrote :
          (f : RegularFile)
          → t.file ≡ some f
          → (restore_file m t files).0
            ≡ put_file files t.path (atomic_write_file m (files t.path) (some f))
      wrote f e = ground (arith, e)

  pub restore_files-other :
      (i : ℕ) (ts : List Restored) (files : FileTree)
      → among path ts ≡ false
      → (restore_files w i ts files).0 path ≡ files path
  unfolding restore_files among
  restore_files-other i [] files h = refl
  restore_files-other i (t ∷ ts) files h =
      let here = restore_file-other (w.restores i) t files (ground (arith, h)) in
      let there =
        restore_files-other (i + 1) ts (restore_file (w.restores i) t files).0
          (ground (arith, h)) in
      elim (Bool-cases (restore_file (w.restores i) t files).1) [
        | inl e ↦ ap (λ r. r.0 path) (goes_on e) ∙ there ∙ here
        | inr e ↦ ap (λ r. r.0 path) (stops e) ∙ here
      ]
    where
      goes_on :
          (restore_file (w.restores i) t files).1 ≡ true
          → restore_files w i (t ∷ ts) files
            ≡ restore_files w (i + 1) ts (restore_file (w.restores i) t files).0
      goes_on e = ground (arith, e)

      stops :
          (restore_file (w.restores i) t files).1 ≡ false
          → restore_files w i (t ∷ ts) files ≡ ((restore_file (w.restores i) t files).0, false)
      stops e = ground (arith, e)

  -- A rollback that reports no error: what it does with one path.
  rollback_restore-put :
      (old : FileTree) (i : ℕ) (t : Restored) (ts : List Restored) (files : FileTree)
      → (rollback_restore w old i (t ∷ ts) files).1 ≡ true
      → ((rollback_restore w old (i + 1) ts files).1 ≡ true)
        × ((rollback_restore w old i (t ∷ ts) files).0
            ≡ put_file (rollback_restore w old (i + 1) ts files).0 t.path (old t.path))
  unfolding rollback_restore atomic_write_file
  rollback_restore-put old i t ts files h = elim (Option-cases (old t.path)) [
    | inl e ↦ (ground (arith, e), ground (arith, e))
    | inr (f, e) ↦ (ground (arith, e), ground (arith, e))
  ]

  rollback_restore-back :
      (old : FileTree) (i : ℕ) (ts : List Restored) (files : FileTree)
      → (rollback_restore w old i ts files).1 ≡ true
      → (among path ts ≡ false → files path ≡ old path)
      → (rollback_restore w old i ts files).0 path ≡ old path
  unfolding among rollback_restore
  rollback_restore-back old i [] files h k = k refl
  rollback_restore-back old i (t ∷ ts) files h k =
      let (fine, put) = rollback_restore-put old i t ts files h in
      let back = (rollback_restore w old (i + 1) ts files).0 in
      elim (Bool-cases (path_eq path t.path)) [
        | inl e ↦
            ap (λ f. f path) put
            ∙ put_file-here back t.path path (old t.path) e
            ∙ ap old (sym (path_eq_sound path t.path e))
        | inr e ↦
            ap (λ f. f path) put
            ∙ put_file-other back t.path path (old t.path) e
            ∙ rollback_restore-back old (i + 1) ts files fine (λ n. k (ground (arith, e, n)))
      ]

  restore_or_undo-back :
      (ts : List Restored) (files : FileTree) (e : RestoreError)
      → (restore_or_undo w ts files).1 ≡ some e
      → e ≢ rollback_failed
      → (restore_or_undo w ts files).0 path ≡ files path
  unfolding restore_or_undo
  restore_or_undo-back ts files e h other =
      let after = (restore_files w 0 ts files).0 in
      elim (Bool-cases ((restore_files w 0 ts files).1 && w.checks_and_records)) [
        | inl ok ↦ absurd (ground (arith, ok, h))
        | inr ok ↦ elim (Bool-cases (rollback_restore w files 0 ts after).1) [
          | inl fine ↦
              ap (λ f. f path) (undone ok)
              ∙ rollback_restore-back files 0 ts after fine (restore_files-other 0 ts files)
          | inr fine ↦ absurd (other (ground (arith, ok, fine, h)))
        ]
      ]
    where
      undone :
          ((restore_files w 0 ts files).1 && w.checks_and_records) ≡ false
          → (restore_or_undo w ts files).0
            ≡ (rollback_restore w files 0 ts (restore_files w 0 ts files).0).0
      undone ok = ground (arith, ok)

  -- A restoring of a backup that reports an error, at whatever file or step it occurred, has left every file as it was
  -- before, unless the error is that the rollback failed too.
  pub restore_backup-undone :
      (d : Roots) (es : List ZipEntry) (files : FileTree) (e : RestoreError)
      → (restore_backup d w es files).1 ≡ some e
      → e ≢ rollback_failed
      → (restore_backup d w es files).0 path ≡ files path
  restore_backup-undone d es files e h other = elim (restore_backup_cases d w es files) [
    | inl same ↦ ap (λ f. f path) same
    | inr started ↦
        ap (λ r. r.0 path) started
        ∙ restore_or_undo-back (collect_restore_targets d w [] es).1 files e
            (sym (ap (λ r. r.1) started) ∙ h) other
  ]
