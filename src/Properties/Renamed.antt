-- ===== src/Properties/Renamed.antt =====
-- What renameStaticFile of pkg/webserver/functions.go leaves behind.
use sitebrush_v.Prelude.{
  ◌≡◌, ◌≢◌, ◌⊎◌, refl, sym, ap, ap₂, ◌∙◌, true, false, [], ◌∷◌, Option, none, some, arith, inl, inr,
  and-true, Bool-cases,
}
use sitebrush_v.Text.{Text, text_eq, text_eq_self, text_eq_sound}
use sitebrush_v.Paths.{AbsPath}
use sitebrush_v.Properties.Rename.{
  path_eq, Files, rename_file, Answer, RenameError, rollback_failed, rollback_rename, is_there,
  rename_static_file,
}

pub path_eq_self : (s : AbsPath) → path_eq s s ≡ true
unfolding path_eq
path_eq_self [] = refl
path_eq_self (a ∷ s) = ground (arith, text_eq_self a, path_eq_self s)

pub path_eq_sound : (s t : AbsPath) → path_eq s t ≡ true → s ≡ t
unfolding path_eq
path_eq_sound [] [] h = refl
path_eq_sound [] (b ∷ t) h = absurd (ground arith)
path_eq_sound (a ∷ s) [] h = absurd (ground arith)
path_eq_sound (a ∷ s) (b ∷ t) h =
    let (here, there) = and-true (text_eq a b) (path_eq s t) h in
    ap₂ ◌∷◌ (text_eq_sound a b here) (path_eq_sound s t there)

pub path_eq_other : (s t : AbsPath) → path_eq s t ≡ false → path_eq t s ≡ false
path_eq_other s t h = elim (Bool-cases (path_eq t s)) [
  | inr e ↦ e
  | inl e ↦ absurd (ground (arith, h, ap (λ r. path_eq s r) (path_eq_sound t s e), path_eq_self s))
]

-- A file that was renamed to a free name and back again is where it was, and so is every other.
pub rename_file-back :
    (files : Files) (current new : AbsPath)
    → path_eq current new ≡ false
    → files new ≡ none
    → (path : AbsPath) → rename_file (rename_file files current new) new current path ≡ files path
unfolding rename_file
rename_file-back files current new ne free path = elim (Bool-cases (path_eq path current)) [
  | inl e ↦
      let same = path_eq_sound path current e in ground (arith, e, ap files same, path_eq_self new)
  | inr e ↦ elim (Bool-cases (path_eq path new)) [
    | inl f ↦ ground (arith, e, f, ap files (path_eq_sound path new f), free)
    | inr f ↦ ground (arith, e, f)
  ]
]

is_there-none : (o : Option Text) → is_there o ≡ false → o ≡ none
is_there-none none h = refl
is_there-none (some s) h = absurd (ground arith)

module _ (w : Answer) (files : Files) (current new : AbsPath) where
  abbrev moved : Files
  moved = rename_file files current new

  -- The ways through the function: no file is touched, or the file was moved to a free name and stays or goes back.
  abbrev IsFree : Type 0
  IsFree = (path_eq current new ≡ false) × (is_there (files new) ≡ false)

  rename_cases :
      ((rename_static_file w files current new).0 ≡ files)
        × (((rename_static_file w files current new).1 ≢ none)
            ⊎ ((path_eq current new ≡ true)
                ⊎ ((is_there (files current) ≡ false) × (is_there (files new) ≡ false))))
      ⊎ (IsFree
          × ((rename_static_file w files current new ≡ rollback_rename w moved current new)
              ⊎ (rename_static_file w files current new ≡ (moved, none))))
  unfolding rename_static_file
  rename_cases = ground arith

  rollback-back :
      (e : RenameError)
      → (rollback_rename w moved current new).1 ≡ some e
      → e ≢ rollback_failed
      → (rollback_rename w moved current new).0 ≡ rename_file moved new current
  unfolding rollback_rename
  rollback-back e h other = elim (Bool-cases w.renames_back) [
    | inl b ↦ ground (arith, b)
    | inr b ↦ absurd (other (ground (arith, b)))
  ]

  rollback-some : (rollback_rename w moved current new).1 ≢ none
  unfolding rollback_rename
  rollback-some h = ground arith

  nothing_moved :
      files new ≡ none
      → files current ≡ none
      → (path : AbsPath) → files path ≡ rename_file files current new path
  unfolding rename_file
  nothing_moved n c path = elim (Bool-cases (path_eq path new)) [
    | inl e ↦ ground (arith, e, ap files (path_eq_sound path new e), n, c)
    | inr e ↦ elim (Bool-cases (path_eq path current)) [
      | inl f ↦ ground (arith, e, f, ap files (path_eq_sound path current f), c)
      | inr f ↦ ground (arith, e, f)
    ]
  ]

  -- A rename that reports an error leaves every file where it was, unless the rollback failed.
  pub rename_static_file-failed :
      (e : RenameError) (path : AbsPath)
      → (rename_static_file w files current new).1 ≡ some e
      → e ≢ rollback_failed
      → (rename_static_file w files current new).0 path ≡ files path
  rename_static_file-failed e path h other = elim rename_cases [
    | inl (same, why) ↦ ap (λ f. f path) same
    | inr ((ne, free), inl back) ↦
        ap (λ r. r.0 path) back
        ∙ ap (λ f. f path) (rollback-back e (sym (ap (λ r. r.1) back) ∙ h) other)
        ∙ rename_file-back files current new ne (is_there-none (files new) free) path
    | inr (free, inr kept) ↦ absurd (ground (arith, h, ap (λ r. r.1) kept))
  ]

  -- A rename to another name that reports no error had a free name to move to, and then the new name has what the old
  -- one had, the old one has nothing, and no other file has changed.
  pub rename_static_file-moved :
      (path : AbsPath)
      → (rename_static_file w files current new).1 ≡ none
      → path_eq current new ≡ false
      → (files new ≡ none)
        × ((rename_static_file w files current new).0 path ≡ rename_file files current new path)
  rename_static_file-moved path h ne = elim rename_cases [
    | inl (same, inl failed) ↦ absurd (failed h)
    | inl (same, inr (inl e)) ↦ absurd (ground (arith, e, ne))
    | inl (same, inr (inr (gone, free))) ↦
        let none_new = is_there-none (files new) free in
        (
          none_new,
          ap (λ f. f path) same ∙ nothing_moved none_new (is_there-none (files current) gone) path,
        )
    | inr (free, inl back) ↦ absurd (rollback-some (sym (ap (λ r. r.1) back) ∙ h))
    | inr ((e, free), inr kept) ↦ (is_there-none (files new) free, ap (λ r. r.0 path) kept)
  ]
