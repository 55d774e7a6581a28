-- ===== src/Subpages/Created.antt =====
-- What createSubpage of pkg/webserver/functions.go leaves behind.
use sitebrush_v.Prelude.{
  ◌≡◌, ◌⊎◌, refl, ap, sym, subst, ◌∙◌, inl, inr, true, false, ◌||◌, Option, none, some, arith,
  Bool-cases, Option-cases,
}
use sitebrush_v.Routes.Runes.{trim_space_bytes}
use sitebrush_v.Text.{Text, is_empty}
use sitebrush_v.Files.{unsynced, atomic_write_file}
use sitebrush_v.Paths.{
  AbsPath, PathResult, PathError, path_ok, path_err, safe_writable_static_file_path,
}
use sitebrush_v.Properties.Rename.{Files, path_eq, is_there}
use sitebrush_v.Properties.Renamed.{path_eq_sound}
use sitebrush_v.Properties.{Surroundings}
use sitebrush_v.Subpages.{
  Answer, SubpageError, not_written, not_statted, subpage_exists, unsafe_subpage,
  contains_path_traversal_segment, requested, title_of, page_body, write_subpage, create_subpage,
}

PathResult-cases :
    (r : PathResult)
    → ((path : AbsPath) × (r ≡ path_ok path)) ⊎ ((e : PathError) × (r ≡ path_err e))
PathResult-cases (path_ok path) = inl (path, refl)
PathResult-cases (path_err e) = inr (e, refl)

empty_file : (file : Option Text) → is_there file ≡ false → file ≡ none
empty_file none h = refl
empty_file (some s) h = absurd (ground (arith, h))

module _ (d : Surroundings) (escape : Text → Text) (w : Answer) where
  -- The file of a name is new and has a body with the title; `other` is as it was if it is another file.
  pub record IsMade (name other : AbsPath) (title : Text) (files after : Files) : Type 0 where
    pub shown : Text
    pub titled : title_of d escape name title ≡ some shown
    pub free : files name ≡ none
    pub here : path_eq other name ≡ true → after other ≡ some (page_body d escape shown)
    pub elsewhere : path_eq other name ≡ false → after other ≡ files other

  -- A creation that reports an error.
  abbrev pub IsRefused : AbsPath → Files → Files × Option SubpageError → Type 0
  IsRefused other files r =
      ((e : SubpageError) × (r.1 ≡ some e))
      × ((r.0 other ≡ files other) ⊎ (unsynced w.writes ≡ true))

  write_subpage_outcome :
      (name other : AbsPath) (title : Text) (files : Files)
      → (((write_subpage d escape w name title files).1 ≡ none)
          × IsMade name other title files (write_subpage d escape w name title files).0)
        ⊎ IsRefused other files (write_subpage d escape w name title files)
  unfolding write_subpage atomic_write_file
  write_subpage_outcome name other title files = elim (Bool-cases w.stats) [
    | inr a ↦ inr ((not_statted, ground (arith, a)), inl (ground (arith, a)))
    | inl a ↦ elim (Bool-cases (is_there (files name))) [
      | inl b ↦ inr ((subpage_exists, ground (arith, a, b)), inl (ground (arith, a, b)))
      | inr b ↦ elim (Option-cases (title_of d escape name title)) [
        | inl c ↦ inr ((unsafe_subpage, ground (arith, a, b, c)), inl (ground (arith, a, b, c)))
        | inr (shown, c) ↦ elim (Bool-cases w.writes.renames) [
          | inr r ↦ inr ((not_written, ground (arith, a, b, c, r)), inl (unwritten shown a b c r))
          | inl r ↦ elim (Bool-cases w.writes.syncs) [
            | inr s ↦ inr ((not_written, ground (arith, a, b, c, r, s)), inr (ground (arith, r, s)))
            | inl s ↦ inl (
              ground (arith, a, b, c, r, s),
              record {
                shown = shown;
                titled = c;
                free = empty_file (files name) b;
                here = λ h. ground (arith, a, b, c, r, h);
                elsewhere = λ h. ground (arith, a, b, c, r, h);
              },
            )
          ]
        ]
      ]
    ]
  ]
    where
      tried :
          (shown : Text)
          → w.stats ≡ true
          → is_there (files name) ≡ false
          → title_of d escape name title ≡ some shown
          → w.writes.renames ≡ false
          → path_eq other name ≡ true
          → (write_subpage d escape w name title files).0 other ≡ files name
      tried shown a b c r h = ground (arith, a, b, c, r, h)

      unwritten :
          (shown : Text)
          → w.stats ≡ true
          → is_there (files name) ≡ false
          → title_of d escape name title ≡ some shown
          → w.writes.renames ≡ false
          → (write_subpage d escape w name title files).0 other ≡ files other
      unwritten shown a b c r = elim (Bool-cases (path_eq other name)) [
        | inl h ↦ tried shown a b c r h ∙ ap files (sym (path_eq_sound other name h))
        | inr h ↦ ground (arith, a, b, c, r, h)
      ]

  -- A creation of a subpage either reports no error, and then its file is one that may be written and was not there
  -- before, it has a body with the title that was given or follows from the path, and no other file has changed; or it
  -- reports an error, and then no file has changed, unless the sync of the directory failed behind the rename.
  pub create_subpage_outcome :
      (current other : AbsPath) (path title : Text) (files : Files)
      → (((create_subpage d escape w current path title files).1 ≡ none)
          × (contains_path_traversal_segment (trim_space_bytes path) ≡ false)
          × ((absolute_path : Text) × (name : AbsPath) × (requested d escape current
                  (trim_space_bytes path)
                ≡ some absolute_path)
              × (safe_writable_static_file_path d.cwd d.lstat d.eval_symlinks d.root absolute_path
                    d.index_file
                  ≡ path_ok name)
              × IsMade name other title files
                  (create_subpage d escape w current path title files).0))
        ⊎ IsRefused other files (create_subpage d escape w current path title files)
  unfolding create_subpage
  create_subpage_outcome current other path title files =
      elim (Bool-cases (
        is_empty (trim_space_bytes path)
        || contains_path_traversal_segment (trim_space_bytes path))) [
          | inl a ↦ inr ((unsafe_subpage, ground (arith, a)), inl (ground (arith, a)))
          | inr a ↦ elim (Option-cases (requested d escape current (trim_space_bytes path))) [
            | inl b ↦ inr ((unsafe_subpage, ground (arith, a, b)), inl (ground (arith, a, b)))
            | inr (absolute_path, b) ↦
                elim (PathResult-cases (
                  safe_writable_static_file_path d.cwd d.lstat d.eval_symlinks d.root absolute_path
                    d.index_file)) [
                      | inr (e, c) ↦
                          inr (
                            (unsafe_subpage, ground (arith, a, b, c)),
                            inl (ground (arith, a, b, c)),
                          )
                      | inl (name, c) ↦
                          let same : create_subpage d escape w current path title files
                              ≡ write_subpage d escape w name title files =
                            ground (arith, a, b, c) in
                          elim (write_subpage_outcome name other title files) [
                            | inr refused ↦ inr (
                                subst (IsRefused other files)
                                  {x = write_subpage d escape w name title files}
                                  {y = create_subpage d escape w current path title files}
                                  (sym same) refused)
                            | inl (fine, made) ↦ inl (
                              ap (λ r. r.1) same ∙ fine,
                              ground (arith, a),
                              (
                                absolute_path,
                                name,
                                b,
                                c,
                                subst (λ r. IsMade name other title files r.0)
                                    {x = write_subpage d escape w name title files}
                                    {y = create_subpage d escape w current path title files}
                                    (sym same) made,
                              ),
                            )
                          ]
                    ]
          ]
        ]
