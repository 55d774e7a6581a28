-- ===== src/Properties/Moved.antt =====
-- What updateProperties of pkg/webserver/functions.go leaves behind when it reports no error.
use sitebrush_v.Prelude.{
  ◌≡◌, ◌≢◌, ◌⊎◌, refl, sym, ap, ◌∙◌, true, false, none, some, arith, inl, inr, Bool-cases,
  Option-cases,
}
use sitebrush_v.Text.{Text, text_eq, text_eq_self}
use sitebrush_v.Files.{written, atomic_write_file}
use sitebrush_v.Data.{Redirect}
use sitebrush_v.Paths.{AbsPath}
use sitebrush_v.Properties.{
  State, Form, Surroundings, Answer, metadata_of, json_metadata, move_page, apply_properties,
  update_properties, redirect_of, metadata_name,
}
use sitebrush_v.Properties.Rename.{path_eq, Files, rename_file, rename_static_file}
use sitebrush_v.Properties.Renamed.{path_eq_self, path_eq_sound, rename_static_file-moved}
use sitebrush_v.Properties.RedirectFile.{save_redirect_file, find_redirect, found}
use sitebrush_v.Properties.Redirected.{IsUtf8, find_redirect-save_redirect_file, configured}
use sitebrush_v.Properties.Update.{
  Target, target_cases, other_file, noted, unwritten_error, stays, goes_on,
}

apart : (p q : AbsPath) → p ≢ q → path_eq p q ≡ false
apart p q n = elim (Bool-cases (path_eq p q)) [
  | inl e ↦ absurd (n (path_eq_sound p q e))
  | inr e ↦ e
]

rename_file-to : (files : Files) (from to : AbsPath) → rename_file files from to to ≡ files from
unfolding rename_file
rename_file-to files from to = ground (arith, path_eq_self to)

rename_file-from :
    (files : Files) (from to : AbsPath)
    → path_eq from to ≡ false
    → rename_file files from to from ≡ none
unfolding rename_file
rename_file-from files from to ne = ground (arith, ne, path_eq_self from)

rename_file-other :
    (files : Files) (from to path : AbsPath)
    → path ≢ to
    → path ≢ from
    → rename_file files from to path ≡ files path
unfolding rename_file
rename_file-other files from to path n m = ground (arith, apart path to n, apart path from m)

module _ (d : Surroundings) (w : Answer) (form : Form) (current : AbsPath) (s : State) where
  -- The page under its new path: a file that was moved, and a redirect that leads from the old path to the new.
  abbrev pub IsMoved : Target d w form current s → Text → Type 0
  IsMoved t content =
      (s.files t.new ≡ none)
      × ((update_properties d w form current s).0.files t.new ≡ some content)
      × ((update_properties d w form current s).0.files current ≡ none)
      × ((path : AbsPath)
          → path ≢ t.new
          → path ≢ current
          → (update_properties d w form current s).0.files path ≡ s.files path)
      × ((row : Redirect) × (find_redirect
              (configured w.saves_redirect (redirect_of d w t.current_uri t.new_uri) s.redirects)
              true t.current_uri d.domain (update_properties d w form current s).0.redirects
            ≡ found row)
          × (row.new_uri ≡ t.new_uri))

  moved_parts :
      (t : Target d w form current s) (path : AbsPath)
      → path_eq current t.new ≡ false
      → (move_page d w current t.new t.current_uri t.new_uri (noted d w form current s t)).1 ≡ none
      → (s.files t.new ≡ none)
        × ((move_page d w current t.new t.current_uri t.new_uri
                (noted d w form current s t)).0.files
              path
            ≡ rename_file s.files current t.new path)
        × ((move_page d w current t.new t.current_uri t.new_uri
              (noted d w form current s t)).0.redirects
            ≡ (save_redirect_file w.saves_redirect
                (redirect_of d w t.current_uri t.new_uri)
                s.redirects).0)
        × ((save_redirect_file w.saves_redirect
              (redirect_of d w t.current_uri t.new_uri)
              s.redirects).1
            ≡ none)
        × ((move_page d w current t.new t.current_uri t.new_uri
              (noted d w form current s t)).0.metadata
            ≡ (noted d w form current s t).metadata)
  unfolding move_page
  moved_parts t path ne h =
      elim (Option-cases (rename_static_file w.renames s.files current t.new).1) [
        | inr (x, f) ↦ absurd (ground (arith, f, h))
        | inl f ↦
            elim (Option-cases
              (save_redirect_file w.saves_redirect (redirect_of d w t.current_uri t.new_uri)
                s.redirects).1) [
                  | inl r ↦ (
                    (rename_static_file-moved w.renames s.files current t.new path f ne).0,
                    ap (λ g. g path) (files_of f r)
                        ∙ (rename_static_file-moved w.renames s.files current t.new path f ne).1,
                    ground (arith, f, r),
                    r,
                    ground (arith, f, r),
                  )
                  | inr (y, r) ↦
                      elim (Option-cases
                        (rename_static_file w.renames_back
                          (rename_static_file w.renames s.files current t.new).0 t.new current).1) [
                            | inl b ↦ absurd (ground (arith, f, r, b, h))
                            | inr (z, b) ↦ absurd (ground (arith, f, r, b, h))
                          ]
                ]
      ]
    where
      files_of :
          (rename_static_file w.renames s.files current t.new).1 ≡ none
          → (save_redirect_file w.saves_redirect
              (redirect_of d w t.current_uri t.new_uri)
              s.redirects).1
            ≡ none
          → (move_page d w current t.new t.current_uri t.new_uri
              (noted d w form current s t)).0.files
            ≡ (rename_static_file w.renames s.files current t.new).0
      files_of f r = ground (arith, f, r)

  -- The file of a move that reports no error.
  moved_files :
      (t : Target d w form current s) (content : Text)
      → s.files current ≡ some content
      → path_eq current t.new ≡ false
      → (files : Files) → ((path : AbsPath) → files path ≡ rename_file s.files current t.new path)
      → (files t.new ≡ some content)
        × (files current ≡ none)
        × ((path : AbsPath) → path ≢ t.new → path ≢ current → files path ≡ s.files path)
  moved_files t content c ne files same = (
    same t.new ∙ rename_file-to s.files current t.new ∙ c,
    same current ∙ rename_file-from s.files current t.new ne,
    λ path n m. same path ∙ rename_file-other s.files current t.new path n m,
  )

  -- An update of the properties of a page that is a regular file, and that reports no error, has written the metadata
  -- of the page's path, as JSON keeps it, and has left every file where it was if the path is the old one. Else the new
  -- path was free and has the page's content, the old one has nothing, no other file changed, and a lookup of the old
  -- path finds a redirect to the new one. Without a database this is for a redirect whose texts are valid UTF-8.
  pub update_properties-IsMoved :
      (content : Text)
      → s.files current ≡ some content
      → ((t : Target d w form current s)
          → w.saves_redirect.database ≡ none
          → IsUtf8 (redirect_of d w t.current_uri t.new_uri))
      → (update_properties d w form current s).1 ≡ none
      → (t : Target d w form current s) × ((update_properties d w form current s).0.metadata
            (metadata_name d t.new_uri)
          ≡ some (json_metadata (metadata_of form t.new_uri w.now)))
        × (((text_eq t.new_uri t.current_uri ≡ true)
              × ((path : AbsPath)
                  → (update_properties d w form current s).0.files path ≡ s.files path))
            ⊎ IsMoved t content)
  unfolding atomic_write_file
  update_properties-IsMoved content c valid h = elim (target_cases d w form current s) [
    | inl (same, why) ↦ absurd (why h)
    | inr (t, through) ↦ elim (Bool-cases (written w.writes_metadata)) [
      | inr v ↦ absurd (not_written t v (sym (ap (λ r. r.1) through) ∙ h))
      | inl v ↦ elim (Bool-cases (text_eq t.new_uri t.current_uri)) [
        | inl u ↦
            let whole = through ∙ stays d w form current s t v u in
            (
              t,
              ap (λ r. r.0.metadata (metadata_name d t.new_uri)) whole ∙ noted_there t v,
              inl (u, λ path. ap (λ r. r.0.files path) whole),
            )
        | inr u ↦
            let whole = through ∙ goes_on d w form current s t v u in
            let ne = other_file d w form current s t u in
            let (free, files, redirects, saved, metadata) =
              moved_parts t current ne (sym (ap (λ r. r.1) whole) ∙ h) in
            let (row, finds, leads) =
              find_redirect-save_redirect_file w.saves_redirect
                (redirect_of d w t.current_uri t.new_uri) s.redirects saved refl (valid t) in
            let (there, gone, others) =
              moved_files t content c ne (update_properties d w form current s).0.files (λ path.
                ap (λ r. r.0.files path) whole
                ∙ (moved_parts t path ne (sym (ap (λ r. r.1) whole) ∙ h)).1) in
            (
              t,
              ap (λ r. r.0.metadata (metadata_name d t.new_uri)) whole
                  ∙ ap (λ m. m (metadata_name d t.new_uri)) metadata
                  ∙ noted_there t v,
              inr (
                free,
                there,
                gone,
                others,
                (
                  row,
                  ap
                        (λ r.
                          find_redirect
                            (configured w.saves_redirect (redirect_of d w t.current_uri t.new_uri)
                              s.redirects)
                            true t.current_uri d.domain r)
                        (ap (λ r. r.0.redirects) whole ∙ redirects)
                      ∙ finds,
                  leads,
                ),
              ),
            )
      ]
    ]
  ]
    where
      not_written :
          (t : Target d w form current s)
          → written w.writes_metadata ≡ false
          → (apply_properties d w form current t.new t.current_uri t.new_uri s).1 ≢ none
      not_written t v k = ground (arith, k, unwritten_error d w form current s t v)

      noted_there :
          (t : Target d w form current s)
          → written w.writes_metadata ≡ true
          → (noted d w form current s t).metadata (metadata_name d t.new_uri)
            ≡ some (json_metadata (metadata_of form t.new_uri w.now))
      noted_there t v = ground (arith, v, text_eq_self (metadata_name d t.new_uri))
