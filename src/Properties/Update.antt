-- ===== src/Properties/Update.antt =====
-- What updateProperties of pkg/webserver/functions.go leaves behind.
use sitebrush_v.Prelude.{
  ◌&&◌, ◌≡◌, ◌≢◌, ◌⊎◌, refl, sym, ap, subst, ◌∙◌, true, false, none, some, arith, inl, inr,
  Bool-cases, Option-cases,
}
use sitebrush_v.Text.{Text, text_eq, text_eq_self}
use sitebrush_v.Files.{written, atomic_write_file}
use sitebrush_v.Upload.Records.{put}
use sitebrush_v.Paths.{
  AbsPath, PathResult, PathError, path_ok, path_err, safe_writable_static_file_path,
  canonical_request_uri_for_file,
}
use sitebrush_v.Properties.{
  State, Form, Surroundings, Answer, UpdateError, metadata_of, json_metadata, wanted_path,
  metadata_not_written, rename_failed, rename_cleanup_failed, redirect_undo_failed, clean_up,
  redirect_moved, move_page, apply_properties, update_properties, redirect_of, metadata_name,
}
use sitebrush_v.Properties.Rename
use sitebrush_v.Properties.Rename.{
  Files, path_eq, rename_file, RenameError, rollback_failed, rename_static_file,
}
use sitebrush_v.Properties.Renamed.{
  path_eq_sound, rename_file-back, path_eq_other, rename_static_file-failed,
  rename_static_file-moved,
}
use sitebrush_v.Properties.RedirectFile.{save_redirect_file}

-- The errors that come with every file where it was: all but those of a rollback that failed.
abbrev pub KeepsFiles : UpdateError → Type 0
KeepsFiles (rename_failed e) = e ≢ rollback_failed
KeepsFiles (rename_cleanup_failed e) = e ≢ rollback_failed
KeepsFiles (redirect_undo_failed e) = ⊥
KeepsFiles _ = Unit

-- A rename without an error, and one back without an error: every file is where it was.
renamed_back :
    (there back : Rename.Answer) (files : Files) (current new path : AbsPath)
    → path_eq current new ≡ false
    → (rename_static_file there files current new).1 ≡ none
    → (rename_static_file back (rename_static_file there files current new).0 new current).1 ≡ none
    → (rename_static_file back (rename_static_file there files current new).0 new current).0 path
      ≡ files path
unfolding rename_file
renamed_back there back files current new path ne h k =
    let files' = (rename_static_file there files current new).0 in
    let at = λ (p : AbsPath). (rename_static_file-moved there files current new p h ne).1 in
    let free = (rename_static_file-moved there files current new path h ne).0 in
    let again =
      (rename_static_file-moved back files' new current path k (path_eq_other current new ne)).1 in
    again ∙ ground (arith, at new, at path) ∙ rename_file-back files current new ne free path

module _ (d : Surroundings) (w : Answer) (current new : AbsPath) (current_uri new_uri : Text) where
  clean_up-error :
      (s : State) (e worse e' : UpdateError)
      → (clean_up d w new_uri s e worse).1 ≡ some e'
      → (e' ≡ e) ⊎ (e' ≡ worse)
  unfolding clean_up
  clean_up-error s e worse e' h = elim (Bool-cases (w.removes_metadata && w.syncs_metadata)) [
    | inl b ↦ inl (ground (arith, b))
    | inr b ↦ inr (ground (arith, b))
  ]

  clean_up-files :
      (s : State) (e worse : UpdateError) → (clean_up d w new_uri s e worse).0.files ≡ s.files
  unfolding clean_up
  clean_up-files s e worse = refl

  redirect_moved-files :
      (s : State) (e : UpdateError) (path : AbsPath)
      → (redirect_moved d w current new current_uri new_uri s).1 ≡ some e
      → KeepsFiles e
      → (rename_static_file w.renames_back s.files new current).1 ≡ none
        × ((redirect_moved d w current new current_uri new_uri s).0.files
            ≡ (rename_static_file w.renames_back s.files new current).0)
  unfolding redirect_moved
  redirect_moved-files s e path h keeps =
      elim (Option-cases
        (save_redirect_file w.saves_redirect (redirect_of d w current_uri new_uri) s.redirects).1) [
          | inl f ↦ absurd (ground (arith, f))
          | inr (x, f) ↦
              elim (Option-cases (rename_static_file w.renames_back s.files new current).1) [
                | inl b ↦ (b, ground (arith, f, b))
                | inr (y, b) ↦ absurd (
                    subst KeepsFiles {x = e} {y = redirect_undo_failed x} (ground (arith, f, b))
                      keeps)
              ]
        ]

  move_page-files :
      (s : State) (e : UpdateError) (path : AbsPath)
      → path_eq current new ≡ false
      → (move_page d w current new current_uri new_uri s).1 ≡ some e
      → KeepsFiles e
      → (move_page d w current new current_uri new_uri s).0.files path ≡ s.files path
  unfolding move_page
  move_page-files s e path ne h keeps =
      let files = (rename_static_file w.renames s.files current new).0 in
      let moved = record s { files = files } in
      elim (Option-cases (rename_static_file w.renames s.files current new).1) [
        | inr (x, f) ↦
            ap (λ g. g path) (kept moved x f)
            ∙ rename_static_file-failed w.renames s.files current new x path f (told moved x f)
        | inl f ↦
            let through : move_page d w current new current_uri new_uri s
                ≡ redirect_moved d w current new current_uri new_uri moved =
              ground (arith, f) in
            let (fine, same) =
              redirect_moved-files moved e path (sym (ap (λ r. r.1) through) ∙ h) keeps in
            ap (λ r. r.0.files path) through
            ∙ ap (λ g. g path) same
            ∙ renamed_back w.renames w.renames_back s.files current new path ne f fine
      ]
    where
      kept :
          (moved : State) (x : RenameError)
          → (rename_static_file w.renames s.files current new).1 ≡ some x
          → (move_page d w current new current_uri new_uri s).0.files
            ≡ (rename_static_file w.renames s.files current new).0
      kept moved x f = ground (arith, f)

      told :
          (moved : State) (x : RenameError)
          → (rename_static_file w.renames s.files current new).1 ≡ some x
          → x ≢ rollback_failed
      told moved x f =
          elim (clean_up-error moved (rename_failed x) (rename_cleanup_failed x) e
            (ground (arith, f, h))) [
              | inl q ↦ subst KeepsFiles q keeps
              | inr q ↦ subst KeepsFiles q keeps
            ]

module _ (d : Surroundings) (w : Answer) (form : Form) (current : AbsPath) (s : State) where
  -- What an update finds out before it changes anything.
  pub record Target : Type 0 where
    pub current_uri : Text
    pub new : AbsPath
    pub new_uri : Text
    pub from : canonical_request_uri_for_file d.index_file d.root_path current ≡ some current_uri
    pub writable :
        safe_writable_static_file_path d.cwd d.lstat d.eval_symlinks d.root
          (wanted_path form current_uri)
          d.index_file
        ≡ path_ok new
    pub to : canonical_request_uri_for_file d.index_file d.root_path new ≡ some new_uri

  PathResult-cases :
      (r : PathResult)
      → ((path : AbsPath) × (r ≡ path_ok path)) ⊎ ((e : PathError) × (r ≡ path_err e))
  PathResult-cases (path_ok path) = inl (path, refl)
  PathResult-cases (path_err e) = inr (e, refl)

  -- Either nothing is changed and an error reported, or the update goes on with its target.
  pub target_cases :
      ((update_properties d w form current s).0 ≡ s)
        × ((update_properties d w form current s).1 ≢ none)
      ⊎ ((t : Target) × (update_properties d w form current s
            ≡ apply_properties d w form current t.new t.current_uri t.new_uri s))
  unfolding update_properties
  target_cases =
      elim (Option-cases (canonical_request_uri_for_file d.index_file d.root_path current)) [
        | inl e ↦ inl (ground (arith, e), λ k. ground (arith, e, k))
        | inr (current_uri, e) ↦
            elim (PathResult-cases (
              safe_writable_static_file_path d.cwd d.lstat d.eval_symlinks d.root
                (wanted_path form current_uri) d.index_file)) [
                  | inr (x, f) ↦ inl (ground (arith, e, f), λ k. ground (arith, e, f, k))
                  | inl (new, f) ↦
                      elim (Option-cases
                        (canonical_request_uri_for_file d.index_file d.root_path new)) [
                          | inl g ↦ inl (ground (arith, e, f, g), λ k. ground (arith, e, f, g, k))
                          | inr (new_uri, g) ↦ inr (
                            record {
                              current_uri = current_uri;
                              new = new;
                              new_uri = new_uri;
                              from = e;
                              writable = f;
                              to = g;
                            },
                            ground (arith, e, f, g),
                          )
                        ]
                ]
      ]

  -- Pages with different URIs have different files.
  pub other_file :
      (t : Target) → text_eq t.new_uri t.current_uri ≡ false → path_eq current t.new ≡ false
  other_file t ne = elim (Bool-cases (path_eq current t.new)) [
    | inr e ↦ e
    | inl e ↦
        let same : some t.current_uri ≡ some t.new_uri =
          sym t.from
          ∙ ap (canonical_request_uri_for_file d.index_file d.root_path)
              (path_eq_sound current t.new e)
          ∙ t.to in
        let uri : t.current_uri ≡ t.new_uri = ground (arith, same) in
        absurd (ground (arith, ne, ap (λ u. text_eq t.new_uri u) uri, text_eq_self t.new_uri))
  ]

  -- The state with the new metadata.
  abbrev pub noted : Target → State
  noted t = record s {
    metadata = put s.metadata (metadata_name d t.new_uri) (
        atomic_write_file w.writes_metadata (s.metadata (metadata_name d t.new_uri))
          (some (json_metadata (metadata_of form t.new_uri w.now))));
  }

  unwritten :
      (t : Target)
      → written w.writes_metadata ≡ false
      → {path : AbsPath}
      → (apply_properties d w form current t.new t.current_uri t.new_uri s).0.files path
        ≡ s.files path
  unfolding apply_properties
  unwritten t v = ground (arith, v)

  pub unwritten_error :
      (t : Target)
      → written w.writes_metadata ≡ false
      → (apply_properties d w form current t.new t.current_uri t.new_uri s).1
        ≡ some metadata_not_written
  unfolding apply_properties
  unwritten_error t v = ground (arith, v)

  pub stays :
      (t : Target)
      → written w.writes_metadata ≡ true
      → text_eq t.new_uri t.current_uri ≡ true
      → apply_properties d w form current t.new t.current_uri t.new_uri s ≡ (noted t, none)
  unfolding apply_properties
  stays t v u = ground (arith, v, u)

  pub goes_on :
      (t : Target)
      → written w.writes_metadata ≡ true
      → text_eq t.new_uri t.current_uri ≡ false
      → apply_properties d w form current t.new t.current_uri t.new_uri s
        ≡ move_page d w current t.new t.current_uri t.new_uri (noted t)
  unfolding apply_properties
  goes_on t v u = ground (arith, v, u)

  -- An update of a page's properties that reports an error leaves every static file where it was, unless a rollback
  -- failed.
  pub update_properties-failed :
      (e : UpdateError) (path : AbsPath)
      → (update_properties d w form current s).1 ≡ some e
      → KeepsFiles e
      → (update_properties d w form current s).0.files path ≡ s.files path
  update_properties-failed e path h keeps = elim target_cases [
    | inl (same, why) ↦ ap (λ r. r.files path) same
    | inr (t, through) ↦
        ap (λ r. r.0.files path) through ∙ applied t (sym (ap (λ r. r.1) through) ∙ h)
  ]
    where
      applied :
          (t : Target)
          → (apply_properties d w form current t.new t.current_uri t.new_uri s).1 ≡ some e
          → (apply_properties d w form current t.new t.current_uri t.new_uri s).0.files path
            ≡ s.files path
      applied t k = elim (Bool-cases (written w.writes_metadata)) [
        | inr v ↦ unwritten t v
        | inl v ↦ elim (Bool-cases (text_eq t.new_uri t.current_uri)) [
          | inl u ↦ ap (λ r. r.0.files path) (stays t v u)
          | inr u ↦
              ap (λ r. r.0.files path) (goes_on t v u)
              ∙ move_page-files d w current t.new t.current_uri t.new_uri (noted t) e path
                  (other_file t u) (sym (ap (λ r. r.1) (goes_on t v u)) ∙ k) keeps
        ]
      ]
