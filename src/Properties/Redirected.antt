-- ===== src/Properties/Redirected.antt =====
-- What saveRedirect of pkg/webserver/functions.go leaves behind, and what findRedirect then finds.
use sitebrush_v.Prelude.{
  ◌≡◌, ◌⊎◌, refl, ap, ◌∙◌, Bool, true, false, ◌&&◌, List, [], ◌∷◌, Option, none, some, arith, inl,
  inr, and-true, ap₂, Bool-cases, Option-cases,
}
use sitebrush_v.Text.{Text, codes, text_eq, text_eq_self, text_eq_sound}
use sitebrush_v.Files.{written, unsynced, atomic_write_file}
use sitebrush_v.Data.{Redirect}
use sitebrush_v.Database.Sql.{DbType, Answers}
use sitebrush_v.Database.Redirects.{save_redirect, with_defaults}
use sitebrush_v.Database.Redirects.Upsert.{saved_row, load-save_redirect, load-save_redirect_other}
use sitebrush_v.Properties.RedirectFile.{
  RedirectFile, absent, garbled, listed, Redirects, Answer, RedirectError, rollback_failed,
  not_written, load_redirects, is_pair, replace_or_append, json_redirect, restore_redirects_file,
  record_redirect, save_redirect_file, first_active, find_redirect, found,
}

-- A redirect whose texts are valid UTF-8.
abbrev pub IsUtf8 : Redirect → Type 0
IsUtf8 r = json_redirect r ≡ r

pair_kept :
    (old domain : Text) (r : Redirect)
    → IsUtf8 r
    → is_pair old domain (json_redirect r) ≡ is_pair old domain r
pair_kept old domain r e = ap (is_pair old domain) e

active_kept :
    (r : Redirect)
    → IsUtf8 r
    → text_eq r.status (codes "active") ≡ true
    → text_eq (json_redirect r).status (codes "active") ≡ true
active_kept r e h = ap (λ x. text_eq x.status (codes "active")) e ∙ h

own_pair : (r : Redirect) → IsUtf8 r → is_pair r.old_uri r.domain (json_redirect r) ≡ true
own_pair r e =
    pair_kept r.old_uri r.domain r e ∙ ground (arith, text_eq_self r.old_uri, text_eq_self r.domain)

-- The list after a save: the pair's redirect is the saved one, and those of other pairs are as before.
first_active-replaced :
    (r : Redirect) (rs : List Redirect)
    → IsUtf8 r
    → text_eq r.status (codes "active") ≡ true
    → first_active r.old_uri r.domain (replace_or_append r rs) ≡ some (json_redirect r)
unfolding first_active replace_or_append
first_active-replaced r [] e h = ground (arith, own_pair r e, active_kept r e h)
first_active-replaced r (s ∷ rs) e h =
    ground (arith, own_pair r e, active_kept r e h, first_active-replaced r rs e h)

first_active-other :
    (old domain : Text) (r : Redirect) (rs : List Redirect)
    → IsUtf8 r
    → is_pair old domain r ≡ false
    → first_active old domain (replace_or_append r rs) ≡ first_active old domain rs
unfolding first_active replace_or_append
first_active-other old domain r [] u h = ground (arith, h, pair_kept old domain r u)
first_active-other old domain r (s ∷ rs) u h = elim (Bool-cases (is_pair r.old_uri r.domain s)) [
  | inr e ↦ ground (arith, e, first_active-other old domain r rs u h)
  | inl e ↦
      let (o, d) = and-true (text_eq s.old_uri r.old_uri) (text_eq s.domain r.domain) e in
      let same : is_pair old domain s ≡ is_pair old domain r =
        ap₂ (λ a b. text_eq a old && text_eq b domain) (text_eq_sound s.old_uri r.old_uri o)
          (text_eq_sound s.domain r.domain d) in
      ground (arith, e, h, same, pair_kept old domain r u)
]

module _ (w : Answer) (r : Redirect) (s : Redirects) where
  abbrev after : Redirects
  after = (save_redirect_file w r s).0

  abbrev error : Option RedirectError
  error = (save_redirect_file w r s).1

  restored_file :
      (file : RedirectFile)
      → (restore_redirects_file w s.file file).1 ≡ true
      → ((restore_redirects_file w s.file file).0 ≡ s.file)
  unfolding restore_redirects_file atomic_write_file
  restored_file file h = go s.file h
    where
      go :
          (f : RedirectFile)
          → (restore_redirects_file w f file).1 ≡ true
          → (restore_redirects_file w f file).0 ≡ f
      go absent h = ground arith
      go garbled h = ground arith
      go (listed rs) h = ground arith

  -- A save of a redirect that reports an error leaves the file of redirects as it was, unless the new file is in place
  -- and its directory was not synced, or the database failed and then the rollback of the file did too.
  pub save_redirect_file-failed :
      (e : RedirectError)
      → error ≡ some e
      → (after.file ≡ s.file)
        ⊎ (((e ≡ not_written) × (unsynced w.writes ≡ true)) ⊎ (e ≡ rollback_failed))
  unfolding save_redirect_file atomic_write_file
  save_redirect_file-failed e h = elim (Bool-cases w.reads) [
    | inr i ↦ inl (ground (arith, i))
    | inl i ↦ elim (Option-cases (load_redirects true s.file)) [
      | inl l ↦ inl (ground (arith, i, l))
      | inr (rs, l) ↦ elim (Bool-cases (written w.writes)) [
        | inr v ↦ elim (Bool-cases w.writes.renames) [
          | inr m ↦ inl (ground (arith, i, l, m))
          | inl m ↦ inr (inl (ground (arith, i, l, v), ground (arith, v, m)))
        ]
        | inl v ↦
            let file = atomic_write_file w.writes s.file (listed (replace_or_append r rs)) in
            elim (Bool-cases (restore_redirects_file w s.file file).1) [
              | inl b ↦ inl (ground (arith, i, l, v, b, restored_file file b))
              | inr b ↦ inr (inr (ground (arith, i, l, v, b)))
            ]
      ]
    ]
  ]

  -- Whether a lookup asks the database.
  abbrev pub configured : Option Bool
  configured = elim w.database [ none ↦ none | some _ ↦ some true ]

  saved_file :
      error ≡ none
      → (rs : List Redirect) × (load_redirects true s.file ≡ some rs)
        × (after.file ≡ listed (replace_or_append r rs))
        × (after.rows ≡ (record_redirect w r s.rows).0)
        × ((record_redirect w r s.rows).1 ≡ true)
  unfolding save_redirect_file atomic_write_file
  saved_file h = elim (Option-cases (load_redirects true s.file)) [
    | inl l ↦ absurd (ground (arith, l))
    | inr (rs, l) ↦ (rs, l, ground (arith, l), ground (arith, l), ground (arith, l))
  ]

  in_table :
      (t : DbType) (a : Answers)
      → w.database ≡ some (t, a)
      → (record_redirect w r s.rows).1 ≡ true
      → ((record_redirect w r s.rows).0 ≡ (save_redirect t a w.now s.rows r).0)
        × ((save_redirect t a w.now s.rows r).1.error ≡ none)
  unfolding record_redirect
  in_table t a d h = (ground (arith, d), ground (arith, d))

  saved_row-kept :
      (t : DbType) (a : Answers)
      → r.status ≡ codes "active"
      → ((saved_row t a w.now r).status ≡ codes "active")
        × ((saved_row t a w.now r).new_uri ≡ r.new_uri)
  unfolding with_defaults
  saved_row-kept t a h = (rw h refl, refl)

  -- After an active redirect was saved without an error, a lookup of its old URI and domain finds a redirect to its
  -- new URI: with a database always, and without one for a redirect whose texts are valid UTF-8.
  pub find_redirect-save_redirect_file :
      error ≡ none
      → r.status ≡ codes "active"
      → (w.database ≡ none → IsUtf8 r)
      → (row : Redirect) × (find_redirect configured true r.old_uri r.domain after ≡ found row)
        × (row.new_uri ≡ r.new_uri)
  unfolding find_redirect load_redirects
  find_redirect-save_redirect_file h active valid =
      let (rs, l, file, rows, saved) = saved_file h in
      elim (Option-cases w.database) [
        | inl d ↦ (
          json_redirect r,
          ground (
            arith,
            d,
            file,
            first_active-replaced r rs (valid d)
                (ap (λ c. text_eq c (codes "active")) active ∙ text_eq_self (codes "active")),
          ),
          ap (λ x. x.new_uri) (valid d),
        )
        | inr ((t, a), d) ↦
            let (table, fine) = in_table t a d saved in
            let (kept, uri) = saved_row-kept t a active in
            let in_db = load-save_redirect t a w.now s.rows r fine in
            (
              saved_row t a w.now r,
              ground (
                arith,
                d,
                rows ∙ table,
                in_db,
                ap (λ c. text_eq c (codes "active")) kept ∙ text_eq_self (codes "active"),
              ),
              uri,
            )
      ]

  -- The lookup of another pair finds what it found before, after a save without an error of a redirect
  -- whose texts are valid UTF-8.
  pub find_redirect-save_redirect_file_other :
      (old domain : Text)
      → error ≡ none
      → IsUtf8 r
      → is_pair old domain r ≡ false
      → find_redirect configured true old domain after ≡ find_redirect configured true old domain s
  unfolding find_redirect load_redirects
  find_redirect-save_redirect_file_other old domain h valid other =
      let (rs, l, file, rows, saved) = saved_file h in
      let in_file = first_active-other old domain r rs valid other in
      elim (Option-cases w.database) [
        | inl d ↦ ground (arith, d, file, l, in_file)
        | inr ((t, a), d) ↦
            let (table, fine) = in_table t a d saved in
            let in_db = load-save_redirect_other t a w.now s.rows r old domain other in
            ground (arith, d, file, l, in_file, rows ∙ table, in_db)
      ]
