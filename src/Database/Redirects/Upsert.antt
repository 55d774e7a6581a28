-- ===== src/Database/Redirects/Upsert.antt =====
-- A saved redirect is the one that is found, and no other is touched.
use sitebrush_v.Prelude.{
  ◌≡◌, ◌≢◌, ◌⊎◌, refl, ◌∙◌, true, false, ◌&&◌, List, [], ◌∷◌, ◌++◌, none, some, if◌then◌else◌,
  arith, inl, inr,
}
use sitebrush_v.Prelude.Int.{ℤ}
use sitebrush_v.Text.{Text, codes, text_eq, text_eq_self, text_eq_iff, text_eq_comm}
use sitebrush_v.Data.{Redirect}
use sitebrush_v.Database.Sql.{DbType, Answers, insert_id}
use sitebrush_v.Database.Redirects.{
  is_for, delete_for, with_defaults, insert_redirect, save_redirect, is_active_for, load_redirect,
}

-- The row that a successful save writes.
abbrev pub saved_row : DbType → Answers → ℤ → Redirect → Redirect
saved_row t a now r = record (with_defaults now r) { id = insert_id t a (with_defaults now r).id }

-- Without an error the rows for the pair are replaced by the redirect, with its identifier, status and date
-- filled in; with an error the table is as it was, the deletion included.
pub save_redirect_outcome :
    (t : DbType) (a : Answers) (now : ℤ) (rows : List Redirect) (r : Redirect)
    → (((save_redirect t a now rows r).1.error ≡ none)
        × ((save_redirect t a now rows r).0
            ≡ delete_for r.old_uri r.domain rows ++ saved_row t a now r ∷ [])
        × ((save_redirect t a now rows r).1.redirect ≡ saved_row t a now r))
      ⊎ (((save_redirect t a now rows r).1.error ≢ none)
          × ((save_redirect t a now rows r).0 ≡ rows))
unfolding save_redirect insert_redirect with_defaults
save_redirect_outcome t a now rows r = ground arith

load-replaced :
    (old domain : Text) (rows : List Redirect) (row : Redirect)
    → load_redirect old domain (delete_for old domain rows ++ row ∷ [])
      ≡ load_redirect old domain (row ∷ [])
unfolding load_redirect delete_for is_active_for
load-replaced old domain [] row = refl
load-replaced old domain (r ∷ rows) row = ground (arith, load-replaced old domain rows row)

-- A row of one pair is a row of another only if the pairs are equal.
is_for-pair :
    (old domain o d : Text) (row : Redirect)
    → is_for o d row ≡ true
    → is_for old domain row ≡ (text_eq o old && text_eq d domain)
unfolding is_for
is_for-pair old domain o d row h =
    ground (arith, text_eq_iff row.old_uri o, text_eq_iff row.domain d)

load-other :
    (old domain o d : Text) (rows : List Redirect) (row : Redirect)
    → (text_eq o old && text_eq d domain) ≡ false
    → is_for o d row ≡ false
    → load_redirect o d (delete_for old domain rows ++ row ∷ []) ≡ load_redirect o d rows
unfolding load_redirect delete_for is_active_for
load-other old domain o d [] row ne h = rw h
load-other old domain o d (r ∷ rows) row ne h =
    ground (arith, load-other old domain o d rows row, is_for-pair old domain o d r)

is_for_self : (row : Redirect) → is_for row.old_uri row.domain row ≡ true
unfolding is_for
is_for_self row = rw (text_eq_self row.old_uri, text_eq_self row.domain)

load_one :
    (row : Redirect)
    → load_redirect row.old_uri row.domain (row ∷ [])
      ≡ (if text_eq row.status (codes "active") then some row else none)
unfolding load_redirect is_active_for
load_one row = rw (is_for_self row)

row_pair :
    (t : DbType) (a : Answers) (now : ℤ) (r : Redirect) (o d : Text)
    → (text_eq r.old_uri o && text_eq r.domain d) ≡ false
    → is_for o d (saved_row t a now r) ≡ false
unfolding is_for with_defaults
row_pair t a now r o d h = h

module _ (t : DbType) (a : Answers) (now : ℤ) (rows : List Redirect) (r : Redirect) where
  -- After a save without an error the lookup of its old URI and domain finds the saved redirect if that is
  -- active, and nothing if it is not, whatever rows the pair had before.
  pub load-save_redirect :
      (save_redirect t a now rows r).1.error ≡ none
      → load_redirect r.old_uri r.domain (save_redirect t a now rows r).0 ≡ (
          if text_eq (saved_row t a now r).status (codes "active")
          then some (saved_row t a now r)
          else none)
  load-save_redirect h = elim (save_redirect_outcome t a now rows r) [
    | inl (ok, table, returned) ↦ rw table (
        load-replaced r.old_uri r.domain rows (saved_row t a now r)
        ∙ (unfold with_defaults in load_one (saved_row t a now r)))
    | inr (error, same) ↦ absurd (error h)
  ]

  -- The lookup of another pair finds what it found, whether the save succeeds or not.
  pub load-save_redirect_other :
      (o d : Text)
      → (text_eq r.old_uri o && text_eq r.domain d) ≡ false
      → load_redirect o d (save_redirect t a now rows r).0 ≡ load_redirect o d rows
  load-save_redirect_other o d ne = elim (save_redirect_outcome t a now rows r) [
    | inl (ok, table, returned) ↦ rw table (
        load-other r.old_uri r.domain o d rows (saved_row t a now r)
          (rw (text_eq_comm o r.old_uri, text_eq_comm d r.domain) ne) (row_pair t a now r o d ne))
    | inr (error, same) ↦ rw same
  ]
