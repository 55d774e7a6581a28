-- ===== src/Database/Redirects.antt =====
-- saveRedirectInDB and LoadRedirectFromConfig of pkg/database/functions.go: one active redirect for
-- an old URI and a domain.
pub mod Upsert
use sitebrush_v.Prelude.{
  ℕ, Bool, true, false, not, ◌&&◌, List, [], ◌∷◌, ◌++◌, Option, none, some, if◌then◌else◌,
}
use sitebrush_v.Prelude.Int.{ℤ, is_nonzero, ltb_ℤ}
use sitebrush_v.Text.{Text, codes, text_eq, is_empty}
use sitebrush_v.Data.{Redirect}
use sitebrush_v.Database.Sql.{
  DbType, DbError, nil_connection, begin_failed, random_failed, exec_failed, last_id_failed,
  commit_failed, Answers, insert_id, draws_id, reads_id,
}

-- WHERE OldUri = old and Domain = domain
unfoldable pub is_for : Text → Text → Redirect → Bool
is_for old domain row = text_eq row.old_uri old && text_eq row.domain domain

-- DELETE FROM Redirect WHERE OldUri = old AND Domain = domain
unfoldable pub delete_for : Text → Text → List Redirect → List Redirect
delete_for old domain [] = []
delete_for old domain (row ∷ rows) =
    let rest = delete_for old domain rows in if is_for old domain row then rest else row ∷ rest

pub record Saved : Type 0 where
  pub redirect : Redirect
  pub error : Option DbError

abbrev pub failed : List Redirect → Redirect → DbError → List Redirect × Saved
failed rows r e = (rows, record { redirect = r; error = some e })

-- The status and the date that an unset field gets; `now` is time.Now().UnixMilli().
unfoldable pub with_defaults : ℤ → Redirect → Redirect
with_defaults now r = record r {
  date = if is_nonzero r.date then r.date else now;
  status = if is_empty r.status then codes "active" else r.status;
}

-- From the INSERT on: `rows` is the table as it was, `left` what the DELETE left of it.
unfoldable pub insert_redirect :
    DbType → Answers → List Redirect → List Redirect → Redirect → List Redirect × Saved
insert_redirect t a rows left r =
    let row = record r { id = insert_id t a r.id } in
    let drawn = if draws_id t r.id then row else r in
    if draws_id t r.id && not a.draws
    then failed rows r random_failed
    else if not a.inserts
    then failed rows drawn exec_failed
    else if reads_id t r.id && not a.reports_id
    then failed rows drawn last_id_failed
    else if not a.commits
    then failed rows row commit_failed
    else (left ++ row ∷ [], record { redirect = row; error = none })

unfoldable pub save_redirect :
    DbType → Answers → ℤ → List Redirect → Redirect → List Redirect × Saved
save_redirect t a now rows r =
    let r' = with_defaults now r in
    if not a.connected
    then failed rows r nil_connection
    else if not a.begins
    then failed rows r' begin_failed
    else if not a.deletes
    then failed rows r' exec_failed
    else insert_redirect t a rows (delete_for r'.old_uri r'.domain rows) r'

-- WHERE OldUri = old AND Domain = domain AND Status = 'active'
unfoldable pub is_active_for : Text → Text → Redirect → Bool
is_active_for old domain row = is_for old domain row && text_eq row.status (codes "active")

-- Of two rows under ORDER BY Date DESC, the first; SQL leaves open which of two with one date.
abbrev pub newer : Redirect → Option Redirect → Option Redirect
newer row none = some row
newer row (some best) = if ltb_ℤ row.date best.date then some best else some row

-- The first row of LoadRedirectFromConfig's SELECT; `none` is sql.ErrNoRows.
unfoldable pub load_redirect : Text → Text → List Redirect → Option Redirect
load_redirect old domain [] = none
load_redirect old domain (row ∷ rows) =
    let rest = load_redirect old domain rows in
    if is_active_for old domain row then newer row rest else rest
