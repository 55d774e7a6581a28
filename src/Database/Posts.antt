-- ===== src/Database/Posts.antt =====
-- savePostDataInDB of pkg/database/functions.go: an immutable post revision with the next number of
-- its page.
pub mod Numbering
pub mod Gapless
use sitebrush_v.Prelude.{
  ℕ, ◌≡◌, Bool, true, false, not, ◌&&◌, List, [], ◌∷◌, ◌++◌, Option, none, some, if◌then◌else◌,
}
use sitebrush_v.Prelude.Int.{ℤ, pos, suc_ℤ, max_ℤ}
use sitebrush_v.Text.{Text, text_eq}
use sitebrush_v.Data.{Post}
use sitebrush_v.Database.Sql.{
  DbType, DbError, nil_connection, begin_failed, query_failed, random_failed, exec_failed,
  last_id_failed, commit_failed, Answers, insert_id, draws_id, reads_id,
}

-- WHERE RequestUri = uri and Domain = domain
unfoldable pub on_page : Text → Text → Post → Bool
on_page uri domain row = text_eq row.request_uri uri && text_eq row.domain domain

-- One more row under MAX.
abbrev pub join_max : ℤ → Option ℤ → Option ℤ
join_max r none = some r
join_max r (some m) = some (max_ℤ r m)

-- MAX(Revision) of the rows of a page; `none` is SQL's NULL.
unfoldable pub max_revision : Text → Text → List Post → Option ℤ
max_revision uri domain [] = none
max_revision uri domain (row ∷ rows) =
    let rest = max_revision uri domain rows in
    if on_page uri domain row then join_max row.revision rest else rest

-- COALESCE(m, 0) + 1
abbrev pub coalesce_next : Option ℤ → ℤ
coalesce_next none = pos 1
coalesce_next (some m) = suc_ℤ m

-- SELECT COALESCE(MAX(Revision), 0) + 1
unfoldable pub next_revision : Text → Text → List Post → ℤ
next_revision uri domain rows = coalesce_next (max_revision uri domain rows)

-- What a save returns, beside the table.
pub record Saved : Type 0 where
  pub post : Post
  pub error : Option DbError

abbrev pub failed : List Post → Post → DbError → List Post × Saved
failed rows post e = (rows, record { post = post; error = some e })

-- From the INSERT on. The INSERT's row reaches the table with the commit; every return before it
-- rolls back.
unfoldable pub insert_post : DbType → Answers → List Post → Post → List Post × Saved
insert_post t a rows post =
    let row = record post { id = insert_id t a post.id } in
    let drawn = if draws_id t post.id then row else post in
    if draws_id t post.id && not a.draws
    then failed rows post random_failed
    else if not a.inserts
    then failed rows drawn exec_failed
    else if reads_id t post.id && not a.reports_id
    then failed rows drawn last_id_failed
    else if not a.commits
    then failed rows row commit_failed
    else (rows ++ row ∷ [], record { post = row; error = none })

unfoldable pub save_post : DbType → Answers → List Post → Post → List Post × Saved
save_post t a rows post =
    if not a.connected
    then failed rows post nil_connection
    else if not a.begins
    then failed rows post begin_failed
    else if not a.selects
    then failed rows post query_failed
    else insert_post t a rows
        (record post { revision = next_revision post.request_uri post.domain rows })

-- The saves of a process, one after the other: the keyed lock admits one at a time to a page.
unfoldable pub save_all : DbType → List Post → List (Answers × Post) → List Post
save_all t rows [] = rows
save_all t rows ((a, post) ∷ saves) = save_all t (save_post t a rows post).0 saves
