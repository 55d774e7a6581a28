-- ===== src/Database/Sql.antt =====
-- What pkg/database/functions.go uses of database/sql and the engine behind it. Each call may fail;
-- whether it does, and the identifiers that it hands out, are the engine's to say.
use sitebrush_v.Prelude.{Bool, true, false}
use sitebrush_v.Prelude.Int.{ℤ, is_nonzero}

-- The database drivers.
pub data DbType : Type 0 where
  sqlite postgres genji : DbType

-- Where a save stopped.
pub data DbError : Type 0 where
  nil_connection begin_failed query_failed random_failed exec_failed last_id_failed commit_failed :
      DbError

-- How the engine answers the calls of one save: which of them fail, the row id that SQLite gives to
-- a row without one, and what randomPostID draws.
pub record Answers : Type 0 where
  pub connected : Bool
  pub begins : Bool
  pub selects : Bool
  pub draws : Bool
  pub deletes : Bool
  pub inserts : Bool
  pub reports_id : Bool
  pub commits : Bool
  pub row_id : ℤ
  pub random_id : ℤ

-- The identifier of the inserted row, for a record whose own is `id`.
unfoldable pub insert_id : DbType → Answers → ℤ → ℤ
insert_id sqlite a id = elim (is_nonzero id) [ true ↦ id | false ↦ a.row_id ]
insert_id _ a id = elim (is_nonzero id) [ true ↦ id | false ↦ a.random_id ]

-- Whether the identifier is drawn by randomPostID.
unfoldable pub draws_id : DbType → ℤ → Bool
draws_id sqlite id = false
draws_id _ id = elim (is_nonzero id) [ true ↦ false | false ↦ true ]

-- Whether the identifier is read from LastInsertId.
unfoldable pub reads_id : DbType → ℤ → Bool
reads_id sqlite id = elim (is_nonzero id) [ true ↦ false | false ↦ true ]
reads_id _ id = false
