-- ===== src/Database/Media.antt =====
-- saveMediaInDB of pkg/database/media.go and saveTemplateInDB of pkg/database/template.go: one INSERT,
-- without a transaction.
use sitebrush_v.Prelude.{
  ◌≡◌, ◌≢◌, ◌⊎◌, not, ◌&&◌, List, [], ◌∷◌, ◌++◌, Option, none, some, if◌then◌else◌, arith,
}
use sitebrush_v.Prelude.Int.{ℤ, is_nonzero}
use sitebrush_v.Text.{codes, is_empty}
use sitebrush_v.Data.{Media, Template}
use sitebrush_v.Database.Sql.{
  DbType, DbError, nil_connection, random_failed, exec_failed, last_id_failed, Answers, insert_id,
  draws_id, reads_id,
}

-- What a save returns, beside the table.
pub record Saved (A : Type 0) : Type 0 where
  pub row : A
  pub error : Option DbError

-- The status, the date and the day that an unset field gets; `now` is time.Now().UnixMilli(), `year_day`
-- is dayFromUnixMillis.
unfoldable pub media_defaults : (ℤ → ℤ) → ℤ → Media → Media
media_defaults year_day now m =
    let date = if is_nonzero m.date then m.date else now in
    record m {
      status = if is_empty m.status then codes "active" else m.status;
      date = date;
      day = if is_nonzero m.day then m.day else year_day date;
    }

unfoldable pub save_media :
    (ℤ → ℤ) → DbType → Answers → ℤ → List Media → Media → List Media × Saved Media
save_media year_day t a now rows media =
    let m = media_defaults year_day now media in
    let row = record m { id = insert_id t a m.id } in
    let drawn = if draws_id t m.id then row else m in
    if not a.connected
    then (rows, record { row = media; error = some nil_connection })
    else if draws_id t m.id && not a.draws
    then (rows, record { row = m; error = some random_failed })
    else if not a.inserts
    then (rows, record { row = drawn; error = some exec_failed })
    else if reads_id t m.id && not a.reports_id
    then (rows ++ row ∷ [], record { row = drawn; error = some last_id_failed })
    else (rows ++ row ∷ [], record { row = row; error = none })

-- The status that an unset field gets.
unfoldable pub template_defaults : Template → Template
template_defaults x = record x { status = if is_empty x.status then codes "active" else x.status }

unfoldable pub save_template :
    DbType → Answers → List Template → Template → List Template × Saved Template
save_template t a rows template =
    let x = template_defaults template in
    let row = record x { id = insert_id t a x.id } in
    let drawn = if draws_id t x.id then row else x in
    if not a.connected
    then (rows, record { row = template; error = some nil_connection })
    else if draws_id t x.id && not a.draws
    then (rows, record { row = x; error = some random_failed })
    else if not a.inserts
    then (rows, record { row = drawn; error = some exec_failed })
    else if reads_id t x.id && not a.reports_id
    then (rows ++ row ∷ [], record { row = drawn; error = some last_id_failed })
    else (rows ++ row ∷ [], record { row = row; error = none })

-- What a save of `x`, whose row is `row`, may do to a table.
abbrev pub OneRow : {A : Type 0} → List A → A → List A × Saved A → Type 0
OneRow rows row out =
    ((out.1.error ≡ none) × (out.0 ≡ rows ++ row ∷ []) × (out.1.row ≡ row))
    ⊎ (((out.1.error ≡ some last_id_failed) × (out.0 ≡ rows ++ row ∷ []))
        ⊎ ((out.1.error ≢ none) × (out.1.error ≢ some last_id_failed) × (out.0 ≡ rows)))

-- The row with its defaults and identifier.
abbrev pub media_row : (ℤ → ℤ) → DbType → Answers → ℤ → Media → Media
media_row year_day t a now media = record (media_defaults year_day now media) {
  id = insert_id t a media.id;
}

abbrev pub template_row : DbType → Answers → Template → Template
template_row t a template = record (template_defaults template) { id = insert_id t a template.id }

-- A save of media that reports no error has added exactly the row with its defaults and identifier, and returns it;
-- any other error than that of LastInsertId leaves the table as it was, and that one leaves the row in it.
pub save_media_outcome :
    (year_day : ℤ → ℤ) (t : DbType) (a : Answers) (now : ℤ) (rows : List Media) (media : Media)
    → OneRow rows (media_row year_day t a now media) (save_media year_day t a now rows media)
unfolding save_media media_defaults
save_media_outcome year_day t a now rows media = ground arith

-- A save of a template that reports no error has added exactly the row with its default and identifier, and returns it;
-- any other error than that of LastInsertId leaves the table as it was, and that one leaves the row in it.
pub save_template_outcome :
    (t : DbType) (a : Answers) (rows : List Template) (template : Template)
    → OneRow rows (template_row t a template) (save_template t a rows template)
unfolding save_template template_defaults
save_template_outcome t a rows template = ground arith
