-- ===== src/Database/Posts/Numbering.antt =====
-- The revision numbers of a page are fresh, in order, and without a gap.
use sitebrush_v.Prelude.{
  ◌≡◌, ◌≢◌, ◌⊎◌, sym, Bool, true, false, not, List, [], ◌∷◌, ◌++◌, Option, none, some, arith, inl,
  inr, Bool-cases, All, subst, All-imp, ◌||◌,
}
use sitebrush_v.Prelude.Int.{ℤ, suc_ℤ, ltb_ℤ, ltb_ℤ-suc, ltb_ℤ-max_left, ltb_ℤ-max_right}
use sitebrush_v.Text.{Text}
use sitebrush_v.Data.{Post}
use sitebrush_v.Database.Sql.{DbType, Answers, insert_id}
use sitebrush_v.Database.Posts.{
  on_page, join_max, coalesce_next, max_revision, next_revision, insert_post, save_post,
}

-- The row that a successful save of `post` adds.
abbrev pub saved_row : DbType → Answers → List Post → Post → Post
saved_row t a rows post = record post {
  id = insert_id t a post.id;
  revision = next_revision post.request_uri post.domain rows;
}

-- A save that reports no error has added exactly one row behind the others, the post with its
-- identifier and the next revision number of its page, and returns that row; a save that reports an
-- error has left the table as it was.
pub save_post_outcome :
    (t : DbType) (a : Answers) (rows : List Post) (post : Post)
    → (((save_post t a rows post).1.error ≡ none)
        × ((save_post t a rows post).0 ≡ rows ++ saved_row t a rows post ∷ [])
        × ((save_post t a rows post).1.post ≡ saved_row t a rows post))
      ⊎ (((save_post t a rows post).1.error ≢ none) × ((save_post t a rows post).0 ≡ rows))
unfolding save_post insert_post
save_post_outcome t a rows post = ground arith

-- With every call answered the save succeeds.
pub save_post_succeeds :
    (t : DbType) (a : Answers) (rows : List Post) (post : Post)
    → a.connected ≡ true
    → a.begins ≡ true
    → a.selects ≡ true
    → a.draws ≡ true
    → a.inserts ≡ true
    → a.reports_id ≡ true
    → a.commits ≡ true
    → (save_post t a rows post).1.error ≡ none
unfolding save_post insert_post
save_post_succeeds t a rows post c b s d i r k = ground arith

-- A row that is on another page, or whose number is below that of a page whose largest is the given one.
abbrev below : Text → Text → Option ℤ → Post → Bool
below uri domain none row = not (on_page uri domain row)
below uri domain (some m) row = not (on_page uri domain row) || ltb_ℤ row.revision (suc_ℤ m)

below_more :
    (uri domain : Text) (r : ℤ) (o : Option ℤ) (row : Post)
    → below uri domain o row ≡ true
    → below uri domain (join_max r o) row ≡ true
below_more uri domain r none row h = ground arith
below_more uri domain r (some m) row h = ground (arith, ltb_ℤ-max_right row.revision r m)

below_own :
    (uri domain : Text) (o : Option ℤ) (row : Post)
    → below uri domain (join_max row.revision o) row ≡ true
below_own uri domain none row = ground (arith, ltb_ℤ-suc row.revision)
below_own uri domain (some m) row =
    ground (arith, ltb_ℤ-max_left row.revision row.revision m, ltb_ℤ-suc row.revision)

max_revision_on :
    (uri domain : Text) (row : Post) (rows : List Post)
    → on_page uri domain row ≡ true
    → max_revision uri domain (row ∷ rows) ≡ join_max row.revision (max_revision uri domain rows)
unfolding max_revision
max_revision_on uri domain row rows e = rw e

max_revision_off :
    (uri domain : Text) (row : Post) (rows : List Post)
    → on_page uri domain row ≡ false
    → max_revision uri domain (row ∷ rows) ≡ max_revision uri domain rows
unfolding max_revision
max_revision_off uri domain row rows e = rw e

below_other :
    (uri domain : Text) (row : Post) (o : Option ℤ)
    → on_page uri domain row ≡ false
    → below uri domain o row ≡ true
below_other uri domain row none h = rw h
below_other uri domain row (some m) h = rw h

abbrev AllBelow : Text → Text → Option ℤ → List Post → Type 0
AllBelow uri domain o = All (λ row. below uri domain o row ≡ true)

max_revision-below :
    (uri domain : Text) (rows : List Post) → AllBelow uri domain (max_revision uri domain rows) rows
max_revision-below uri domain [] = tt
max_revision-below uri domain (row ∷ rows) = elim (Bool-cases (on_page uri domain row)) [
  | inl e ↦
      subst (λ o. AllBelow uri domain o (row ∷ rows)) (sym (max_revision_on uri domain row rows e))
        (
          below_own uri domain (max_revision uri domain rows) row,
          All-imp (below_more uri domain row.revision (max_revision uri domain rows)) rows
              (max_revision-below uri domain rows),
        )
  | inr e ↦
      subst (λ o. AllBelow uri domain o (row ∷ rows)) (sym (max_revision_off uri domain row rows e))
        (
          below_other uri domain row (max_revision uri domain rows) e,
          max_revision-below uri domain rows,
        )
]

below-next :
    (uri domain : Text) (o : Option ℤ) (row : Post)
    → below uri domain o row ≡ true
    → (not (on_page uri domain row) || ltb_ℤ row.revision (coalesce_next o)) ≡ true
below-next uri domain none row h = ground arith
below-next uri domain (some m) row h = h

-- The next revision number of a page is above the number of every row of that page, whatever the
-- table holds.
pub next_revision-fresh :
    (uri domain : Text) (rows : List Post)
    → All
        (λ row.
          (not (on_page uri domain row) || ltb_ℤ row.revision (next_revision uri domain rows))
          ≡ true)
        rows
unfolding next_revision
next_revision-fresh uri domain rows =
    All-imp (below-next uri domain (max_revision uri domain rows)) rows
      (max_revision-below uri domain rows)
