-- ===== src/Database/Posts/Gapless.antt =====
-- The revision numbers of the rows that a process saves.
use sitebrush_v.Prelude.{
  ℕ, zero, suc, ◌≡◌, refl, ap, ◌∙◌, true, List, [], ◌∷◌, ◌++◌, Option, none, some, if◌then◌else◌,
  arith, inl, inr, Bool-cases, All, All-append, append-nil, ap₂, ◌≤◌,
}
use sitebrush_v.Prelude.Int.{ℤ, pos, ltb_ℤ}
use sitebrush_v.Text.{Text, text_eq_iff}
use sitebrush_v.Data.{Post}
use sitebrush_v.Database.Sql.{DbType, Answers}
use sitebrush_v.Database.Posts.{
  on_page, join_max, coalesce_next, max_revision, next_revision, save_post, save_all,
}
use sitebrush_v.Database.Posts.Numbering.{saved_row, save_post_outcome}

-- The revision numbers of a page, in the order of the rows.
abbrev pub revisions : Text → Text → List Post → List ℤ
revisions uri domain [] = []
revisions uri domain (row ∷ rows) =
    let rest = revisions uri domain rows in
    if on_page uri domain row then row.revision ∷ rest else rest

-- 1, 2, …, k
abbrev pub numbered : ℕ → List ℤ
numbered zero = []
numbered (suc k) = numbered k ++ pos (suc k) ∷ []

revisions-append :
    (uri domain : Text) (rows more : List Post)
    → revisions uri domain (rows ++ more) ≡ revisions uri domain rows ++ revisions uri domain more
revisions-append uri domain [] more = refl
revisions-append uri domain (row ∷ rows) more =
    ground (arith, revisions-append uri domain rows more)

abbrev max_of : List ℤ → Option ℤ
max_of [] = none
max_of (r ∷ rs) = join_max r (max_of rs)

max_revision-max_of :
    (uri domain : Text) (rows : List Post)
    → max_revision uri domain rows ≡ max_of (revisions uri domain rows)
unfolding max_revision
max_revision-max_of uri domain [] = refl
max_revision-max_of uri domain (row ∷ rows) = ground (arith, max_revision-max_of uri domain rows)

max_of-last :
    (rs : List ℤ) (r : ℤ) → All (λ x. ltb_ℤ x r ≡ true) rs → max_of (rs ++ r ∷ []) ≡ some r
max_of-last [] r h = refl
max_of-last (x ∷ rs) r h = rw (max_of-last rs r h.1) (rw (h.0))

numbered-below : (k m : ℕ) → k ≤ m → All (λ x. ltb_ℤ x (pos (suc m)) ≡ true) (numbered k)
numbered-below zero m h = tt
numbered-below (suc k) m h =
    All-append (λ x. ltb_ℤ x (pos (suc m)) ≡ true) (numbered k) (pos (suc k) ∷ [])
      (numbered-below k m (omega arith)) (ground arith, tt)

next-numbered : (k : ℕ) → coalesce_next (max_of (numbered k)) ≡ pos (suc k)
next-numbered zero = refl
next-numbered (suc k) =
    rw (max_of-last (numbered k) (pos (suc k)) (numbered-below k k (omega arith)))

next_revision-numbered :
    (uri domain : Text) (rows : List Post) (k : ℕ)
    → revisions uri domain rows ≡ numbered k
    → next_revision uri domain rows ≡ pos (suc k)
unfolding next_revision
next_revision-numbered uri domain rows k h =
    ap coalesce_next (max_revision-max_of uri domain rows ∙ ap max_of h) ∙ next-numbered k

-- Every page's rows are numbered 1, 2, …
abbrev IsGapless : List Post → Type 0
IsGapless rows = (uri domain : Text) → (k : ℕ) × (revisions uri domain rows ≡ numbered k)

on_page-eq :
    (uri domain : Text) (row : Post)
    → on_page uri domain row ≡ true
    → (row.request_uri ≡ uri) × (row.domain ≡ domain)
unfolding on_page
on_page-eq uri domain row h =
    ground (arith, text_eq_iff row.request_uri uri, text_eq_iff row.domain domain)

add-IsGapless :
    (t : DbType) (a : Answers) (rows : List Post) (post : Post)
    → IsGapless rows
    → IsGapless (rows ++ saved_row t a rows post ∷ [])
add-IsGapless t a rows post gapless uri domain = elim (Bool-cases (on_page uri domain row)) [
  | inr e ↦ (k, revisions-append uri domain rows (row ∷ []) ∙ rw e (rw append-nil h))
  | inl e ↦ (
    suc k,
    revisions-append uri domain rows (row ∷ [])
        ∙ rw (e, h) (ap (λ r. numbered k ++ r ∷ []) (numbered_next e)),
  )
]
  where
    row : Post
    row = saved_row t a rows post

    k : ℕ
    k = (gapless uri domain).0

    h : revisions uri domain rows ≡ numbered k
    h = (gapless uri domain).1

    numbered_next : on_page uri domain row ≡ true → row.revision ≡ pos (suc k)
    numbered_next e =
        let (u, d) = on_page-eq uri domain row e in
        ap₂ (λ u d. next_revision u d rows) u d ∙ next_revision-numbered uri domain rows k h

save_all-IsGapless :
    (t : DbType) (rows : List Post) (saves : List (Answers × Post))
    → IsGapless rows
    → IsGapless (save_all t rows saves)
unfolding save_all
save_all-IsGapless t rows [] h = h
save_all-IsGapless t rows ((a, post) ∷ saves) h =
    save_all-IsGapless t (save_post t a rows post).0 saves (elim (save_post_outcome t a rows post) [
      | inl (ok, added, returned) ↦ rw added (add-IsGapless t a rows post h)
      | inr (error, same) ↦ rw same h
    ])

-- From an empty table, whatever is saved and whichever saves fail, the rows of every page are numbered
-- 1, 2, …, k in the order in which they were saved: no number is used twice and none is skipped.
pub revisions-save_all :
    (t : DbType) (saves : List (Answers × Post)) (uri domain : Text)
    → (k : ℕ) × (revisions uri domain (save_all t [] saves) ≡ numbered k)
revisions-save_all t saves uri domain = save_all-IsGapless t [] saves (λ u d. (0, refl)) uri domain
