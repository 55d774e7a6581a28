-- ===== src/Pages/History.antt =====
-- The history of a page that saveEditedFile of pkg/webserver/functions.go keeps, and restoring from it.
use sitebrush_v.Prelude.{
  ◌≡◌, refl, sym, ap, subst, ◌∙◌, Bool, true, false, List, [], ◌∷◌, ◌++◌, append_assoc, append-nil,
  none, some, arith, inl, inr, Bool-cases, Option-cases, All,
}
use sitebrush_v.Prelude.Int.{ℤ, pos, suc_ℤ, ltb_ℤ, ltb_ℤ-suc}
use sitebrush_v.Text.{Text, decimal_ℤ}
use sitebrush_v.Files.{written}
use sitebrush_v.Pages.{
  RevisionRecord, json_record, Page, Answer, Edit, EditError, is_json, read_entries, sort_revisions,
  max_from, load_revisions, next_revision, find_revision, entry, name_taken, reserve,
  write_revision, publish, old_content, save_edited_file, save_all, restore_revision,
  save_db_post_revision,
}
use sitebrush_v.Pages.Json.{as_utf8}
use sitebrush_v.Pages.Numbers.{
  Ascending, last_from, max_from-Ascending, Ascending-append, sort-Ascending, read_entries-append,
  first_numbered-Ascending,
}
use sitebrush_v.Pages.Outcome.{
  IsSaved, IsFailed, kept_record, made, save_edited_file-IsSaved, save_edited_file-IsFailed, after,
  error,
}

-- Every entry of the directory can be read, and the records in it have ascending numbers from 1 on.
abbrev pub Holds : Page → List RevisionRecord → Type 0
Holds page rs = (read_entries page.entries ≡ some rs) × Ascending (pos 0) rs

next_above :
    (lists : Bool) (page : Page) (rs : List RevisionRecord) (number : ℤ)
    → Holds page rs
    → next_revision lists page.entries ≡ some number
    → ltb_ℤ (last_from (pos 0) rs) number ≡ true
unfolding next_revision load_revisions
next_above lists page rs number (reads, up) h = ground (
  arith,
  reads,
  sort-Ascending (pos 0) rs up,
  max_from-Ascending (pos 0) rs up,
  ltb_ℤ-suc (last_from (pos 0) rs),
)

Holds-append :
    (page page' : Page) (rs : List RevisionRecord) (name : Text) (r : RevisionRecord)
    → Holds page rs
    → page'.entries ≡ page.entries ++ entry name (some r) ∷ []
    → is_json name ≡ true
    → ltb_ℤ (last_from (pos 0) rs) r.revision ≡ true
    → Holds page' (rs ++ r ∷ [])
Holds-append page page' rs name r (reads, up) e json above = (
  ap read_entries e
      ∙ read_entries-append page.entries (entry name (some r)) rs r reads refl json refl,
  Ascending-append (pos 0) rs r up above,
)

find_revision-Holds :
    (page : Page) (before : List RevisionRecord) (r : RevisionRecord) (after : List RevisionRecord)
    → Holds page (before ++ r ∷ after)
    → find_revision true page.entries (decimal_ℤ r.revision) ≡ some r
unfolding find_revision load_revisions
find_revision-Holds page before r after (reads, up) = ground (
  arith,
  reads,
  sort-Ascending (pos 0) (before ++ r ∷ after) up,
  first_numbered-Ascending 0 before r after up,
)

module _ (file_name : ℤ → ℤ → Text → Text)
    (json : (number time : ℤ) (suffix : Text) → is_json (file_name number time suffix) ≡ true)
    (checksum warning : Text → Text) where
  -- The records after a save are those before it, and more.
  abbrev Extends : Page → List RevisionRecord → Type 0
  Extends page rs = (more : List RevisionRecord) × Holds page (rs ++ more)

  Extends-none :
      (page page' : Page) (rs : List RevisionRecord)
      → Holds page rs
      → page'.entries ≡ page.entries
      → Extends page' rs
  Extends-none page page' rs (reads, up) e = (
    [],
    (
      ap read_entries e ∙ reads ∙ ap some (sym (append-nil rs)),
      subst (Ascending (pos 0)) (sym (append-nil rs)) up,
    ),
  )

  kept_number :
      (w : Answer) (edit : Edit) (page : Page) (number : ℤ)
      → (kept_record file_name checksum warning w edit page
          (made file_name checksum warning w edit page number)).revision
        ≡ number
  kept_number w edit page number = ground arith

  -- A save that reports no error adds its record.
  saved-Holds :
      (w : Answer) (edit : Edit) (page : Page) (rs : List RevisionRecord)
      (saved : IsSaved file_name checksum warning w edit page)
      → Holds page rs
      → Holds (after file_name checksum warning w edit page) (
          rs
          ++ kept_record file_name checksum warning w edit page
              (made file_name checksum warning w edit page saved.number)
            ∷ [])
  saved-Holds w edit page rs saved h =
      let r =
        kept_record file_name checksum warning w edit page
          (made file_name checksum warning w edit page saved.number) in
      Holds-append page (after file_name checksum warning w edit page) rs saved.name r h
        saved.entries
        (subst (λ n. is_json n ≡ true) (sym saved.spelled) (json saved.number w.now saved.suffix))
        (subst (λ n. ltb_ℤ (last_from (pos 0) rs) n ≡ true)
          (sym (kept_number w edit page saved.number))
          (next_above w.lists page rs saved.number h saved.next))

  failed-Extends :
      (w : Answer) (edit : Edit) (page : Page) (rs : List RevisionRecord) (e : EditError)
      (failed : IsFailed file_name checksum warning w edit page e)
      → w.removes ≡ true
      → Holds page rs
      → Extends (after file_name checksum warning w edit page) rs
  failed-Extends w edit page rs e failed v h = elim (failed.entries) [
    | inl (inl same) ↦ Extends-none page (after file_name checksum warning w edit page) rs h same
    | inl (inr (name, content, left, stays)) ↦ absurd (ground (arith, v, stays))
    | inr (number, name, suffix, written_not, next, spelled, es) ↦
        let r = json_record (made file_name checksum warning w edit page number) in
        (
          r ∷ [],
          Holds-append page (after file_name checksum warning w edit page) rs name r h es
              (subst (λ n. is_json n ≡ true) (sym spelled) (json number w.now suffix))
              (next_above w.lists page rs number h next),
        )
  ]

  -- A save only adds to the history of its page, for file names that end in ".json" and a system that removes what it
  -- is told to: the directory can still be read, the records before are still there, and the numbers still ascend.
  pub save_edited_file-Holds :
      (w : Answer) (edit : Edit) (page : Page) (rs : List RevisionRecord)
      → w.removes ≡ true
      → Holds page rs
      → (more : List RevisionRecord) × Holds
          (save_edited_file file_name checksum warning w edit page).0
          (rs ++ more)
  save_edited_file-Holds w edit page rs v h =
      elim (Option-cases (error file_name checksum warning w edit page)) [
        | inl e ↦
            let saved = save_edited_file-IsSaved file_name checksum warning w edit page e in
            (
              kept_record file_name checksum warning w edit page
                    (made file_name checksum warning w edit page saved.number)
                  ∷ [],
              saved-Holds w edit page rs saved h,
            )
        | inr (e, f) ↦
            failed-Extends w edit page rs e
              (save_edited_file-IsFailed file_name checksum warning w edit page e f) v h
      ]

  abbrev pub Removes : List (Answer × Edit) → Type 0
  Removes = All (λ (save : Answer × Edit). save.0.removes ≡ true)

  pub save_all-Holds :
      (saves : List (Answer × Edit)) (page : Page) (rs : List RevisionRecord)
      → Removes saves
      → Holds page rs
      → (more : List RevisionRecord) × Holds
          (save_all file_name checksum warning saves page)
          (rs ++ more)
  unfolding save_all
  save_all-Holds [] page rs v h = Extends-none page page rs h refl
  save_all-Holds ((w, edit) ∷ saves) page rs v h =
      let (more, k) = save_edited_file-Holds w edit page rs v.0 h in
      let (later, l) =
        save_all-Holds saves (save_edited_file file_name checksum warning w edit page).0
          (rs ++ more) v.1 k in
      (
        more ++ later,
        subst
            (Holds (
              save_all file_name checksum warning saves
                (save_edited_file file_name checksum warning w edit page).0))
            (append_assoc rs more later) l,
      )

  -- The record of a save is found under its number, after any further saves.
  find_revision-save_all :
      (w : Answer) (edit : Edit) (page : Page) (rs : List RevisionRecord)
      (later : List (Answer × Edit)) (saved : IsSaved file_name checksum warning w edit page)
      → Holds page rs
      → Removes later
      → (r : RevisionRecord) × (find_revision true
            (save_all file_name checksum warning later
              (save_edited_file file_name checksum warning w edit page).0).entries
            (decimal_ℤ saved.number)
          ≡ some r)
        × (r.after_content ≡ as_utf8 edit.content)
        × (r.before_content ≡ as_utf8 (old_content page.body))
  find_revision-save_all w edit page rs later saved h v =
      let r =
        kept_record file_name checksum warning w edit page
          (made file_name checksum warning w edit page saved.number) in
      let page' = (save_edited_file file_name checksum warning w edit page).0 in
      let (more, k) =
        save_all-Holds later page' (rs ++ r ∷ []) v (saved-Holds w edit page rs saved h) in
      let last = save_all file_name checksum warning later page' in
      let found =
        find_revision-Holds last rs r more (subst (Holds last) (append_assoc rs (r ∷ []) more) k) in
      (
        r,
        subst (λ n. find_revision true last.entries (decimal_ℤ n) ≡ some r)
            (kept_number w edit page saved.number) found,
        ground arith,
        ground arith,
      )

  -- A system that does all that a save asks for, with a name for the revision that is not taken.
  pub record Works (w : Answer) (page : Page) : Type 0 where
    pub reads : w.reads ≡ true
    pub lists : w.lists ≡ true
    pub makes_dir : w.makes_dir ≡ true
    pub suffix : Text
    pub draws : w.suffix 0 ≡ some suffix
    pub fresh : (number : ℤ) → name_taken (file_name number w.now suffix) page.entries ≡ false
    pub reserves : w.reserves 0 ≡ true
    pub closes : w.closes ≡ true
    pub revision_written : written w.writes_revision ≡ true
    pub page_written : written w.writes_page ≡ true

  save_edited_file-Works :
      (w : Answer) (edit : Edit) (page : Page) (rs : List RevisionRecord)
      → Holds page rs
      → Works w page
      → (save_edited_file file_name checksum warning w edit page).1 ≡ none
  unfolding save_edited_file next_revision load_revisions write_revision reserve publish
  save_edited_file-Works w edit page rs (reads, up) k =
      let number = suc_ℤ (max_from (pos 0) (sort_revisions rs)) in
      elim (Bool-cases
        (save_db_post_revision w edit (made file_name checksum warning w edit page number)
          page.posts).1) [
            | inl s ↦ ground (
              arith,
              reads,
              k.reads,
              k.lists,
              k.makes_dir,
              k.draws,
              k.fresh number,
              k.reserves,
              k.closes,
              k.revision_written,
              k.page_written,
              s,
            )
            | inr s ↦ ground (
              arith,
              reads,
              k.reads,
              k.lists,
              k.makes_dir,
              k.draws,
              k.fresh number,
              k.reserves,
              k.closes,
              k.revision_written,
              k.page_written,
              s,
            )
          ]

  restored :
      (w : Answer) (edit : Edit) (page : Page) (rs : List RevisionRecord) (revision : Text)
      (r : RevisionRecord)
      → Holds page rs
      → find_revision true page.entries revision ≡ some r
      → Works w page
      → ((restore_revision file_name checksum warning true revision w edit page).1 ≡ none)
        × ((restore_revision file_name checksum warning true revision w edit page).0.body
            ≡ some r.after_content)
  unfolding restore_revision
  restored w edit page rs revision r h found k =
      let again = record edit { content = r.after_content } in
      let saved = save_edited_file-Works w again page rs h k in
      let shown = (save_edited_file-IsSaved file_name checksum warning w again page saved).body in
      (ground (arith, found, saved), ground (arith, found, saved, shown))

  -- Any body that was saved without an error can be brought back by its revision number: after any further saves,
  -- restoring that number reports no error and the page has that body again, with U+FFFD for each byte that is not part of
  -- valid UTF-8. The history of the page could be read
  -- when the body was saved, the further saves had a system that removes what it is told to, and the system does all
  -- that the restoring asks for.
  pub restore_revision-save_edited_file :
      (w again : Answer) (edit who : Edit) (page : Page) (rs : List RevisionRecord) (number : ℤ)
      (later : List (Answer × Edit))
      → Holds page rs
      → next_revision w.lists page.entries ≡ some number
      → (save_edited_file file_name checksum warning w edit page).1 ≡ none
      → Removes later
      → Works again (
          save_all file_name checksum warning later
            (save_edited_file file_name checksum warning w edit page).0)
      → ((restore_revision file_name checksum warning true (decimal_ℤ number) again who (
            save_all file_name checksum warning later
              (save_edited_file file_name checksum warning w edit page).0)).1
          ≡ none)
        × ((restore_revision file_name checksum warning true (decimal_ℤ number) again who (
              save_all file_name checksum warning later
                (save_edited_file file_name checksum warning w edit page).0)).0.body
            ≡ some (as_utf8 edit.content))
  restore_revision-save_edited_file w again edit who page rs number later h next e v k =
      let saved = save_edited_file-IsSaved file_name checksum warning w edit page e in
      let page' = (save_edited_file file_name checksum warning w edit page).0 in
      let last = save_all file_name checksum warning later page' in
      let (r, found, after_content, before_content) =
        find_revision-save_all w edit page rs later saved h v in
      let same : saved.number ≡ number = ground (arith, saved.next, next) in
      let (more, held) =
        save_all-Holds later page'
          (rs
            ++ kept_record file_name checksum warning w edit page
                (made file_name checksum warning w edit page saved.number)
              ∷ [])
          v (saved-Holds w edit page rs saved h) in
      let (fine, body) =
        restored again who last _ (decimal_ℤ number) r held
          (subst (λ n. find_revision true last.entries (decimal_ℤ n) ≡ some r) same found) k in
      (fine, body ∙ ap some after_content)
