-- ===== src/Pages/Outcome.antt =====
-- What saveEditedFile of pkg/webserver/functions.go leaves behind, on every path through it.
use sitebrush_v.Prelude.{
  ℕ, zero, suc, ◌+◌, ◌≡◌, ◌⊎◌, sym, ap, subst, ◌∙◌, true, false, List, [], ◌∷◌, ◌++◌, Option, none,
  some, arith, inl, inr, Bool-cases, Option-cases, if◌then◌else◌,
}
use sitebrush_v.Prelude.Int.{ℤ}
use sitebrush_v.Text.{Text, text_eq_self}
use sitebrush_v.Files.{Write, unsynced, atomic_write_file}
use sitebrush_v.Pages.{
  RevisionRecord, json_record, Entry, Page, Answer, Edit, EditError, page_not_written, name_taken,
  reserve, entry, write_revision, rewrite, save_db_post_revision, record_of, publish, old_content,
  save_edited_file, next_revision,
}

module _ (file_name : ℤ → ℤ → Text → Text) where
  reserve-untaken :
      (w : Answer) (r : RevisionRecord) (es : List Entry) (left attempt : ℕ) (name : Text)
      → reserve file_name w r es left attempt ≡ some name
      → (name_taken name es ≡ false)
        × ((suffix : Text) × (name ≡ file_name r.revision r.created_at suffix))
  unfolding reserve
  reserve-untaken w r es zero attempt name h = absurd (ground arith)
  reserve-untaken w r es (suc left) attempt name h = elim (Option-cases (w.suffix attempt)) [
    | inl e ↦ absurd (ground arith)
    | inr (suffix, e) ↦
        elim (Bool-cases (name_taken (file_name r.revision r.created_at suffix) es)) [
          | inl t ↦ reserve-untaken w r es left (attempt + 1) name (ground arith)
          | inr t ↦
              let same : file_name r.revision r.created_at suffix ≡ name = ground arith in
              (subst (λ n. name_taken n es ≡ false) same t, (suffix, sym same))
        ]
  ]

  rewrite_last :
      (m : Write) (name : Text) (r s : RevisionRecord) (es : List Entry)
      → name_taken name es ≡ false
      → rewrite m name s (es ++ entry name (some r) ∷ [])
        ≡ es ++ entry name (atomic_write_file m (some r) (some (json_record s))) ∷ []
  unfolding rewrite name_taken atomic_write_file
  rewrite_last m name r s [] h = ground (arith, text_eq_self name)
  rewrite_last m name r s (e ∷ es) h = ground (arith, rewrite_last m name r s es)

  -- What writeRevision leaves when it fails: nothing, if the file it reserved is removed again.
  abbrev pub LeftOver : Answer → List Entry → List Entry → Type 0
  LeftOver w es es' =
      (es' ≡ es)
      ⊎ ((name : Text) × (content : Option RevisionRecord) × (es' ≡ es ++ entry name content ∷ [])
          × (w.removes ≡ false))

  write_revision-none :
      (w : Answer) (r : RevisionRecord) (es : List Entry)
      → (write_revision file_name w r es).1 ≡ none
      → LeftOver w es (write_revision file_name w r es).0
  unfolding write_revision
  write_revision-none w r es h = elim (Bool-cases w.makes_dir) [
    | inr m ↦ inl (ground arith)
    | inl m ↦ elim (Option-cases (reserve file_name w r es 16 0)) [
      | inl e ↦ inl (ground arith)
      | inr (name, e) ↦ elim (Bool-cases w.removes) [
        | inl v ↦ inl (ground arith)
        | inr v ↦ elim (Bool-cases w.closes) [
          | inr c ↦ inr (name, none, ground arith, v)
          | inl c ↦ inr (
            name,
            atomic_write_file w.writes_revision none (some (json_record r)),
            ground arith,
            v,
          )
        ]
      ]
    ]
  ]

  write_revision-some :
      (w : Answer) (r : RevisionRecord) (es : List Entry) (name : Text)
      → (write_revision file_name w r es).1 ≡ some name
      → ((write_revision file_name w r es).0 ≡ es ++ entry name (some (json_record r)) ∷ [])
        × (name_taken name es ≡ false)
        × ((suffix : Text) × (name ≡ file_name r.revision r.created_at suffix))
  unfolding write_revision
  write_revision-some w r es name h = elim (Option-cases (reserve file_name w r es 16 0)) [
    | inl e ↦ absurd (ground arith)
    | inr (n, e) ↦
        let same : n ≡ name = ground arith in
        let (untaken, (suffix, spelled)) = reserve-untaken w r es 16 0 n e in
        (
          ground arith,
          subst (λ n. name_taken n es ≡ false) same untaken,
          (suffix, sym same ∙ spelled),
        )
  ]

  module _ (checksum warning : Text → Text) (w : Answer) (edit : Edit) (page : Page) where
    abbrev pub after : Page
    after = (save_edited_file file_name checksum warning w edit page).0

    abbrev pub error : Option EditError
    error = (save_edited_file file_name checksum warning w edit page).1

    -- The record that the save makes, for its number.
    abbrev pub made : ℤ → RevisionRecord
    made number = record_of checksum w edit (old_content page.body) number

    -- The new record as it is read again, with the warning if the post was not saved and the warning could be written.
    abbrev pub kept_record : RevisionRecord → RevisionRecord
    kept_record r =
        if (save_db_post_revision w edit r page.posts).1
        then json_record r
        else if w.writes_marker.renames
        then json_record (record r { db_revision_warning = warning r.request_uri })
        else json_record r

    -- A save that reports no error.
    pub record IsSaved : Type 0 where
      pub number : ℤ
      pub name : Text
      pub suffix : Text
      pub next : next_revision w.lists page.entries ≡ some number
      pub spelled : name ≡ file_name number w.now suffix
      pub body : after.body ≡ some edit.content
      pub entries :
          after.entries ≡ page.entries ++ entry name (some (kept_record (made number))) ∷ []
      pub posts : after.posts ≡ (save_db_post_revision w edit (made number) page.posts).0

    saved_cases :
        error ≡ none
        → (number : ℤ) × (name : Text) × (next_revision w.lists page.entries ≡ some number)
          × ((write_revision file_name w (made number) page.entries).1 ≡ some name)
    unfolding save_edited_file
    saved_cases h = elim (Option-cases (next_revision w.lists page.entries)) [
      | inl e ↦ absurd (ground arith)
      | inr (number, e) ↦
          elim (Option-cases (write_revision file_name w (made number) page.entries).1) [
            | inl f ↦ absurd (ground arith)
            | inr (name, f) ↦ (number, name, e, f)
          ]
    ]

    publish_entries :
        (number : ℤ) (name : Text)
        → name_taken name page.entries ≡ false
        → (publish warning w edit
            (made number)
            name
            (page.entries ++ entry name (some (json_record (made number))) ∷ [])
            page).1
          ≡ none
        → (publish warning w edit
            (made number)
            name
            (page.entries ++ entry name (some (json_record (made number))) ∷ [])
            page).0.entries
          ≡ page.entries ++ entry name (some (kept_record (made number))) ∷ []
    unfolding publish atomic_write_file
    publish_entries number name untaken h =
        let r = made number in
        let rewritten =
          rewrite_last w.writes_marker name (json_record r)
            (record r { db_revision_warning = warning r.request_uri }) page.entries untaken in
        elim (Bool-cases (save_db_post_revision w edit r page.posts).1) [
          | inl v ↦ ground (arith, v)
          | inr v ↦ elim (Bool-cases w.writes_marker.renames) [
            | inl m ↦ ground (arith, v, m, rewritten)
            | inr m ↦ ground (arith, v, m, rewritten)
          ]
        ]

    published :
        (number : ℤ) (name : Text)
        → error ≡ none
        → next_revision w.lists page.entries ≡ some number
        → (write_revision file_name w (made number) page.entries).1 ≡ some name
        → save_edited_file file_name checksum warning w edit page
          ≡ publish warning w edit
              (made number)
              name
              (write_revision file_name w (made number) page.entries).0
              page
    unfolding save_edited_file
    published number name h e f = ground (arith, e, f)

    pub save_edited_file-IsSaved : error ≡ none → IsSaved
    unfolding save_edited_file publish atomic_write_file
    save_edited_file-IsSaved h =
        let (number, name, e, f) = saved_cases h in
        let (entries, untaken, (suffix, spelled)) =
          write_revision-some w (made number) page.entries name f in
        let whole =
          published number name h e f
          ∙ ap (λ es. publish warning w edit (made number) name es page) entries in
        record {
          number = number;
          name = name;
          suffix = suffix;
          next = e;
          spelled = spelled;
          body = ground (arith, e, f);
          entries =
              ap (λ r. r.0.entries) whole
              ∙ publish_entries number name untaken (sym (ap (λ r. r.1) whole) ∙ h);
          posts = ground (arith, e, f);
        }

    -- A save that reports an error.
    pub record IsFailed (e : EditError) : Type 0 where
      pub posts : after.posts ≡ page.posts
      pub body :
          (after.body ≡ page.body)
          ⊎ ((e ≡ page_not_written)
              × (unsynced w.writes_page ≡ true)
              × (after.body ≡ some edit.content))
      pub entries :
          LeftOver w page.entries after.entries
          ⊎ ((number : ℤ) × (name : Text) × (suffix : Text) × (e ≡ page_not_written)
              × (next_revision w.lists page.entries ≡ some number)
              × (name ≡ file_name number w.now suffix)
              × (after.entries
                  ≡ page.entries ++ entry name (some (json_record (made number))) ∷ []))

    IsFailed-early :
        (e : EditError)
        → after.posts ≡ page.posts
        → after.body ≡ page.body
        → LeftOver w page.entries after.entries
        → IsFailed e
    IsFailed-early e p b es = record { posts = p; body = inl b; entries = inl es }

    -- A save that reports an error has left the table of posts and the page's file as they were, but for a file that
    -- was written and whose directory was not synced. The revision directory is as it was, or has a file whose removal
    -- failed, or has the new revision, whose page was then not written.
    pub save_edited_file-IsFailed : (e : EditError) → error ≡ some e → IsFailed e
    unfolding save_edited_file publish atomic_write_file
    save_edited_file-IsFailed e h = elim (Bool-cases w.reads) [
      | inr i ↦ IsFailed-early e (ground arith) (ground arith) (inl (ground arith))
      | inl i ↦ elim (Option-cases (next_revision w.lists page.entries)) [
        | inl n ↦ IsFailed-early e (ground arith) (ground arith) (inl (ground arith))
        | inr (number, n) ↦
            elim (Option-cases (write_revision file_name w (made number) page.entries).1) [
              | inl f ↦ IsFailed-early e (ground arith) (ground arith) (
                  subst (LeftOver w page.entries)
                    {x = (write_revision file_name w (made number) page.entries).0}
                    {y = after.entries} (ground (arith, i, n, f))
                    (write_revision-none w (made number) page.entries f))
              | inr (name, f) ↦
                  let (entries, untaken, (suffix, spelled)) =
                    write_revision-some w (made number) page.entries name f in
                  record {
                    posts = ground (arith, i, n, f);
                    body = elim (Bool-cases w.writes_page.renames) [
                      | inl m ↦ inr (
                        ground (arith, i, n, f),
                        ground (arith, i, n, f, m),
                        ground (arith, i, n, f, m),
                      )
                      | inr m ↦ inl (ground (arith, i, n, f, m))
                    ];
                    entries = inr (
                      number,
                      name,
                      suffix,
                      ground (arith, i, n, f),
                      n,
                      spelled,
                      ground (arith, i, n, f, entries),
                    );
                  }
            ]
      ]
    ]
