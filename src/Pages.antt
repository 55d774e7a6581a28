-- ===== src/Pages.antt =====
-- A page and its revisions: saveEditedFile and what it calls in pkg/webserver/functions.go. The random
-- suffixes, the times, SHA-256 and the answers of the file system enter as arguments. A directory's entries
-- stand in the order in which they were made; os.ReadDir sorts them by name, and loadRevisions by number.
pub mod Names
pub mod Json
pub mod Shared
pub mod Titles
pub mod Numbers
pub mod Outcome
pub mod History
mod Tests
use sitebrush_v.Prelude.{
  ℕ, zero, suc, ◌+◌, Bool, true, false, not, ◌&&◌, ◌||◌, List, [], ◌∷◌, ◌++◌, Option, none, some,
  if◌then◌else◌, ◌==◌,
}
use sitebrush_v.Prelude.Int.{ℤ, pos, suc_ℤ, ltb_ℤ}
use sitebrush_v.Text.{Text, codes, text_eq, is_empty, decimal_ℤ}
use sitebrush_v.Files.{Write, written, atomic_write_file}
use sitebrush_v.Data.{Post}
use sitebrush_v.Database.Sql.{DbType, Answers}
use sitebrush_v.Database.Posts.{save_post}
use sitebrush_v.Pages.Json.{as_utf8}
use sitebrush_v.Pages.Titles.{title_from_request_uri}

-- revisionRecord
pub record RevisionRecord : Type 0 where
  pub revision : ℤ
  pub request_uri : Text
  pub path : Text
  pub created_at : ℤ
  pub before_content : Text
  pub after_content : Text
  pub checksum : Text
  pub db_revision_warning : Text

-- What json.Unmarshal reads of what json.MarshalIndent wrote.
abbrev pub json_record : RevisionRecord → RevisionRecord
json_record r = record {
  revision = r.revision;
  request_uri = as_utf8 r.request_uri;
  path = as_utf8 r.path;
  created_at = r.created_at;
  before_content = as_utf8 r.before_content;
  after_content = as_utf8 r.after_content;
  checksum = as_utf8 r.checksum;
  db_revision_warning = as_utf8 r.db_revision_warning;
}

-- One entry of a page's revision directory. `content` is `none` where reading or decoding it fails.
pub record Entry : Type 0 where
  pub name : Text
  pub is_dir : Bool
  pub content : Option RevisionRecord

-- A page's file, its revision directory, and the table of posts.
pub record Page : Type 0 where
  pub body : Option Text
  pub entries : List Entry
  pub posts : List Post

-- strings.HasSuffix(name, ".json")
unfoldable pub is_json : Text → Bool
is_json [] = false
is_json (c ∷ s) = text_eq (c ∷ s) (codes ".json") || is_json s

-- The loop of loadRevisions: the first entry that cannot be read ends it.
unfoldable pub read_entries : List Entry → Option (List RevisionRecord)
unfolding is_json
read_entries [] = some []
read_entries (e ∷ es) =
    let rest = read_entries es in
    if e.is_dir || not (is_json e.name) then rest else elim e.content [
      | none ↦ none
      | some r ↦ elim rest [ none ↦ none | some rs ↦ some (r ∷ rs) ]
    ]

-- sort.Slice by the number, for distinct numbers; equal numbers keep their order here.
unfoldable pub insert_revision : RevisionRecord → List RevisionRecord → List RevisionRecord
insert_revision r [] = r ∷ []
insert_revision r (s ∷ rs) =
    let rest = insert_revision r rs in if ltb_ℤ s.revision r.revision then s ∷ rest else r ∷ s ∷ rs

unfoldable pub sort_revisions : List RevisionRecord → List RevisionRecord
unfolding insert_revision
sort_revisions [] = []
sort_revisions (r ∷ rs) = insert_revision r (sort_revisions rs)

-- loadRevisions; `lists` is whether os.ReadDir reads the directory, which may be missing.
unfoldable pub load_revisions : Bool → List Entry → Option (List RevisionRecord)
unfolding read_entries sort_revisions
load_revisions lists es =
    if lists
    then elim (read_entries es) [ none ↦ none | some rs ↦ some (sort_revisions rs) ]
    else none

-- The loop of nextRevision.
unfoldable pub max_from : ℤ → List RevisionRecord → ℤ
max_from m [] = m
max_from m (r ∷ rs) = max_from (if ltb_ℤ m r.revision then r.revision else m) rs

unfoldable pub next_revision : Bool → List Entry → Option ℤ
unfolding load_revisions max_from
next_revision lists es = elim (load_revisions lists es) [
  | none ↦ none
  | some rs ↦ some (suc_ℤ (max_from (pos 0) rs))
]

-- The loop of findRevision.
unfoldable pub first_numbered : Text → List RevisionRecord → Option RevisionRecord
first_numbered revision [] = none
first_numbered revision (r ∷ rs) =
    let rest = first_numbered revision rs in
    if text_eq (decimal_ℤ r.revision) revision then some r else rest

unfoldable pub find_revision : Bool → List Entry → Text → Option RevisionRecord
unfolding load_revisions first_numbered
find_revision lists es revision = elim (load_revisions lists es) [
  | none ↦ none
  | some rs ↦ first_numbered revision rs
]

-- How the system answers one save.
pub record Answer : Type 0 where
  pub reads : Bool
  pub lists : Bool
  pub makes_dir : Bool
  pub suffix : ℕ → Option Text
  pub reserves : ℕ → Bool
  pub closes : Bool
  pub writes_revision : Write
  pub removes : Bool
  pub writes_page : Write
  pub writes_marker : Write
  pub database : Option (DbType × Answers)
  pub now : ℤ

-- What a save is asked for: the page's URI, its new body, and the user and the domain of the request.
pub record Edit : Type 0 where
  pub request_uri : Text
  pub content : Text
  pub user_id : ℤ
  pub domain : Text

pub data EditError : Type 0 where
  unreadable_page unreadable_revisions no_revision_file page_not_written : EditError

pub data RestoreError : Type 0 where
  revision_not_found : RestoreError
  not_saved : EditError → RestoreError

unfoldable pub name_taken : Text → List Entry → Bool
name_taken name [] = false
name_taken name (e ∷ es) = text_eq e.name name || name_taken name es

abbrev pub entry : Text → Option RevisionRecord → Entry
entry name content = record { name = name; is_dir = false; content = content }

-- The file of a name gets another content: writeRevisionAtPath.
unfoldable pub rewrite : Write → Text → RevisionRecord → List Entry → List Entry
unfolding atomic_write_file
rewrite m name r [] = []
rewrite m name r (e ∷ es) =
    let rest = rewrite m name r es in
    if text_eq e.name name
    then record e { content = atomic_write_file m e.content (some (json_record r)) } ∷ rest
    else e ∷ rest

-- The post that saveDBPostRevision saves.
abbrev pub post_of : Edit → RevisionRecord → Post
post_of edit r = record {
  id = pos 0;
  owner_id = edit.user_id;
  editor_id = edit.user_id;
  deleter_id = pos 0;
  request_uri = r.request_uri;
  type = codes "Wiki";
  date = r.created_at;
  title = title_from_request_uri r.request_uri;
  body = r.after_content;
  header = [];
  summary = [];
  short_text = [];
  tags = [];
  revision = pos 0;
  domain = edit.domain;
  status = codes "active";
  published = true;
}

-- saveDBPostRevision: the table, and whether it reports no error.
unfoldable pub save_db_post_revision : Answer → Edit → RevisionRecord → List Post → List Post × Bool
unfolding save_post
save_db_post_revision w edit r posts = elim w.database [
  | none ↦ (posts, true)
  | some (t, a) ↦
      let (table, saved) = save_post t a posts (post_of edit r) in
      (table, elim saved.error [ none ↦ true | some _ ↦ false ])
]

-- The record that saveEditedFile makes.
abbrev pub record_of : (Text → Text) → Answer → Edit → Text → ℤ → RevisionRecord
record_of checksum w edit old revision = record {
  revision = revision;
  request_uri = edit.request_uri;
  path = edit.request_uri;
  created_at = w.now;
  before_content = old;
  after_content = edit.content;
  checksum = checksum edit.content;
  db_revision_warning = [];
}

-- The content of the page's file; a missing file is empty.
abbrev pub old_content : Option Text → Text
old_content none = []
old_content (some s) = s

-- From the page's file on: the file, then the post, then the warning if the post was not saved.
unfoldable pub publish :
    (Text → Text)
    → Answer
    → Edit
    → RevisionRecord
    → Text
    → List Entry
    → Page
    → Page × Option EditError
unfolding atomic_write_file save_db_post_revision rewrite
publish warning w edit r name es page =
    let body = atomic_write_file w.writes_page page.body (some edit.content) in
    let (posts, saved) = save_db_post_revision w edit r page.posts in
    if not (written w.writes_page)
    then (record { body = body; entries = es; posts = page.posts }, some page_not_written)
    else if saved
    then (record { body = body; entries = es; posts = posts }, none)
    else (
      record {
        body = body;
        entries =
            rewrite w.writes_marker name (record r { db_revision_warning = warning r.request_uri })
              es;
        posts = posts;
      },
      none,
    )

module _ (file_name : ℤ → ℤ → Text → Text) where
  -- The loop of writeRevision up to the file that it reserves, for the rounds that are left.
  unfoldable pub reserve : Answer → RevisionRecord → List Entry → ℕ → ℕ → Option Text
  unfolding name_taken
  reserve w r es zero attempt = none
  reserve w r es (suc left) attempt =
      let later = reserve w r es left (attempt + 1) in
      elim (w.suffix attempt) [
        | none ↦ none
        | some suffix ↦
            let name = file_name r.revision r.created_at suffix in
            if name_taken name es then later else if w.reserves attempt then some name else none
      ]

  -- writeRevision: the directory, and the name of the new file.
  unfoldable pub write_revision : Answer → RevisionRecord → List Entry → List Entry × Option Text
  unfolding reserve atomic_write_file
  write_revision w r es = if not w.makes_dir then (es, none) else elim (reserve w r es 16 0) [
    | none ↦ (es, none)
    | some name ↦
        if not w.closes
        then ((if w.removes then es else es ++ entry name none ∷ []), none)
        else if written w.writes_revision
        then (es ++ entry name (some (json_record r)) ∷ [], some name)
        else (
          (if w.removes
              then es
              else es
                ++ entry name (atomic_write_file w.writes_revision none (some (json_record r)))
                  ∷ []),
          none,
        )
  ]

  -- saveEditedFile, under the page's lock, for a file that has a URI; for one without it returns before all else.
  unfoldable pub save_edited_file :
      (Text → Text) → (Text → Text) → Answer → Edit → Page → Page × Option EditError
  unfolding next_revision write_revision publish
  save_edited_file checksum warning w edit page =
      if not w.reads
      then (page, some unreadable_page)
      else elim (next_revision w.lists page.entries) [
        | none ↦ (page, some unreadable_revisions)
        | some revision ↦
            let r = record_of checksum w edit (old_content page.body) revision in
            let (es, name) = write_revision w r page.entries in
            elim name [
              | none ↦ (record page { entries = es }, some no_revision_file)
              | some n ↦ publish warning w edit r n es page
            ]
      ]

  -- The saves of a page one after the other, in the order in which they get its lock.
  unfoldable pub save_all : (Text → Text) → (Text → Text) → List (Answer × Edit) → Page → Page
  unfolding save_edited_file
  save_all checksum warning [] page = page
  save_all checksum warning ((w, edit) ∷ saves) page =
      save_all checksum warning saves (save_edited_file checksum warning w edit page).0

  -- The POST branch of revisions, from findRevision on: `lists` is its own os.ReadDir.
  unfoldable pub restore_revision :
      (Text → Text)
      → (Text → Text)
      → Bool
      → Text
      → Answer
      → Edit
      → Page
      → Page × Option RestoreError
  unfolding find_revision save_edited_file
  restore_revision checksum warning lists revision w edit page =
      elim (find_revision lists page.entries revision) [
        | none ↦ (page, some revision_not_found)
        | some r ↦
            let (after, error) =
              save_edited_file checksum warning w (record edit { content = r.after_content })
                page in
            (after, elim error [ none ↦ none | some e ↦ some (not_saved e) ])
      ]
