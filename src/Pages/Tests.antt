-- ===== src/Pages/Tests.antt =====
-- Witnesses for a page with no revisions whose file names are the random suffixes with ".json", and two answers of
-- a system without a database: one that does all that is asked, one that cannot write the page.
use sitebrush_v.Prelude.{◌≡◌, refl, arith, true, false, List, [], ◌∷◌, ◌++◌, none, some}
use sitebrush_v.Prelude.Int.{ℤ, pos}
use sitebrush_v.Text.{Text, codes, text_eq, decimal_ℤ}
use sitebrush_v.Files.{Write, atomic_write_file}
use sitebrush_v.Pages.{
  RevisionRecord, Page, Answer, Edit, is_json, read_entries, insert_revision, sort_revisions,
  load_revisions, max_from, next_revision, name_taken, save_db_post_revision, publish, reserve,
  write_revision, save_edited_file, save_all, restore_revision, page_not_written,
}
use sitebrush_v.Pages.Json.{as_utf8}
use sitebrush_v.Pages.Outcome.{IsFailed, save_edited_file-IsFailed}
use sitebrush_v.Pages.History.{
  Holds, Works, save_edited_file-Holds, restore_revision-save_edited_file,
}

abbrev sample_name : ℤ → ℤ → Text → Text
sample_name number time suffix = suffix ++ codes ".json"

json_at_end : (s : Text) → is_json (s ++ codes ".json") ≡ true
unfolding is_json text_eq
json_at_end [] = refl
json_at_end (c ∷ s) = ground (arith, json_at_end s)

sample_name-is_json :
    (number time : ℤ) (suffix : Text) → is_json (sample_name number time suffix) ≡ true
sample_name-is_json number time suffix = json_at_end suffix

abbrev checksum : Text → Text
checksum s = codes "sum"

abbrev warning : Text → Text
warning uri = codes "not saved"

abbrev done : Write
done = record { renames = true; syncs = true }

abbrev full_disk : Write
full_disk = record { renames = false; syncs = false }

abbrev works_as : Text → Write → Answer
works_as suffix page = record {
  reads = true;
  lists = true;
  makes_dir = true;
  suffix = λ attempt. some suffix;
  reserves = λ attempt. true;
  closes = true;
  writes_revision = done;
  removes = true;
  writes_page = page;
  writes_marker = done;
  database = none;
  now = pos 5;
}

abbrev hello : Edit
hello = record {
  request_uri = codes "/a";
  content = codes "hello";
  user_id = pos 1;
  domain = codes "x.org";
}

abbrev bye : Edit
bye = record {
  request_uri = codes "/a";
  content = codes "bye";
  user_id = pos 1;
  domain = codes "x.org";
}

abbrev blank_page : Page
blank_page = record { body = none; entries = []; posts = [] }

blank_page-Holds : Holds blank_page []
unfolding read_entries
blank_page-Holds = (refl, tt)

sample_next : next_revision true blank_page.entries ≡ some (pos 1)
unfolding next_revision load_revisions read_entries sort_revisions max_from
sample_next = refl

sample_save :
    (save_edited_file sample_name checksum warning (works_as (codes "f") done) hello blank_page).1
    ≡ none
unfolding save_edited_file next_revision load_revisions read_entries sort_revisions max_from
    write_revision reserve name_taken publish save_db_post_revision
sample_save = refl

sample_failure :
    (save_edited_file sample_name checksum warning
      (works_as (codes "f") full_disk)
      hello
      blank_page).1
    ≡ some page_not_written
unfolding save_edited_file next_revision load_revisions read_entries sort_revisions max_from
    write_revision reserve name_taken publish save_db_post_revision
sample_failure = refl

save_edited_file-IsFailed_example :
    IsFailed sample_name checksum warning
      (works_as (codes "f") full_disk)
      hello
      blank_page
      page_not_written
save_edited_file-IsFailed_example =
    save_edited_file-IsFailed sample_name checksum warning (works_as (codes "f") full_disk) hello
      blank_page page_not_written sample_failure

save_edited_file-Holds_example :
    (more : List RevisionRecord) × Holds
      (save_edited_file sample_name checksum warning
        (works_as (codes "f") full_disk)
        hello
        blank_page).0
      ([] ++ more)
save_edited_file-Holds_example =
    save_edited_file-Holds sample_name sample_name-is_json checksum warning
      (works_as (codes "f") full_disk) hello blank_page [] refl blank_page-Holds

-- The page after its text was saved and then written over.
abbrev later_page : Page
later_page =
    save_all sample_name checksum warning ((works_as (codes "g") done, bye) ∷ [])
      (save_edited_file sample_name checksum warning (works_as (codes "f") done) hello blank_page).0

later_page-Works :
    Works sample_name sample_name-is_json checksum warning (works_as (codes "h") done) later_page
unfolding save_all save_edited_file next_revision load_revisions read_entries sort_revisions
    insert_revision is_json text_eq max_from write_revision reserve name_taken publish
    save_db_post_revision atomic_write_file as_utf8
later_page-Works = record {
  reads = refl;
  lists = refl;
  makes_dir = refl;
  suffix = codes "h";
  draws = refl;
  fresh = λ number. refl;
  reserves = refl;
  closes = refl;
  revision_written = refl;
  page_written = refl;
}

restore_revision-save_edited_file_example :
    ((restore_revision sample_name checksum warning true
        (decimal_ℤ (pos 1))
        (works_as (codes "h") done)
        bye
        later_page).1
      ≡ none)
    × ((restore_revision sample_name checksum warning true
          (decimal_ℤ (pos 1))
          (works_as (codes "h") done)
          bye
          later_page).0.body
        ≡ some (as_utf8 (codes "hello")))
restore_revision-save_edited_file_example =
    restore_revision-save_edited_file sample_name sample_name-is_json checksum warning
      (works_as (codes "f") done) (works_as (codes "h") done) hello bye blank_page [] (pos 1)
      ((works_as (codes "g") done, bye) ∷ []) blank_page-Holds sample_next sample_save (refl, tt)
      later_page-Works
