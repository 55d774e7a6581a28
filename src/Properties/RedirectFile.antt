-- ===== src/Properties/RedirectFile.antt =====
-- saveRedirect, loadRedirects, restoreRedirectsFile and findRedirect of pkg/webserver/functions.go: the
-- redirects in a file of the archive, beside those in the database.
use sitebrush_v.Prelude.{
  Bool, true, false, not, ◌&&◌, List, [], ◌∷◌, Option, none, some, if◌then◌else◌,
}
use sitebrush_v.Prelude.Int.{ℤ}
use sitebrush_v.Text.{Text, codes, text_eq}
use sitebrush_v.Files.{Write, written, atomic_write_file}
use sitebrush_v.Data.{Redirect}
use sitebrush_v.Pages.Json.{as_utf8}
use sitebrush_v.Database.Sql.{DbType, Answers}
use sitebrush_v.Database.Redirects.{save_redirect, load_redirect}

-- The file of redirects: `absent`, a text that is no list of redirects, or a list.
pub data RedirectFile : Type 0 where
  absent garbled : RedirectFile
  listed : List Redirect → RedirectFile

-- The file, and the table of the database.
pub record Redirects : Type 0 where
  pub file : RedirectFile
  pub rows : List Redirect

-- How the system answers one save: `database` is `none` where no database is configured.
pub record Answer : Type 0 where
  pub reads : Bool
  pub writes : Write
  pub database : Option (DbType × Answers)
  pub now : ℤ
  pub restores : Write
  pub removes : Bool

pub data RedirectError : Type 0 where
  unreadable garbled_file not_written not_in_database rollback_failed : RedirectError

-- loadRedirects
unfoldable pub load_redirects : Bool → RedirectFile → Option (List Redirect)
load_redirects false file = none
load_redirects true absent = some []
load_redirects true garbled = none
load_redirects true (listed rs) = some rs

abbrev pub is_pair : Text → Text → Redirect → Bool
is_pair old domain r = text_eq r.old_uri old && text_eq r.domain domain

-- What json.Unmarshal reads of a redirect that json.MarshalIndent wrote.
abbrev pub json_redirect : Redirect → Redirect
json_redirect r = record r {
  old_uri = as_utf8 r.old_uri;
  new_uri = as_utf8 r.new_uri;
  status = as_utf8 r.status;
  domain = as_utf8 r.domain;
}

-- The loop of saveRedirect, with the append if it found no redirect to replace, as the list is read again;
-- the other redirects were read from JSON, which keeps them.
unfoldable pub replace_or_append : Redirect → List Redirect → List Redirect
replace_or_append r [] = json_redirect r ∷ []
replace_or_append r (s ∷ rs) =
    let rest = replace_or_append r rs in
    if is_pair r.old_uri r.domain s then json_redirect r ∷ rs else s ∷ rest

-- restoreRedirectsFile: the file, and whether it reports no error.
unfoldable pub restore_redirects_file : Answer → RedirectFile → RedirectFile → RedirectFile × Bool
unfolding atomic_write_file
restore_redirects_file w absent file =
    (if w.removes then absent else file, w.removes && w.restores.syncs)
restore_redirects_file w previous file =
    (atomic_write_file w.restores file previous, written w.restores)

-- The row for a configured database: the table, and whether SaveRedirectFromConfig reports no error.
unfoldable pub record_redirect : Answer → Redirect → List Redirect → List Redirect × Bool
unfolding save_redirect
record_redirect w r rows = elim w.database [
  | none ↦ (rows, true)
  | some (t, a) ↦
      let (table, saved) = save_redirect t a w.now rows r in
      (table, elim saved.error [ none ↦ true | some _ ↦ false ])
]

-- saveRedirect, under redirectFileLock.
unfoldable pub save_redirect_file : Answer → Redirect → Redirects → Redirects × Option RedirectError
unfolding load_redirects replace_or_append restore_redirects_file record_redirect atomic_write_file
save_redirect_file w r s =
    if not w.reads then (s, some unreadable) else elim (load_redirects true s.file) [
      | none ↦ (s, some garbled_file)
      | some rs ↦
          let file = atomic_write_file w.writes s.file (listed (replace_or_append r rs)) in
          let (rows, saved) = record_redirect w r s.rows in
          let (back, restored) = restore_redirects_file w s.file file in
          if not (written w.writes)
          then (record s { file = file }, some not_written)
          else if saved
          then (record { file = file; rows = rows }, none)
          else (
            record { file = back; rows = rows },
            some (if restored then not_in_database else rollback_failed),
          )
    ]

-- The loop of findRedirect.
unfoldable pub first_active : Text → Text → List Redirect → Option Redirect
first_active old domain [] = none
first_active old domain (r ∷ rs) =
    let rest = first_active old domain rs in
    if is_pair old domain r && text_eq r.status (codes "active") then some r else rest

pub data Lookup : Type 0 where
  found : Redirect → Lookup
  not_found lookup_failed : Lookup

abbrev of_file : Option (List Redirect) → Text → Text → Lookup
unfolding first_active
of_file none old domain = lookup_failed
of_file (some rs) old domain = elim (first_active old domain rs) [
  | none ↦ not_found
  | some r ↦ found r
]

-- findRedirect. `database` is `none` without a database, else whether the query succeeds; `reads` is
-- whether the file can be read.
unfoldable pub find_redirect : Option Bool → Bool → Text → Text → Redirects → Lookup
unfolding load_redirects first_active load_redirect
find_redirect none reads old domain s = of_file (load_redirects reads s.file) old domain
find_redirect (some false) reads old domain s = lookup_failed
find_redirect (some true) reads old domain s = elim (load_redirect old domain s.rows) [
  | some r ↦ found r
  | none ↦ of_file (load_redirects reads s.file) old domain
]
