-- ===== src/Lib.antt =====
-- SiteBrush: a web site that is edited in the browser. This library models the parts of the
-- program that keep state or decide what is let through, and proves what the rest of the program
-- relies on.
--
-- The parts and how they interact. The web server (pkg/webserver) answers requests: the route and
-- the handlers' guards decide who may change what, and the handlers save pages with their
-- revisions, move pages with their properties and redirects, and restore backups. It knows its
-- users from users.json (auth_store.go) and its logged-in operators from a session store in
-- memory (functions.go); it takes uploads (upload.go), which it writes to the archive of the
-- request's domain and records in the database. The database package (pkg/database) saves posts,
-- redirects, media and templates, the posts also through a queue with a worker. Locks by key keep
-- the writes to one page apart, in both packages. The import (pkg/migration) turns the rows of a
-- version 1 site into the rows of pkg/data.
--
-- Files and code. A function of the source has its name in snake case, a struct its name, and a
-- method takes the state it works on as an argument and returns the new one.
-- - Text, and Text/*: package strings, strconv and unicode, as far as they are used. A text is a
--   list of numbers: the bytes of the string where it names or fills files (Paths, Pages,
--   Properties, Subpages, Backup) or is a target or a query (Routes), else its code points; the
--   tables of unicode beyond the ranges that the code names are a parameter, the record Unicode.
-- - Data: pkg/data/data.go.
-- - Files: atomicWriteFile of pkg/webserver/functions.go.
-- - Migration/Rows, Fields, Entities, Plan: pkg/migration/migration.go, from the v1 rows to
--   BuildImportPlan; Migration/Plan/Spec has the plan's specification, Passwords, MediaPaths,
--   Integers and Joins the laws of the columns.
-- - KeyedMutex/System: keyedMutex of pkg/webserver/functions.go and postRevisionKeyedMutex of
--   pkg/database/functions.go, which are the same code, as a step relation; Invariant, Moves and
--   Safety have the proofs.
-- - Database/Posts, Redirects, Media: the saves of pkg/database/functions.go, media.go and
--   template.go; Database/Sql says how the engine may answer. Database/Queue: the queue of
--   pkg/database/database.go, as a step relation.
-- - Sessions: sessionStore, validCSRF and redirectAfterLogin of pkg/webserver/functions.go.
-- - Auth/Password, Store, Accounts, Tokens, Admin: pkg/webserver/auth_store.go;
--   Password/Roundtrip, FirstAdmin, Recovery, SignIn and PasswordChange have the laws.
-- - Hosts: canonicalHost of pkg/webserver/functions.go, and Hosts/Trusted
--   trustedDBRevisionDomain; Hosts/Names and Domains have their laws.
-- - Paths: safePathUnderRoot, safeWritableStaticFilePath, safeJoinUnderRoot,
--   canonicalRequestURIForFile and what they call, in pkg/webserver/functions.go; Clean, Inside,
--   Safe, Parents, Joined and Requests have the laws.
-- - Pages: saveEditedFile with its revision files, and the restoring of a revision, in
--   pkg/webserver/functions.go; Pages/Names and Titles have the names and the titles of pages,
--   Pages/Json what encoding/json keeps of a string, Numbers, Outcome, History and Shared the
--   laws.
-- - Properties: updateProperties of pkg/webserver/functions.go; Properties/Rename:
--   renameStaticFile with its rollback; Properties/RedirectFile: saveRedirect and findRedirect on
--   redirects.json; Renamed, Redirected, Update and Moved have the laws. The files are regular
--   files: that a page path is a directory is not modelled.
-- - Subpages: createSubpage of pkg/webserver/functions.go; Created has its law.
-- - Backup: restoreBackup of pkg/webserver/functions.go with its rollback; Backup/Places:
--   validateRestoreTargetPath; Links, Targets, Checked and Undone have the laws. The row of
--   recordBackup is not among the files.
-- - Routes/Interface, Handlers, Dispatch: handle and every handler of pkg/webserver
--   (functions.go, auth_store.go, upload.go, grab.go) with their guards, over the operations that
--   they call; Routes/Query is parseAction, Targets validInternalRedirectTarget, Runes the runes
--   of a string of bytes, Environment the tests on the environment; Authorised, Legacy, Guard and
--   Redirects have the laws.
-- - Grab/Addresses and Attributes: the addresses that a page may be fetched from, and the
--   attributes that are dropped, of pkg/webserver/grab.go; Grab/Octets has the laws.
-- - Upload/Names, Validation, Saving: pkg/webserver/upload.go; SafeNames, Accepted, Checks,
--   Stored and Outcome have the laws.
--
-- Interfaces. What the code calls outside the repository and the system are arguments: whether a
-- call of the database engine, a write or a random draw goes through, the clock, SHA-256, HMAC
-- and base64, http.DetectContentType, image.DecodeConfig, net.ParseIP, the links and the entries
-- of the file system. The routing is over a record of the operations that the handlers call and a
-- state of the site that it does not look into, so that what it shows holds of every
-- implementation of them; what a GET looks up may change that state too, since it can make
-- directories and tables. A worker that ends on an error of its connection takes no step of the
-- queue. No law assumes that a call succeeds unless it says so.
--
-- Numbers and bounds. Integers of the source are ℤ, sizes and times ℕ; strconv.Atoi refuses what
-- is beyond int64, and the only arithmetic on an int64 is the next revision number: the engine
-- computes that of a post, whose overflow is left to it, and nextRevision that of a revision
-- file, which is taken to stay below 2^63. A float64 is its bit pattern and is only copied. Every
-- loop is structural recursion on the list it ranges over, so there is no fuel, but for the
-- digits of a number, whose fuel is the number itself, the sixteen attempts of writeRevision, and
-- the loop of validateExistingParentSymlinkSafe, whose fuel is one more than the components of
-- the path and is shown to be enough; the step relations have any number of goroutines, workers
-- and steps.
--
-- Not modelled: the HTML pages and cookies; the listing of pages, snapshots and the building of
-- backups (pkg/webserver/functions.go), which are left out so far; fetching, the HTML tokenizer
-- and template markers of pkg/webserver/grab.go; opening databases and their schema; settings,
-- logging and the main functions; and everything under vendor. But for those left out so far they
-- are input and output, text of SQL or HTML, or third-party code.
pub mod Prelude
pub mod Text
pub mod Data
pub mod Migration
pub mod KeyedMutex
pub mod Database
pub mod Sessions
pub mod Files
pub mod Auth
pub mod Upload
pub mod Hosts
pub mod Paths
pub mod Pages
pub mod Properties
pub mod Subpages
pub mod Routes
pub mod Grab
pub mod Backup
