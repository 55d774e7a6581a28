-- ===== src/Files.antt =====
-- atomicWriteFile of pkg/webserver/functions.go: a temporary file that is renamed over the old one, and
-- then a sync of the directory.
use sitebrush_v.Prelude.{Bool, not, ◌&&◌, if◌then◌else◌}

-- How the system answers one write: whether every call up to the rename goes through, and whether
-- syncDir does after it.
pub record Write : Type 0 where
  pub renames : Bool
  pub syncs : Bool

-- The write reports no error.
abbrev pub written : Write → Bool
written w = w.renames && w.syncs

-- The write reports an error, but the new file is in place.
abbrev pub unsynced : Write → Bool
unsynced w = w.renames && not w.syncs

-- The file after the write, for the file as it was and the new one.
unfoldable pub atomic_write_file {ℓ} : {A : Type ℓ} → Write → A → A → A
atomic_write_file w old new = if w.renames then new else old
