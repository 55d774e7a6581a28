-- ===== src/Upload.antt =====
-- pkg/webserver/upload.go: what may be uploaded, under which name it is kept, and how the file, its
-- metadata file and the database row are written together.
pub mod Names
pub mod SafeNames
pub mod Validation
pub mod Accepted
pub mod Records
pub mod Saving
pub mod Outcome
pub mod Checks
pub mod Stored
mod Tests
