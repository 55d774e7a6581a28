-- ===== src/Migration.antt =====
-- pkg/migration/migration.go: the import of a v1 site. `Rows` has the v1 rows, `Fields` the
-- conversions of single columns, `Entities` one function for each kind of row, `Plan` the whole
-- import; the other children prove what they are named for.
pub mod Rows
pub mod Fields
pub mod Entities
pub mod Plan
pub mod Passwords
pub mod MediaPaths
pub mod Integers
pub mod Joins
mod Tests
