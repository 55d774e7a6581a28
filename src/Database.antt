-- ===== src/Database.antt =====
-- pkg/database: saving posts and redirects in a transaction, and the queue of posts to save.
pub mod Sql
pub mod Posts
pub mod Redirects
pub mod Media
pub mod Queue
mod Tests
