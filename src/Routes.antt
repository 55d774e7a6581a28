-- ===== src/Routes.antt =====
-- The requests of pkg/webserver/functions.go: the action that a query names, the targets that a redirect
-- may have, and what handle does with a request. A raw query and a target are strings of bytes here.
pub mod Runes
pub mod Query
pub mod Targets
pub mod Environment
pub mod Interface
pub mod Handlers
pub mod Dispatch
pub mod Authorised
pub mod Legacy
pub mod Guard
pub mod Redirects
mod Tests
