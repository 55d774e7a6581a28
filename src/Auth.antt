-- ===== src/Auth.antt =====
-- pkg/webserver/auth_store.go: the store of users, groups and recovery tokens in auth/users.json.
-- `Password` is the password hash; `Store`, `Accounts`, `Tokens` and `Admin` have the operations on the
-- file; the other children have the laws.
pub mod Password
pub mod Store
pub mod Accounts
pub mod Tokens
pub mod Admin
pub mod FirstAdmin
pub mod Recovery
pub mod SignIn
pub mod PasswordChange
mod Tests
