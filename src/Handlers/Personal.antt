-- ===== src/Handlers/Personal.antt =====
-- The routes of main.go on the caller's own data: entries, categories and sessions.
pub mod Category
pub mod Session
pub mod Vault
pub mod Requests
pub mod Effect
pub mod Effects
pub mod Filing
pub mod Isolation
pub mod Shows
pub mod Replies
mod Tests
