-- ===== src/Handlers.antt =====
-- The package handlers, by file.
pub mod Helpers
pub mod Errors
pub mod Admins
pub mod Searches
pub mod Auth
pub mod Settings
pub mod OrgUsers
pub mod OrgMembership
pub mod Personal
pub mod Shared
pub mod Invite
pub mod Organization
pub mod Audit
