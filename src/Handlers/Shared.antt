-- ===== src/Handlers/Shared.antt =====
-- The shared vault of an organization: handlers/orgvault.go, handlers/orgcategory.go and
-- `denyShared` of handlers/helpers.go. The guard of the routes has let only members with access
-- through.
pub mod OrgCategory
pub mod OrgVault
pub mod Requests
pub mod Permissions
pub mod Filed
pub mod Filing
mod Tests
