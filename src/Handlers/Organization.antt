-- ===== src/Handlers/Organization.antt =====
-- handlers/organization.go: the branding row, its logo, and the policies of the organization.
pub mod Row
pub mod Public
pub mod Update
pub mod DataUrl
pub mod Logo
pub mod Policy
pub mod Requests
pub mod Effects
pub mod Valid
pub mod Logos
pub mod Permits
mod Tests
