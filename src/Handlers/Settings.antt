-- ===== src/Handlers/Settings.antt =====
-- handlers/settings.go: the caller's own account, and the settings of the instance.
pub mod Account
pub mod Instance
