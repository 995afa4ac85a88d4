-- ===== src/Models.antt =====
-- The package models: the rows of every table, and the database that holds them.
mod Accounts
mod Records
mod OrgTables
mod Database
pub mod First
unfoldable pub use Accounts.*
unfoldable pub use Records.*
unfoldable pub use OrgTables.*
unfoldable pub use Database.*
