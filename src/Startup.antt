-- ===== src/Startup.antt =====
-- How a boot finds the database and leaves it: db/db.go, db/migrations.go, db/sessions.go, and
-- the first lines of main.go. A boot that stops the process is an outcome.
pub mod Disk
pub mod Backups
pub mod Connect
pub mod Migrations
pub mod Seeds
pub mod Boot
pub mod Resume
pub mod Runs
pub mod Reboot
pub mod Upgrade
pub mod Kept
pub mod Sweep
pub mod Seeded
pub mod Held
pub mod Secret
pub mod Stable
mod Tests
