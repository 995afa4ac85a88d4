-- ===== src/Startup/Connect.antt =====
-- `Connect` and `guardSchemaVersion` of db/db.go and db/migrations.go.
use librelock_server.Common.{
  ltb, if◌then◌else◌, length, Text, text_eq, ℕ, Bool, true, false, not, ◌&&◌, List,
}
use librelock_server.Env.{Env}
use librelock_server.Startup.Backups.{snapshot, snapshot_name}
use librelock_server.Startup.Disk.{Bootstrap, BootStep, Disk, migrate_core}
use librelock_server.Startup.Migrations.{StepFaults, migrations}

-- The parts of a boot; each numbers its statements from 0.
pub data Stage : Type 0 where
  inspecting copying core_tables secrets org_tables owners stamping purging : Stage

-- What a boot is given: the release that runs, the settings, the clock, and what fails.
-- `base` and `time_stamp` are the base name of the database and the formatted time.
pub record Setup : Type 0 where
  pub release : Text
  pub upgrade_backups : Bool
  pub base : Text
  pub time_stamp : Text
  pub now : ℕ
  pub fault : Stage → ℕ → Bool
  pub steps : ℕ → StepFaults
  -- the removals of old backups that fail
  pub stays : Text → Bool
  pub env : Env
  -- the bytes of a fresh secret
  pub secret_bytes : List ℕ

-- `guardSchemaVersion`
unfoldable pub is_too_new : Bootstrap → Bool
is_too_new boot = ltb (length migrations) boot.schema_version

unfoldable pub is_upgrade : Setup → Bootstrap → Bool
is_upgrade s boot = s.upgrade_backups && boot.existing && not (text_eq boot.app_version s.release)

unfoldable pub back_up : Setup → Bootstrap → Disk → BootStep Disk
back_up s boot d =
    if is_upgrade s boot
    then snapshot (s.fault copying 0) (s.fault copying 1) s.stays s.now
        (snapshot_name s.base boot.app_version s.time_stamp) d
    else record { ok = true; left = d }

unfoldable pub build_core : Bool → BootStep Disk → BootStep Disk
build_core fault st =
    if not st.ok
    then st
    else if fault
    then record { ok = false; left = st.left }
    else record { ok = true; left = record st.left { file = migrate_core st.left.file } }

-- `Connect`, after `inspect`
unfoldable pub connect : Setup → Bootstrap → Disk → BootStep Disk
connect s boot d =
    if is_too_new boot
    then record { ok = false; left = d }
    else build_core (s.fault core_tables 0) (back_up s boot d)
