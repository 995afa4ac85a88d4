-- ===== src/Startup/Boot.antt =====
-- The boot of main.go, up to the sweep of the sessions.
use librelock_server.Common.{if◌then◌else◌, Text, true, false, not, Option, none, some}
use librelock_server.AppMode.{Provider, new_provider, is_organization, migrate_org}
use librelock_server.Models.{Db}
use librelock_server.Startup.Connect.{
  Setup, inspecting, connect, org_tables, secrets, stamping, owners, purging,
}
use librelock_server.Startup.Disk.{Disk, Bootstrap, inspect, BootStep}
use librelock_server.Startup.Migrations.{run_migrations, migrations}
use librelock_server.Startup.Seeds.{ensure_server_secret, ensure_org_owner, purge_expired_sessions}

pub data Boot : Type 0 where
  stopped : Disk → Boot
  serving : Provider → (secret : Text) → Disk → Boot

abbrev pub with_db : Db → Disk → Disk
with_db db d = record d { file = record d.file { db = db } }

-- The tables of organization mode, and its owner.
unfoldable pub prepare_org : Setup → Provider → Db → BootStep Db
prepare_org s p db =
    if not (is_organization p.mode)
    then record { ok = true; left = db }
    else if s.fault org_tables 0
    then record { ok = false; left = db }
    else record { ok = true; left = ensure_org_owner (s.fault owners) (migrate_org db) }

-- The migrations and the sweep.
unfoldable pub finish_boot : Setup → Bootstrap → Provider → Text → Disk → Boot
finish_boot s boot p secret d =
    let r = run_migrations migrations s.release (s.fault stamping 0) s.steps boot d.file in
    let db = (purge_expired_sessions (s.fault purging 0) s.now r.file.db).1 in
    if r.ok
    then serving p secret (with_db db (record d { file = r.file }))
    else stopped (record d { file = r.file })

unfoldable pub boot_org : Setup → Bootstrap → Provider → Text → Disk → BootStep Db → Boot
unfolding finish_boot
boot_org s boot p secret d st =
    if st.ok then finish_boot s boot p secret (with_db st.left d) else stopped (with_db st.left d)

unfoldable pub boot_secret : Setup → Bootstrap → Provider → Disk → Option (Text × Db) → Boot
unfolding boot_org prepare_org
boot_secret s boot p d none = stopped d
boot_secret s boot p d (some (secret, db)) = boot_org s boot p secret d (prepare_org s p db)

-- From `appmode.New` on.
unfoldable pub boot_open : Setup → Bootstrap → Disk → Boot
unfolding boot_secret
boot_open s boot d =
    let started = new_provider s.env d.file.db in
    boot_secret s boot started.0 (with_db started.1 d)
      (ensure_server_secret (s.fault secrets) s.secret_bytes started.0.mode started.1)

unfoldable pub boot_connected : Setup → Bootstrap → BootStep Disk → Boot
unfolding boot_open
boot_connected s boot st = if st.ok then boot_open s boot st.left else stopped st.left

unfoldable pub boot : Setup → Disk → Boot
unfolding boot_connected
boot s d = let b = inspect (s.fault inspecting) d.file in boot_connected s b (connect s b d)
