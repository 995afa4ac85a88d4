-- ===== src/Startup/Tests.antt =====
-- Boots of a sample database.
use librelock_server.Env.{second}
use librelock_server.Common.{
  length, any, Text, text, text_eq, ℕ, ◌+◌, ◌*◌, ◌≤◌, ◌≡◌, refl, ◌⊎◌, true, false, none, [], ◌∷◌,
  ◌++◌, arith,
}
use librelock_server.Models.{organization}
use librelock_server.Samples.{acme}
use librelock_server.AppMode.{Provider, set_registration_open}
use librelock_server.Crypto.Token.{issue_token}
use librelock_server.Common.{◌==◌, is_empty, false, Bool, subst}
use librelock_server.Models.{AppState}
use librelock_server.Startup.Boot.{serving, with_db}
use librelock_server.Startup.Stable.{Later, now, switched, boot-keeps_secret}
use librelock_server.Startup.Seeds.{ensure_server_secret, purge_expired_sessions}
use librelock_server.Startup.Runs.{stored_version}
use librelock_server.Startup.Migrations.{StepFaults, run_migrations}
use librelock_server.Startup.Boot.{boot}
use librelock_server.Startup.Upgrade.{disk_of}
use librelock_server.Startup.Connect.{Setup, is_upgrade}
use librelock_server.Startup.Disk.{Disk, Entry, File}
use librelock_server.Models.{Db, is_owner}
use librelock_server.Startup.Seeds.{ensure_org_owner}
use librelock_server.Startup.Migrations.{migrations}
use librelock_server.Startup.Boot.{stopped}
use librelock_server.Startup.Disk.{inspect}
use librelock_server.Samples.{bob, home}
use librelock_server.Startup.Seeded.{ensure_org_owner-HasOwner}
use librelock_server.Samples.{cid}
use librelock_server.Startup.Upgrade.{HasCopy}
use librelock_server.Startup.Connect.{inspecting}
use librelock_server.Startup.Resume.{no_faults}
use librelock_server.Startup.Kept.{boot-upgrade}
use librelock_server.Startup.Reboot.{reboot-completes}
use librelock_server.Startup.Resume.{drop_primary_color-IsSound}
use librelock_server.Middleware.Auth.{auth}
use librelock_server.Samples.{calm}
use librelock_server.Startup.Sweep.{auth-purge_expired_sessions}

abbrev at_work : Provider
at_work = record { mode = organization; open_reg = false }

abbrev old_file : File
old_file = record {
  has_tables = true;
  has_version_columns = true;
  has_primary_color = true;
  db = record acme {
    app_state = record home { schema_version = 0; app_version = text "0.1" } ∷ [];
  };
}

abbrev old_backup : ℕ → Entry
old_backup i = record {
  name = text "librelock-0.0-" ++ ((48 + i) ∷ text ".db");
  is_dir = false;
  mod_time = i;
  content = none;
}

abbrev old_disk : Disk
old_disk = record { file = old_file; backups = old_backup 1 ∷ old_backup 2 ∷ old_backup 3 ∷ [] }

abbrev setup_of : Text → Setup
setup_of release = record {
  release = release;
  upgrade_backups = true;
  base = text "librelock";
  time_stamp = text "20250101-000000";
  now = 100 * second;
  fault = λ stage i. false;
  steps = no_faults;
  stays = λ name. false;
  env = calm;
  secret_bytes = 5 ∷ 6 ∷ [];
}

-- The oldest backup makes room for the new one; the column is gone and the version is 1.
upgraded :
    (length (disk_of (boot (setup_of (text "0.2")) old_disk)).backups ≡ 3)
    × ((disk_of (boot (setup_of (text "0.2")) old_disk)).file.has_primary_color ≡ false)
    × (inspect (λ i. false) (disk_of (boot (setup_of (text "0.2")) old_disk)).file
        ≡ record { existing = true; app_version = text "0.2"; schema_version = 1 })
unfolding boot inspect is_upgrade text_eq ensure_server_secret run_migrations
    librelock_server.Startup.Connect.connect librelock_server.Startup.Connect.is_too_new
    librelock_server.Startup.Connect.build_core librelock_server.Startup.Connect.back_up
    librelock_server.Startup.Backups.snapshot librelock_server.Startup.Backups.snapshot_name
    librelock_server.Startup.Backups.safe_for_filename
    librelock_server.Startup.Backups.prune_backups librelock_server.Startup.Backups.surplus
    librelock_server.Startup.Backups.is_snapshot librelock_server.Startup.Backups.has_db_suffix
    librelock_server.Startup.Disk.migrate_core librelock_server.Startup.Migrations.apply_step
    librelock_server.Startup.Migrations.bumped
    librelock_server.Startup.Migrations.set_schema_version
    librelock_server.Startup.Migrations.drop_primary_color
    librelock_server.Startup.Migrations.finish_run librelock_server.Startup.Migrations.stamp
    librelock_server.Startup.Migrations.after_apply librelock_server.Startup.Seeds.ensure_org_owner
    librelock_server.Startup.Seeds.purge_expired_sessions librelock_server.Startup.Boot.finish_boot
    librelock_server.AppMode.new_provider librelock_server.AppMode.migrate_org
    librelock_server.Common.Sorts.sort_by
upgraded = (refl, refl, refl)

upgrading :
    is_upgrade (setup_of (text "0.2")) (inspect ((setup_of (text "0.2")).fault inspecting) old_file)
    ≡ true
unfolding is_upgrade inspect text_eq
upgrading = refl

boot-upgrade_example :
    (boot (setup_of (text "0.2")) old_disk ≡ stopped old_disk)
    ⊎ HasCopy old_file (disk_of (boot (setup_of (text "0.2")) old_disk)).backups
boot-upgrade_example =
    boot-upgrade (setup_of (text "0.2")) old_disk upgrading (refl, (refl, (refl, tt)))

-- The version bump of the first step fails.
abbrev bump_fails : ℕ → StepFaults
bump_fails i = record { read = false; write = false; bump = true }

known_version : stored_version old_file.db.app_state ≤ length migrations
unfolding stored_version
known_version = omega arith

reboot-completes_example :
    let first = inspect (λ i. false) old_file in
    let once = run_migrations migrations (text "0.2") false bump_fails first old_file in
    let again = inspect (λ i. false) once.file in
    let twice = run_migrations migrations (text "0.2") false no_faults again once.file in
    let whole = run_migrations migrations (text "0.2") false no_faults first old_file in
    (twice.ok ≡ whole.ok) × (twice.file ≡ whole.file)
reboot-completes_example =
    reboot-completes migrations (drop_primary_color-IsSound, tt) (text "0.2") bump_fails (λ i. refl)
      false old_file (refl, refl, refl) known_version

auth-purge_expired_sessions_example :
    let db' = (purge_expired_sessions false (90 * second) acme).1 in
    ((auth calm 3600 (text "t1") db').access ≡ (auth calm 3600 (text "t1") acme).access)
    × ((auth calm 3600 (text "t1") db').expires_header
        ≡ (auth calm 3600 (text "t1") acme).expires_header)
auth-purge_expired_sessions_example =
    auth-purge_expired_sessions calm 3600 (text "t1") false (90 * second) acme (omega arith)

abbrev secretless : Db
secretless = record acme { app_state = record home { server_secret = [] } ∷ [] }

abbrev made_secret : Text
made_secret = text "0506"

-- The disk of an instance at work with no sessions, and no backups asked for.
abbrev disk_at : AppState → Bool → Disk
disk_at st colored = record {
  file = record old_file {
    has_primary_color = colored;
    db = record acme { app_state = st ∷ []; sessions = [] };
  };
  backups = [];
}

abbrev no_secret_disk : Disk
no_secret_disk = disk_at (record home { server_secret = []; schema_version = 0 }) true

abbrev stamped_home : Text → AppState
stamped_home release = record home {
  server_secret = made_secret;
  schema_version = 1;
  app_version = release;
}

abbrev plain_setup : Setup
plain_setup = record (setup_of (text "0.2")) { upgrade_backups = false }

-- A later boot of another release, whose search of the mode fails, so that the mode is stored again.
abbrev careless : Setup
careless = record (setup_of (text "0.3")) {
  upgrade_backups = false;
  env = record calm { fault = λ i. i == 0 };
  secret_bytes = 9 ∷ [];
}

abbrev after_first : Disk
after_first = disk_at (stamped_home (text "0.2")) false

first_boot : boot plain_setup no_secret_disk ≡ serving at_work made_secret after_first
unfolding boot inspect is_upgrade text_eq ensure_server_secret run_migrations
    librelock_server.Startup.Connect.connect librelock_server.Startup.Connect.is_too_new
    librelock_server.Startup.Connect.build_core librelock_server.Startup.Connect.back_up
    librelock_server.Startup.Backups.snapshot librelock_server.Startup.Backups.snapshot_name
    librelock_server.Startup.Backups.safe_for_filename
    librelock_server.Startup.Backups.prune_backups librelock_server.Startup.Backups.surplus
    librelock_server.Startup.Backups.is_snapshot librelock_server.Startup.Backups.has_db_suffix
    librelock_server.Startup.Disk.migrate_core librelock_server.Startup.Migrations.apply_step
    librelock_server.Startup.Migrations.bumped
    librelock_server.Startup.Migrations.set_schema_version
    librelock_server.Startup.Migrations.drop_primary_color
    librelock_server.Startup.Migrations.finish_run librelock_server.Startup.Migrations.stamp
    librelock_server.Startup.Migrations.after_apply librelock_server.Startup.Seeds.ensure_org_owner
    librelock_server.Startup.Seeds.purge_expired_sessions librelock_server.Startup.Boot.finish_boot
    librelock_server.AppMode.new_provider librelock_server.AppMode.migrate_org
    librelock_server.Common.Sorts.sort_by librelock_server.Crypto.Token.issue_token
    librelock_server.Crypto.Hex.hex_encode librelock_server.AppMode.persist
    librelock_server.AppMode.enable_organization librelock_server.AppMode.crown
    librelock_server.AppMode.finish_enable librelock_server.AppMode.seed_branding
    librelock_server.AppMode.promote librelock_server.AppMode.demote_others
first_boot = refl

abbrev opened_up : Disk
opened_up = disk_at (record (stamped_home (text "0.2")) { allow_registration = true }) false

abbrev restarted : Disk
restarted = disk_at (record (stamped_home (text "0.3")) { allow_registration = true }) false

opening :
    with_db (set_registration_open false true at_work after_first.file.db).db after_first
    ≡ opened_up
unfolding librelock_server.AppMode.set_registration_open
opening = refl

later_boot : boot careless opened_up ≡ serving at_work made_secret restarted
unfolding boot inspect is_upgrade text_eq ensure_server_secret run_migrations
    librelock_server.Startup.Connect.connect librelock_server.Startup.Connect.is_too_new
    librelock_server.Startup.Connect.build_core librelock_server.Startup.Connect.back_up
    librelock_server.Startup.Backups.snapshot librelock_server.Startup.Backups.snapshot_name
    librelock_server.Startup.Backups.safe_for_filename
    librelock_server.Startup.Backups.prune_backups librelock_server.Startup.Backups.surplus
    librelock_server.Startup.Backups.is_snapshot librelock_server.Startup.Backups.has_db_suffix
    librelock_server.Startup.Disk.migrate_core librelock_server.Startup.Migrations.apply_step
    librelock_server.Startup.Migrations.bumped
    librelock_server.Startup.Migrations.set_schema_version
    librelock_server.Startup.Migrations.drop_primary_color
    librelock_server.Startup.Migrations.finish_run librelock_server.Startup.Migrations.stamp
    librelock_server.Startup.Migrations.after_apply librelock_server.Startup.Seeds.ensure_org_owner
    librelock_server.Startup.Seeds.purge_expired_sessions librelock_server.Startup.Boot.finish_boot
    librelock_server.AppMode.new_provider librelock_server.AppMode.migrate_org
    librelock_server.Common.Sorts.sort_by librelock_server.Crypto.Token.issue_token
    librelock_server.Crypto.Hex.hex_encode librelock_server.AppMode.persist
    librelock_server.AppMode.enable_organization librelock_server.AppMode.crown
    librelock_server.AppMode.finish_enable librelock_server.AppMode.seed_branding
    librelock_server.AppMode.promote librelock_server.AppMode.demote_others
    librelock_server.AppMode.set_registration_open
later_boot = refl

fresh_nonempty : is_empty (issue_token (5 ∷ 6 ∷ [])) ≡ false
unfolding librelock_server.Crypto.Token.issue_token librelock_server.Crypto.Hex.hex_encode
fresh_nonempty = refl

opened-Later : Later after_first opened_up
opened-Later = subst (Later after_first) opening (switched false true at_work now)

boot-keeps_secret_example : made_secret ≡ made_secret
boot-keeps_secret_example =
    boot-keeps_secret plain_setup careless no_secret_disk after_first opened_up restarted at_work
      at_work made_secret made_secret fresh_nonempty first_boot opened-Later later_boot

abbrev ownerless : Db
ownerless = record acme { users = bob ∷ cid ∷ [] }

owner_after_boot : any (λ v. is_owner v.role) (ensure_org_owner (λ i. false) ownerless).users ≡ true
owner_after_boot = ensure_org_owner-HasOwner (λ i. false) bob (cid ∷ []) ownerless (λ i. refl) refl
