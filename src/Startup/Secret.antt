-- ===== src/Startup/Secret.antt =====
-- The server's secret through boots and changes of the mode.
use librelock_server.AppMode.{Provider, new_provider, migrate_org, promote}
use librelock_server.Common.{Bool-cases, Text, ◌≡◌, refl, subst, inl, inr, Bool, some, arith}
use librelock_server.Models.{Db}
use librelock_server.Startup.Backups.{snapshot}
use librelock_server.Startup.Boot.{
  Boot, boot, boot_open, boot_org, boot_secret, boot_connected, finish_boot, prepare_org, stopped,
  serving, with_db,
}
use librelock_server.Startup.Connect.{
  Setup, connect, build_core, back_up, is_too_new, core_tables, inspecting, secrets, stamping,
  purging,
}
use librelock_server.Startup.Disk.{Disk, BootStep, Bootstrap, inspect, migrate_core}
use librelock_server.Startup.Migrations.{migrations, run_migrations}
use librelock_server.Startup.Seeded.{secret_of-again}
use librelock_server.Crypto.Token.{issue_token}
use librelock_server.Startup.Seeds.{ensure_server_secret, ensure_org_owner, purge_expired_sessions}
use librelock_server.Startup.Upgrade.{disk_of}
use librelock_server.Startup.Held.{
  Holds, run_migrations-Holds, new_provider-Holds, fresh_columns-Holds,
  drop_primary_color-KeepsState,
}

module _ (secret : Text) where
  prepare_org-state :
      (s : Setup) (p : Provider) (db : Db) → (prepare_org s p db).left.app_state ≡ db.app_state
  unfolding prepare_org ensure_org_owner promote migrate_org
  prepare_org-state s p db = ground arith

  back_up-file : (s : Setup) (b : Bootstrap) (d : Disk) → (back_up s b d).left.file ≡ d.file
  unfolding back_up snapshot
  back_up-file s b d = ground arith

  build_core-Holds :
      (fault : Bool) (st : BootStep Disk)
      → Holds secret st.left.file.db
      → Holds secret (build_core fault st).left.file.db
  unfolding build_core migrate_core
  build_core-Holds fault st h = elim (Bool-cases st.ok) [
    | inr off ↦ rw off h
    | inl on ↦ elim (Bool-cases fault) [
      | inl failed ↦ rw (on, failed) h
      | inr fine ↦ elim (Bool-cases st.left.file.has_version_columns) [
        | inl there ↦ rw (on, fine, there) h
        | inr added ↦ rw (on, fine, added) (fresh_columns-Holds secret st.left.file.db.app_state h)
      ]
    ]
  ]

  pub connect-Holds :
      (s : Setup) (b : Bootstrap) (d : Disk)
      → Holds secret d.file.db
      → Holds secret (connect s b d).left.file.db
  unfolding connect
  connect-Holds s b d h = elim (Bool-cases (is_too_new b)) [
    | inl new ↦ rw new h
    | inr known ↦
        rw known
          (build_core-Holds (s.fault core_tables 0) (back_up s b d) (rw (back_up-file s b d) h))
  ]

  -- What a boot ends with, from a database that holds the secret.
  unfoldable pub IsKept : Boot → Type 0
  IsKept (stopped d) = Holds secret d.file.db
  IsKept (serving p x d) = (x ≡ secret) × Holds secret d.file.db

  finish_boot-IsKept :
      (s : Setup) (b : Bootstrap) (p : Provider) (d : Disk)
      → Holds secret d.file.db
      → IsKept (finish_boot s b p secret d)
  unfolding finish_boot purge_expired_sessions IsKept
  finish_boot-IsKept s b p d h =
      let r = run_migrations migrations s.release (s.fault stamping 0) s.steps b d.file in
      let kept =
        run_migrations-Holds secret migrations s.release (s.fault stamping 0) s.steps b d.file
          (drop_primary_color-KeepsState, tt) h in
      elim (Bool-cases r.ok) [
        | inr off ↦ rw off kept
        | inl on ↦ elim (Bool-cases (s.fault purging 0)) [
          | inl unswept ↦ rw (on, unswept) (refl, kept)
          | inr swept ↦ rw (on, swept) (refl, kept)
        ]
      ]

  boot_org-IsKept :
      (s : Setup) (b : Bootstrap) (p : Provider) (d : Disk) (st : BootStep Db)
      → Holds secret st.left
      → IsKept (boot_org s b p secret d st)
  unfolding boot_org IsKept
  boot_org-IsKept s b p d st h = elim (Bool-cases st.ok) [
    | inr off ↦ rw off h
    | inl on ↦ rw on (finish_boot-IsKept s b p (with_db st.left d) h)
  ]

  pub boot_secret-IsKept :
      (s : Setup) (b : Bootstrap) (p : Provider) (d : Disk) (db : Db)
      → Holds secret db
      → IsKept (boot_secret s b p d (some (secret, db)))
  unfolding boot_secret
  boot_secret-IsKept s b p d db h =
      boot_org-IsKept s b p d (prepare_org s p db) (rw (prepare_org-state s p db) h)

  boot_open-IsKept :
      (s : Setup) (b : Bootstrap) (d : Disk) → Holds secret d.file.db → IsKept (boot_open s b d)
  unfolding boot_open ensure_server_secret IsKept
  boot_open-IsKept s b d h =
      let started = new_provider s.env d.file.db in
      let held = new_provider-Holds secret s.env d.file.db h in
      elim (Bool-cases (s.fault secrets 0)) [
        | inl failed ↦ rw failed held
        | inr ran ↦
            rw
              (
                ran,
                secret_of-again (s.fault secrets 1) started.0.mode (issue_token s.secret_bytes)
                    secret started.1.app_state held,
              )
              (boot_secret-IsKept s b started.0 (with_db started.1 d) started.1 held)
      ]

  pub boot-IsKept : (s : Setup) (d : Disk) → Holds secret d.file.db → IsKept (boot s d)
  unfolding boot boot_connected IsKept
  boot-IsKept s d h =
      let b = inspect (s.fault inspecting) d.file in
      let held = connect-Holds s b d h in
      elim (Bool-cases (connect s b d).ok) [
        | inr off ↦ rw off held
        | inl on ↦ rw on (boot_open-IsKept s b (connect s b d).left held)
      ]

  -- What a boot serves with is the secret, and the disk that it leaves has it.
  pub kept-serving :
      (b : Boot) (p : Provider) (x : Text) (d : Disk)
      → IsKept b
      → b ≡ serving p x d
      → (x ≡ secret) × Holds secret d.file.db
  unfolding IsKept
  kept-serving b p x d k e = subst IsKept e k

  pub kept-disk : (b : Boot) → IsKept b → Holds secret (disk_of b).file.db
  unfolding IsKept
  kept-disk (stopped d) k = k
  kept-disk (serving p x d) k = k.1
