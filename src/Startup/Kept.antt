-- ===== src/Startup/Kept.antt =====
-- An upgrade writes nothing before the old file has been copied.
use librelock_server.Common.{
  ltb, Bool-cases, All, Text, ℕ, ◌≡◌, refl, ◌⊎◌, inl, inr, Bool, true, false, ◌||◌, Option, none,
  some, arith,
}
use librelock_server.AppMode.{Provider, new_provider}
use librelock_server.Models.{Db}
use librelock_server.Startup.Backups.{is_snapshot, snapshot, snapshot_name, is_listed, snapshot_of}
use librelock_server.Startup.Boot.{
  boot, boot_open, boot_org, boot_secret, boot_connected, finish_boot, prepare_org, stopped,
}
use librelock_server.Startup.Connect.{
  build_core, connect, Setup, back_up, is_upgrade, is_too_new, core_tables, inspecting, copying,
  secrets, stamping,
}
use librelock_server.Startup.Disk.{Disk, File, BootStep, Bootstrap, inspect}
use librelock_server.Startup.Migrations.{run_migrations, migrations}
use librelock_server.Startup.Seeds.{ensure_server_secret}
use librelock_server.Startup.Upgrade.{HasCopy, disk_of, prune-keeps, snapshot_name-suffix}

-- The boot stopped with the disk as it was, or the backups have a copy of the file.
Safe : Disk → BootStep Disk → Type 0
Safe d st = ((st.ok ≡ false) × (st.left ≡ d)) ⊎ HasCopy d.file st.left.backups

snapshot_of-is_snapshot :
    (base from time : Text) (now : ℕ) (f : File)
    → is_snapshot (snapshot_of (snapshot_name base from time) now f) ≡ true
unfolding is_snapshot
snapshot_of-is_snapshot base from time now f = rw (snapshot_name-suffix base from time) refl

snapshot-Safe :
    (fault unread : Bool) (stays : Text → Bool) (now : ℕ) (base from time : Text) (d : Disk)
    → All (λ x. ltb x.mod_time now ≡ true) d.backups
    → Safe d (snapshot fault unread stays now (snapshot_name base from time) d)
unfolding snapshot Safe
snapshot-Safe fault unread stays now base from time d older =
    let name = snapshot_name base from time in
    elim (Bool-cases (fault || is_listed name d.backups)) [
      | inl refused ↦ rw refused (inl (refl, refl))
      | inr written ↦ rw written (
          inr (
            snapshot_of name now d.file,
            prune-keeps (snapshot_of name now d.file) d.backups
                (snapshot_of-is_snapshot base from time now d.file) (ground arith) older unread
                stays,
            refl,
          ))
    ]

build_core-Safe :
    (fault : Bool) (d : Disk) (st : BootStep Disk) → Safe d st → Safe d (build_core fault st)
unfolding build_core Safe
build_core-Safe fault d st h = elim (Bool-cases st.ok) [
  | inr off ↦ rw off (elim h [ inl (o, l) ↦ inl (refl, l) | inr copy ↦ inr copy ])
  | inl on ↦ elim h [
    | inl (o, l) ↦ absurd (ground arith)
    | inr copy ↦ elim (Bool-cases fault) [
      | inl failed ↦ rw (on, failed) (inr copy)
      | inr fine ↦ rw (on, fine) (inr copy)
    ]
  ]
]

connect-Safe :
    (s : Setup) (b : Bootstrap) (d : Disk)
    → is_upgrade s b ≡ true
    → All (λ x. ltb x.mod_time s.now ≡ true) d.backups
    → Safe d (connect s b d)
unfolding connect back_up Safe
connect-Safe s b d up older = elim (Bool-cases (is_too_new b)) [
  | inl new ↦ rw new (inl (refl, refl))
  | inr known ↦ rw known (
      build_core-Safe (s.fault core_tables 0) d (back_up s b d) (
        rw up (
          snapshot-Safe (s.fault copying 0) (s.fault copying 1) s.stays s.now s.base b.app_version
            s.time_stamp d older)))
]

-- After `Connect` no backup is touched.
boot_org-backups :
    (s : Setup) (b : Bootstrap) (p : Provider) (secret : Text) (d : Disk) (st : BootStep Db)
    → (disk_of (boot_org s b p secret d st)).backups ≡ d.backups
unfolding boot_org finish_boot
boot_org-backups s b p secret d st = elim (Bool-cases st.ok) [
  | inr off ↦ rw off refl
  | inl on ↦
      let r =
        run_migrations migrations s.release (s.fault stamping 0) s.steps b
          (record d.file { db = st.left }) in
      elim (Bool-cases r.ok) [ inl fine ↦ rw (on, fine) refl | inr failed ↦ rw (on, failed) refl ]
]

boot_secret-backups :
    (s : Setup) (b : Bootstrap) (p : Provider) (d : Disk) (o : Option (Text × Db))
    → (disk_of (boot_secret s b p d o)).backups ≡ d.backups
unfolding boot_secret
boot_secret-backups s b p d none = refl
boot_secret-backups s b p d (some (secret, db)) =
    boot_org-backups s b p secret d (prepare_org s p db)

boot_open-backups :
    (s : Setup) (b : Bootstrap) (d : Disk) → (disk_of (boot_open s b d)).backups ≡ d.backups
unfolding boot_open
boot_open-backups s b d =
    let started = new_provider s.env d.file.db in
    boot_secret-backups s b started.0 (record d { file = record d.file { db = started.1 } })
      (ensure_server_secret (s.fault secrets) s.secret_bytes started.0.mode started.1)

-- A boot that is an upgrade with backups on either stops with the disk as it found it, or leaves
-- a copy of the database file as it was among the backups, even after the pruning, however far
-- the boot comes, if every backup that is there is older than the clock.
pub boot-upgrade :
    (s : Setup) (d : Disk)
    → is_upgrade s (inspect (s.fault inspecting) d.file) ≡ true
    → All (λ x. ltb x.mod_time s.now ≡ true) d.backups
    → (boot s d ≡ stopped d) ⊎ HasCopy d.file (disk_of (boot s d)).backups
unfolding boot boot_connected Safe
boot-upgrade s d up older =
    let b = inspect (s.fault inspecting) d.file in
    elim (connect-Safe s b d up older) [
      | inl (off, same) ↦ rw (off, same) (inl refl)
      | inr copy ↦ elim (Bool-cases (connect s b d).ok) [
        | inr off ↦ rw off (inr copy)
        | inl on ↦ rw on (inr (rw (boot_open-backups s b (connect s b d).left) copy))
      ]
    ]
