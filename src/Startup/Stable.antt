-- ===== src/Startup/Stable.antt =====
-- One secret for the life of an instance.
use librelock_server.AppMode.{
  Provider, new_provider, persist, enable_organization, crown, finish_enable, seed_branding,
  promote, demote_others, migrate_org, revert_to_personal, set_registration_open, finish_revert,
  drop_tables, is_organization,
}
use librelock_server.Common.{
  Bool-cases, Option-cases, any, ◌==◌, is_empty, Text, ℕ, ◌≡◌, inl, inr, Bool, false, not, ◌||◌,
  arith,
}
use librelock_server.Crypto.Token.{issue_token}
use librelock_server.Env.{Env}
use librelock_server.Models.{Db, organization, personal}
use librelock_server.Startup.Boot.{boot, boot_open, boot_secret, boot_connected, serving, with_db}
use librelock_server.Startup.Connect.{Setup, connect, inspecting, secrets}
use librelock_server.Startup.Disk.{Disk, Bootstrap, inspect}
use librelock_server.Startup.Held.{Holds, set_allow-Holds, persist-Holds}
use librelock_server.Startup.Secret.{boot_secret-IsKept, boot-IsKept, kept-serving, kept-disk}
use librelock_server.Startup.Seeded.{ensure_server_secret-stored}
use librelock_server.Startup.Seeds.{ensure_server_secret}
use librelock_server.Startup.Upgrade.{disk_of}

-- What may happen to the disk after a boot: the methods that write the stored mode, further boots,
-- however far they come, and whatever leaves the stored state alone.
pub data Later (d : Disk) : Disk → Type 0 where
  now : Later d d
  mode_enabled :
      {x : Disk} (env : Env) (actor : ℕ) (p : Provider)
      → Later d x
      → Later d (with_db (enable_organization env actor p x.file.db).db x)
  mode_reverted :
      {x : Disk} (env : Env) (p : Provider)
      → Later d x
      → Later d (with_db (revert_to_personal env p x.file.db).db x)
  switched :
      {x : Disk} (fault allow : Bool) (p : Provider)
      → Later d x
      → Later d (with_db (set_registration_open fault allow p x.file.db).db x)
  rebooted : {x : Disk} (s : Setup) → Later d x → Later d (disk_of (boot s x))
  elsewhere : {x x' : Disk} → x'.file.db.app_state ≡ x.file.db.app_state → Later d x → Later d x'

boot_open-found :
    (s : Setup) (b : Bootstrap) (d d' : Disk) (p : Provider) (secret : Text)
    → is_empty (issue_token s.secret_bytes) ≡ false
    → boot_open s b d ≡ serving p secret d'
    → Holds secret d'.file.db
unfolding boot_open boot_secret
boot_open-found s b d d' p secret n e =
    let started = new_provider s.env d.file.db in
    elim (Option-cases
      (ensure_server_secret (s.fault secrets) s.secret_bytes started.0.mode started.1)) [
        | inl failed ↦ absurd (ground arith)
        | inr ((x, db), got) ↦
            let held =
              ensure_server_secret-stored (s.fault secrets) s.secret_bytes started.0.mode started.1
                db x n got in
            let (same, kept) =
              kept-serving x _ p secret d'
                (boot_secret-IsKept x s b started.0 (with_db started.1 d) db held) (rw got at e) in
            rw same kept
      ]

boot-found :
    (s : Setup) (d d' : Disk) (p : Provider) (secret : Text)
    → is_empty (issue_token s.secret_bytes) ≡ false
    → boot s d ≡ serving p secret d'
    → Holds secret d'.file.db
unfolding boot boot_connected
boot-found s d d' p secret n e =
    let b = inspect (s.fault inspecting) d.file in
    elim (Bool-cases (connect s b d).ok) [
      | inr off ↦ absurd (ground arith)
      | inl on ↦ boot_open-found s b (connect s b d).left d' p secret n (rw on at e)
    ]

module _ (secret : Text) where
  seed_branding-state :
      (fault fault' : Bool) (at : ℕ) (db : Db)
      → (seed_branding fault fault' at db).app_state ≡ db.app_state
  unfolding seed_branding
  seed_branding-state fault fault' at db = ground arith

  finish_enable-Holds :
      (env : Env) (p : Provider) (db : Db)
      → Holds secret db
      → Holds secret (finish_enable env p db).db
  unfolding finish_enable
  finish_enable-Holds env p db h =
      let db1 = seed_branding (env.fault 4) (env.fault 5) (env.clock 0) db in
      let held : Holds secret db1 =
        rw (seed_branding-state (env.fault 4) (env.fault 5) (env.clock 0) db) h in
      elim (Option-cases (persist (env.fault 6) (env.fault 7) organization db1)) [
        | inl failed ↦ rw (failed, finish_enable) held
        | inr (db2, e) ↦
            rw (e, finish_enable)
              (persist-Holds secret (env.fault 6) (env.fault 7) organization db1 db2 e held)
      ]

  crown-Holds :
      (env : Env) (actor : ℕ) (p : Provider) (db : Db)
      → Holds secret db
      → Holds secret (crown env actor p db).db
  unfolding crown promote demote_others
  crown-Holds env actor p db h = elim (Bool-cases (env.fault 2)) [
    | inl broken ↦ rw broken h
    | inr ran ↦ elim (Bool-cases (any (λ u. u.id == actor) db.users)) [
      | inr gone ↦ rw (ran, gone) h
      | inl there ↦ elim (Bool-cases (env.fault 3)) [
        | inl failed ↦ rw (ran, there, failed) h
        | inr demoted ↦
            rw (ran, there, demoted)
              (finish_enable-Holds env p (demote_others actor (promote actor db)) h)
      ]
    ]
  ]

  enable-Holds :
      (env : Env) (actor : ℕ) (p : Provider) (db : Db)
      → Holds secret db
      → Holds secret (enable_organization env actor p db).db
  unfolding enable_organization migrate_org
  enable-Holds env actor p db h = elim (Bool-cases (is_organization p.mode)) [
    | inl there ↦ rw there h
    | inr home ↦ elim (Bool-cases (env.fault 0 || not (any (λ u. u.id == actor) db.users))) [
      | inl unknown ↦ rw (home, unknown) h
      | inr known ↦ elim (Bool-cases (env.fault 1)) [
        | inl broken ↦ rw (home, known, broken) h
        | inr built ↦ rw (home, known, built) (crown-Holds env actor p (migrate_org db) h)
      ]
    ]
  ]

  switch-Holds :
      (fault allow : Bool) (p : Provider) (db : Db)
      → Holds secret db
      → Holds secret (set_registration_open fault allow p db).db
  unfolding set_registration_open
  switch-Holds fault allow p db h = elim (Bool-cases fault) [
    | inl failed ↦ rw failed h
    | inr ran ↦ rw ran (set_allow-Holds secret allow db.app_state h)
  ]

  finish_revert-state :
      (fault : ℕ → Bool) (p : Provider) (db : Db)
      → (finish_revert fault p db).db.app_state ≡ db.app_state
  unfolding finish_revert drop_tables
  finish_revert-state fault p db = ground arith

  revert-Holds :
      (env : Env) (p : Provider) (db : Db)
      → Holds secret db
      → Holds secret (revert_to_personal env p db).db
  unfolding revert_to_personal
  revert-Holds env p db h = elim (Bool-cases (is_organization p.mode)) [
    | inr home ↦ rw home h
    | inl there ↦ elim (Option-cases (persist (env.fault 0) (env.fault 1) personal db)) [
      | inl failed ↦ rw (there, failed) h
      | inr (db1, e) ↦
          let held = persist-Holds secret (env.fault 0) (env.fault 1) personal db db1 e h in
          let closed = set_registration_open (env.fault 2) false p db1 in
          elim (Bool-cases closed.ok) [
            | inr open_still ↦ rw (there, e, open_still) held
            | inl shut ↦
                rw (there, e, shut, finish_revert-state env.fault closed.provider closed.db)
                  (switch-Holds (env.fault 2) false p db1 held)
          ]
    ]
  ]

  Later-Holds : (d : Disk) {x : Disk} → Holds secret d.file.db → Later d x → Holds secret x.file.db
  Later-Holds d h now = h
  Later-Holds d h (mode_enabled env actor p l) = enable-Holds env actor p _ (Later-Holds d h l)
  Later-Holds d h (mode_reverted env p l) = revert-Holds env p _ (Later-Holds d h l)
  Later-Holds d h (switched fault allow p l) = switch-Holds fault allow p _ (Later-Holds d h l)
  Later-Holds d h (rebooted s l) = kept-disk secret _ (boot-IsKept secret s _ (Later-Holds d h l))
  Later-Holds d h (elsewhere e l) = rw e (Later-Holds d h l)

-- The secret that a boot comes to serve with is the one that every later boot serves with,
-- whatever came in between: boots that stopped anywhere, switches of the mode and of the
-- registration that succeeded or failed at any statement, and any changes that leave the stored
-- state alone, if the bytes of a fresh secret are not empty.
pub boot-keeps_secret :
    (s later : Setup) (d d' x x' : Disk) (p p' : Provider) (secret secret' : Text)
    → is_empty (issue_token s.secret_bytes) ≡ false
    → boot s d ≡ serving p secret d'
    → Later d' x
    → boot later x ≡ serving p' secret' x'
    → secret' ≡ secret
boot-keeps_secret s later d d' x x' p p' secret secret' n e l e' =
    (kept-serving secret _ p' secret' x'
      (boot-IsKept secret later x (Later-Holds secret d' (boot-found s d d' p secret n e) l)) e').0
