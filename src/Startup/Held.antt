-- ===== src/Startup/Held.antt =====
-- The secret on the disk, through the statements on the row of the state and the migrations.
use librelock_server.AppMode.{new_provider, persist, or_unchanged, set_mode, set_allow}
use librelock_server.Common.{
  ltb, head?, Bool-cases, Option-cases, All, length, drop, Text, ℕ, suc, ◌≡◌, subst, inl, inr, Bool,
  true, ◌&&◌, ◌||◌, none, some, List, [], ◌∷◌, map, arith, some_injective, is_some,
}
use librelock_server.Env.{Env}
use librelock_server.Models.{AppState, Db, Mode, organization}
use librelock_server.Startup.Disk.{File, Bootstrap, fresh_columns}
use librelock_server.Startup.Migrations.{
  Migration, StepFaults, Run, drop_primary_color, apply_step, set_schema_version, with_schema,
  run_from, after_apply, stamp, stamped, is_nil, finish_run, run_migrations,
}
use librelock_server.Startup.Resume.{bumped-some}
use librelock_server.Startup.Seeded.{IsStoredSecret}
use librelock_server.Common.Slices.{All-drop}

-- A migration that leaves the rows of the state alone, whatever fails.
abbrev KeepsState : Migration → Type 0
KeepsState m =
    (read write : Bool) (f f' : File) → m read write f ≡ some f' → f'.db.app_state ≡ f.db.app_state

pub drop_primary_color-KeepsState : KeepsState drop_primary_color
unfolding drop_primary_color
drop_primary_color-KeepsState read write f f' e = ground arith

module _ (secret : Text) where
  abbrev pub Holds : Db → Type 0
  Holds db = IsStoredSecret secret db.app_state

  set_mode-Holds :
      (m : Mode) (sts : List AppState)
      → IsStoredSecret secret sts
      → IsStoredSecret secret (set_mode m sts)
  unfolding IsStoredSecret
  set_mode-Holds m [] h = absurd h
  set_mode-Holds m (st ∷ sts) h = h

  pub set_allow-Holds :
      (allow : Bool) (sts : List AppState)
      → IsStoredSecret secret sts
      → IsStoredSecret secret (set_allow allow sts)
  unfolding IsStoredSecret
  set_allow-Holds allow [] h = absurd h
  set_allow-Holds allow (st ∷ sts) h = h

  pub fresh_columns-Holds :
      (sts : List AppState)
      → IsStoredSecret secret sts
      → IsStoredSecret secret (map fresh_columns sts)
  unfolding IsStoredSecret
  fresh_columns-Holds [] h = absurd h
  fresh_columns-Holds (st ∷ sts) h = h

  with_schema-Holds :
      (v : ℕ) (sts : List AppState)
      → IsStoredSecret secret sts
      → IsStoredSecret secret (with_schema v sts)
  unfolding IsStoredSecret
  with_schema-Holds v [] h = absurd h
  with_schema-Holds v (st ∷ sts) h = h

  stamped-Holds :
      (v : ℕ) (release : Text) (sts : List AppState)
      → IsStoredSecret secret sts
      → IsStoredSecret secret (stamped v release sts)
  unfolding IsStoredSecret
  stamped-Holds v release [] h = absurd h
  stamped-Holds v release (st ∷ sts) h = h

  pub persist-Holds :
      (fault fault' : Bool) (m : Mode) (db db' : Db)
      → persist fault fault' m db ≡ some db'
      → Holds db
      → Holds db'
  unfolding persist
  persist-Holds fault fault' m db db' e h =
      elim (Bool-cases (fault || is_nil db.app_state && fault')) [
        | inl failed ↦ absurd (ground arith)
        | inr wrote ↦ subst Holds (some_injective (rw wrote at e)) (set_mode-Holds m db.app_state h)
      ]

  or_unchanged-Holds :
      (fault fault' : Bool) (m : Mode) (db : Db)
      → Holds db
      → Holds (or_unchanged db (persist fault fault' m db))
  or_unchanged-Holds fault fault' m db h = elim (Option-cases (persist fault fault' m db)) [
    | inl failed ↦ rw failed h
    | inr (db', e) ↦ rw e (persist-Holds fault fault' m db db' e h)
  ]

  headed : (sts : List AppState) → IsStoredSecret secret sts → head? sts ≡ none → ⊥
  unfolding IsStoredSecret
  headed [] h e = h
  headed (st ∷ sts) h e = cc

  pub new_provider-Holds : (env : Env) (db : Db) → Holds db → Holds (new_provider env db).1
  unfolding new_provider
  new_provider-Holds env db h = elim (Bool-cases (env.fault 0)) [
    | inr ran ↦ elim (Option-cases (head? db.app_state)) [
      | inl nothing ↦ absurd (headed db.app_state h nothing)
      | inr (st, there) ↦ rw (ran, there, new_provider) h
    ]
    | inl failed ↦ elim (Bool-cases (is_some db.organization)) [
      | inl legacy ↦
          rw (failed, legacy, new_provider)
            (or_unchanged-Holds (env.fault 1) (env.fault 2) organization db h)
      | inr alone ↦ rw (failed, alone, new_provider) h
    ]
  ]

  apply_step-Holds :
      (s : StepFaults) (i : ℕ) (m : Migration) (f f' : File)
      → KeepsState m
      → apply_step s i m f ≡ some f'
      → Holds f.db
      → Holds f'.db
  unfolding apply_step set_schema_version
  apply_step-Holds s i m f f' keeps e h =
      let (g, ran, same) = bumped-some s.bump (suc i) (m s.read s.write f) f' e in
      subst (λ x. Holds x.db) (some_injective same)
        (with_schema-Holds (suc i) g.db.app_state (rw (keeps s.read s.write f g ran) h))

  run_from-Holds :
      (faults : ℕ → StepFaults) (i : ℕ) (ms : List Migration) (f : File)
      → All KeepsState ms
      → Holds f.db
      → Holds (run_from faults i ms f).file.db
  unfolding run_from after_apply
  run_from-Holds faults i [] f a h = h
  run_from-Holds faults i (m ∷ ms) f (keeps, a) h =
      elim (Option-cases (apply_step (faults i) i m f)) [
        | inl failed ↦ rw failed h
        | inr (f', e) ↦
            rw e (
              run_from-Holds faults (suc i) ms f' a
                (apply_step-Holds (faults i) i m f f' keeps e h))
      ]

  stamp-Holds :
      (fault : Bool) (v : ℕ) (release : Text) (r : Run)
      → Holds r.file.db
      → Holds (stamp fault v release r).file.db
  unfolding stamp
  stamp-Holds fault v release r h = elim (Bool-cases (fault || is_nil r.file.db.app_state)) [
    | inl failed ↦ rw failed h
    | inr fine ↦ rw fine (stamped-Holds v release r.file.db.app_state h)
  ]

  finish_run-Holds :
      (fault : Bool) (v : ℕ) (release : Text) (r : Run)
      → Holds r.file.db
      → Holds (finish_run fault v release r).file.db
  unfolding finish_run stamp
  finish_run-Holds fault v release r h = elim (Bool-cases r.ok) [
    | inr off ↦ rw off h
    | inl ran ↦ elim (Bool-cases (fault || is_nil r.file.db.app_state)) [
      | inl failed ↦ rw (ran, failed) h
      | inr fine ↦ rw (ran, fine) (stamped-Holds v release r.file.db.app_state h)
    ]
  ]

  pub run_migrations-Holds :
      (ms : List Migration) (release : Text) (fault : Bool) (faults : ℕ → StepFaults)
      (b : Bootstrap) (f : File)
      → All KeepsState ms
      → Holds f.db
      → Holds (run_migrations ms release fault faults b f).file.db
  unfolding run_migrations
  run_migrations-Holds ms release fault faults b f a h = elim (Bool-cases b.existing) [
    | inr fresh ↦
        rw fresh
          (stamp-Holds fault (length ms) release (record { ok = true; file = f; steps = [] }) h)
    | inl old ↦ elim (Bool-cases (ltb (length ms) b.schema_version)) [
      | inl new ↦ rw (old, new) h
      | inr known ↦
          rw (old, known)
            (finish_run-Holds fault (length ms) release _ (
              run_from-Holds faults b.schema_version (drop b.schema_version ms) f
                (All-drop KeepsState b.schema_version ms a) h))
    ]
  ]
