-- ===== src/Startup/Migrations.antt =====
-- db/migrations.go.
use librelock_server.Common.{
  ltb, if◌then◌else◌, length, drop, Text, ℕ, suc, Bool, true, false, not, ◌||◌, Option, none, some,
  List, [], ◌∷◌,
}
use librelock_server.Models.{AppState}
use librelock_server.Startup.Disk.{Bootstrap, File}

-- Which statements of one step fail: the search of the column, the change, the version bump.
pub record StepFaults : Type 0 where
  pub read : Bool
  pub write : Bool
  pub bump : Bool

-- `migration.run`, under the faults of its search and of its change; `none` is an error.
abbrev pub Migration : Type 0
Migration = Bool → Bool → File → Option File

-- `dropColumn`: a search that fails reads as no column, and the step as done.
unfoldable pub drop_primary_color : Migration
drop_primary_color read write f =
    if read || not f.has_primary_color
    then some f
    else if write
    then none
    else some (record f { has_primary_color = false })

-- `migrations`
abbrev pub migrations : List Migration
migrations = drop_primary_color ∷ []

abbrev pub with_schema : ℕ → List AppState → List AppState
with_schema v [] = []
with_schema v (st ∷ sts) = record st { schema_version = v } ∷ sts

-- `setSchemaVersion`
unfoldable pub set_schema_version : ℕ → File → File
set_schema_version v f = record f { db = record f.db { app_state = with_schema v f.db.app_state } }

unfoldable pub bumped : Bool → ℕ → Option File → Option File
bumped fault v none = none
bumped fault v (some f) = if fault then none else some (set_schema_version v f)

-- One step and its version bump, in one transaction.
unfoldable pub apply_step : StepFaults → ℕ → Migration → File → Option File
unfolding bumped
apply_step s i m f = bumped s.bump (suc i) (m s.read s.write f)

-- How far a run came, and the versions that it logged.
pub record Run : Type 0 where
  pub ok : Bool
  pub file : File
  pub steps : List ℕ

abbrev pub after_step : ℕ → Run → Run
after_step i r = record r { steps = i ∷ r.steps }

unfoldable pub after_apply : ℕ → File → (File → Run) → Option File → Run
after_apply i f rest none = record { ok = false; file = f; steps = [] }
after_apply i f rest (some f') = after_step (suc i) (rest f')

-- The loop of `RunMigrations`, from step i on.
unfoldable pub run_from : (ℕ → StepFaults) → ℕ → List Migration → File → Run
unfolding after_apply
run_from faults i [] f = record { ok = true; file = f; steps = [] }
run_from faults i (m ∷ ms) f =
    after_apply i f (λ f'. run_from faults (suc i) ms f') (apply_step (faults i) i m f)

abbrev pub stamped : ℕ → Text → List AppState → List AppState
stamped v release [] = []
stamped v release (st ∷ sts) = record st { schema_version = v; app_version = release } ∷ sts

abbrev pub is_nil {ℓ} : {A : Type ℓ} → List A → Bool
is_nil [] = true
is_nil (_ ∷ _) = false

-- `stamp`
unfoldable pub stamp : Bool → ℕ → Text → Run → Run
stamp fault v release r =
    if fault || is_nil r.file.db.app_state then record r { ok = false } else record r {
      file = record r.file {
        db = record r.file.db { app_state = stamped v release r.file.db.app_state };
      };
    }

abbrev pub stopped_at : File → Run
stopped_at f = record { ok = false; file = f; steps = [] }

-- After the loop of `RunMigrations`.
unfoldable pub finish_run : Bool → ℕ → Text → Run → Run
unfolding stamp
finish_run fault v release r = if r.ok then stamp fault v release r else r

-- `RunMigrations`, for any list of migrations.
unfoldable pub run_migrations :
    List Migration → Text → Bool → (ℕ → StepFaults) → Bootstrap → File → Run
unfolding run_from finish_run
run_migrations ms release fault faults boot f =
    if not boot.existing
    then stamp fault (length ms) release (record { ok = true; file = f; steps = [] })
    else if ltb (length ms) boot.schema_version
    then stopped_at f
    else finish_run fault (length ms) release
        (run_from faults boot.schema_version (drop boot.schema_version ms) f)
