-- ===== src/Startup/Runs.antt =====
-- How far the loop of the migrations gets, and the version that it leaves.
use native.Mathlib.Nat.{add-zero}
use librelock_server.Common.{
  All, length, Text, ℕ, suc, ◌+◌, ◌≤◌, ◌≡◌, ◌∙◌, refl, ap, subst, Bool, true, false, Option, none,
  some, List, [], ◌∷◌, arith, some_injective,
}
use librelock_server.Models.{AppState}
use librelock_server.Startup.Disk.{File, inspect, scanned}
use librelock_server.Startup.Migrations.{
  StepFaults, apply_step, Migration, after_apply, is_nil, run_from, set_schema_version, Run,
  stamped, with_schema,
}
use librelock_server.Startup.Resume.{IsSound, bumped-some, add-suc_left}

-- The version that `inspect` finds in a file that has the columns.
unfoldable pub stored_version : List AppState → ℕ
stored_version [] = 0
stored_version (st ∷ _) = st.schema_version

with_schema-stored :
    (v : ℕ) (sts : List AppState)
    → is_nil sts ≡ false
    → (is_nil (with_schema v sts) ≡ false) × (stored_version (with_schema v sts) ≡ v)
unfolding stored_version
with_schema-stored v [] h = cc
with_schema-stored v (st ∷ sts) h = (refl, refl)

pub stamped-stored :
    (v : ℕ) (release : Text) (sts : List AppState)
    → is_nil sts ≡ false
    → (is_nil (stamped v release sts) ≡ false)
      × (stored_version (stamped v release sts) ≡ v)
      × (stamped v release (stamped v release sts) ≡ stamped v release sts)
unfolding stored_version
stamped-stored v release [] h = cc
stamped-stored v release (st ∷ sts) h = (refl, refl, refl)

-- What `inspect` asks of a file: the tables, the columns of the version, and a row of the state.
abbrev pub IsInspectable : File → Type 0
IsInspectable f =
    (f.has_tables ≡ true) × (f.has_version_columns ≡ true) × (is_nil f.db.app_state ≡ false)

inspected_rows :
    (existing : Bool) (sts : List AppState)
    → let b = scanned false existing sts in
      (b.existing ≡ existing) × (b.schema_version ≡ stored_version sts)
unfolding stored_version
inspected_rows existing [] = (refl, refl)
inspected_rows existing (st ∷ sts) = (refl, refl)

-- An inspection that does not fail finds the database and its version.
pub inspected :
    (f : File)
    → IsInspectable f
    → let b = inspect (λ i. false) f in
      (b.existing ≡ true) × (b.schema_version ≡ stored_version f.db.app_state)
unfolding inspect
inspected f (tables, columns, there) = rw (tables, columns) (inspected_rows true f.db.app_state)

-- The file can be inspected, and is at that version.
abbrev IsAt : ℕ → File → Type 0
IsAt v f = IsInspectable f × (stored_version f.db.app_state ≡ v)

apply_step-IsAt :
    (s : StepFaults) (i : ℕ) (m : Migration) (f f' : File)
    → IsSound m
    → s.read ≡ false
    → IsInspectable f
    → apply_step s i m f ≡ some f'
    → IsAt (suc i) f'
unfolding apply_step set_schema_version
apply_step-IsAt s i m f f' sound r h e =
    let (g, ran, same) = bumped-some s.bump (suc i) (m s.read s.write f) f' e in
    let (tables, columns, there) = h in
    let (calm, kept, (tables', columns')) = sound s.write f g (rw r at ran) in
    let (still, bumped_to) = with_schema-stored (suc i) g.db.app_state (rw kept there) in
    subst (IsAt (suc i)) (some_injective same)
      ((tables' ∙ tables, columns' ∙ columns, still), bumped_to)

module _ (faults : ℕ → StepFaults) (reads : (i : ℕ) → (faults i).read ≡ false) where
  -- A run makes at most the steps that are left, and all of them where it does not stop.
  abbrev pub IsRun : ℕ → List Migration → Run → Type 0
  IsRun s ms r =
      (length r.steps ≤ length ms)
      × (r.ok ≡ true → length r.steps ≡ length ms)
      × IsAt (s + length r.steps) r.file

  after_apply-IsRun :
      (s : ℕ) (m : Migration) (ms : List Migration) (f : File) (o : Option File)
      → IsSound m
      → IsAt s f
      → ((f' : File) → IsAt (suc s) f' → IsRun (suc s) ms (run_from faults (suc s) ms f'))
      → apply_step (faults s) s m f ≡ o
      → IsRun s (m ∷ ms) (after_apply s f (λ f'. run_from faults (suc s) ms f') o)
  unfolding after_apply
  after_apply-IsRun s m ms f none sound at rest e = (omega arith, λ ok. cc, rw (add-zero s) at)
  after_apply-IsRun s m ms f (some f') sound at rest e =
      let (short, all, where_at) =
        rest f' (apply_step-IsAt (faults s) s m f f' sound (reads s) at.0 e) in
      (
        omega arith,
        λ ok. ap suc (all ok),
        rw (add-suc_left s (length (run_from faults (suc s) ms f').steps)) where_at,
      )

  pub run_from-IsRun :
      (s : ℕ) (ms : List Migration) (f : File)
      → All IsSound ms
      → IsAt s f
      → IsRun s ms (run_from faults s ms f)
  unfolding run_from
  run_from-IsRun s [] f a at = (omega arith, λ ok. refl, rw (add-zero s) at)
  run_from-IsRun s (m ∷ ms) f (sound, a) at =
      after_apply-IsRun s m ms f (apply_step (faults s) s m f) sound at
        (λ f' h. run_from-IsRun (suc s) ms f' a h) refl
