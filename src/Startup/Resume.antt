-- ===== src/Startup/Resume.antt =====
-- A boot that fails among the migrations, and the next one.
use native.Mathlib.Nat.{add-zero}
use librelock_server.Common.{
  some_injective, Bool-cases, All, length, drop, ℕ, suc, ◌+◌, ◌≡◌, refl, sym, ap, inl, inr, Bool,
  true, false, Option, none, some, List, [], ◌∷◌, ◌++◌, arith,
}
use librelock_server.Startup.Disk.{File}
use librelock_server.Startup.Migrations.{
  Migration, StepFaults, apply_step, drop_primary_color, run_from, Run, after_apply, bumped,
  set_schema_version,
}

abbrev pub no_faults : ℕ → StepFaults
no_faults i = record { read = false; write = false; bump = false }

-- The tables and the columns of the version are as they were.
abbrev pub SameShape : File → File → Type 0
SameShape f f' = (f'.has_tables ≡ f.has_tables) × (f'.has_version_columns ≡ f.has_version_columns)

-- A step does the same whenever it succeeds, and leaves the rows of the state, their columns and
-- the tables.
abbrev pub IsSound : Migration → Type 0
IsSound m =
    (write : Bool) (f f' : File)
    → m false write f ≡ some f'
    → (m false false f ≡ some f') × (f'.db.app_state ≡ f.db.app_state) × SameShape f f'

pub drop_primary_color-IsSound : IsSound drop_primary_color
unfolding drop_primary_color
drop_primary_color-IsSound write f f' e = elim (Bool-cases f.has_primary_color) [
  | inr gone ↦
      let same = rw gone at e in
      let (state, shape) = kept (record f { has_primary_color = false }) f' (some_injective same) in
      (rw gone same, state, shape)
  | inl there ↦ elim (Bool-cases write) [
    | inl failed ↦ absurd (ground arith)
    | inr fine ↦
        let same = rw (there, fine) at e in
        let (state, shape) =
          kept (record f { has_primary_color = false }) f' (some_injective same) in
        (rw there same, state, shape)
  ]
]
  where
    kept : (g f' : File) → g ≡ f' → (f'.db.app_state ≡ g.db.app_state) × SameShape g f'
    kept g f' e = (
      ap (λ x. x.db.app_state) (sym e),
      (ap File.has_tables (sym e), ap File.has_version_columns (sym e)),
    )

pub bumped-some :
    (fault : Bool) (v : ℕ) (o : Option File) (f' : File)
    → bumped fault v o ≡ some f'
    → (f : File) × (o ≡ some f) × (some (set_schema_version v f) ≡ some f')
unfolding bumped
bumped-some fault v none f' e = cc
bumped-some true v (some f) f' e = cc
bumped-some false v (some f) f' e = (f, refl, e)

apply_step-calm :
    (s : StepFaults) (i : ℕ) (m : Migration) (f f' : File)
    → IsSound m
    → s.read ≡ false
    → apply_step s i m f ≡ some f'
    → apply_step (no_faults i) i m f ≡ some f'
unfolding apply_step bumped
apply_step-calm s i m f f' sound r e =
    let (g, ran, same) = bumped-some s.bump (suc i) (m s.read s.write f) f' e in
    rw ((sound s.write f g (rw r at ran)).0) same

-- The rest of a run after the steps that it made, without faults, is the run without faults.
abbrev pub Resumes : ℕ → List Migration → Run → Run → Type 0
Resumes s ms r whole =
    let done = length r.steps in
    let rest = run_from no_faults (s + done) (drop done ms) r.file in
    (rest.ok ≡ whole.ok) × (rest.file ≡ whole.file) × (r.steps ++ rest.steps ≡ whole.steps)

pub add-suc_left : (s n : ℕ) → s + suc n ≡ suc s + n
add-suc_left s n = omega arith

module _ (faults : ℕ → StepFaults) (reads : (i : ℕ) → (faults i).read ≡ false) where
  after_apply-Resumes :
      (s : ℕ) (m : Migration) (ms : List Migration) (f : File) (o : Option File)
      → IsSound m
      → ((f' : File)
          → Resumes (suc s) ms (run_from faults (suc s) ms f') (run_from no_faults (suc s) ms f'))
      → apply_step (faults s) s m f ≡ o
      → Resumes s
          (m ∷ ms)
          (after_apply s f (λ f'. run_from faults (suc s) ms f') o)
          (run_from no_faults s (m ∷ ms) f)
  unfolding run_from after_apply
  after_apply-Resumes s m ms f none sound rest e = rw (add-zero s) (refl, refl, refl)
  after_apply-Resumes s m ms f (some f') sound rest e =
      let r = run_from faults (suc s) ms f' in
      let (ok, file, steps) = rest f' in
      rw (apply_step-calm (faults s) s m f f' sound (reads s) e, add-suc_left s (length r.steps))
        (ok, file, ap (◌∷◌ (suc s)) steps)

  -- A run that stops is taken up where it stopped.
  pub run_from-Resumes :
      (s : ℕ) (ms : List Migration) (f : File)
      → All IsSound ms
      → Resumes s ms (run_from faults s ms f) (run_from no_faults s ms f)
  unfolding run_from
  run_from-Resumes s [] f a = (refl, refl, refl)
  run_from-Resumes s (m ∷ ms) f (sound, a) =
      after_apply-Resumes s m ms f (apply_step (faults s) s m f) sound
        (λ f'. run_from-Resumes (suc s) ms f' a) refl
