-- ===== src/Startup/Reboot.antt =====
-- Two boots in a row, of which the first may stop anywhere among the migrations.
use native.Mathlib.Nat.{le_of_eq}
use mathlib.Core.Path.{ap₂}
use librelock_server.Common.{
  Bool-cases, All, length, Text, ℕ, ◌+◌, ◌≤◌, ◌≡◌, refl, sym, ap, ◌∙◌, inl, inr, Bool, true, false,
  ◌||◌, List, [], arith, ◌⊎◌, drop, ltb,
}
use librelock_server.Common.Slices.{drop_all, drop-drop, All-drop, length-drop}
use librelock_server.Startup.Disk.{File, inspect}
use librelock_server.Startup.Migrations.{
  StepFaults, Migration, is_nil, run_from, Run, stamped, finish_run, stamp, run_migrations,
}
use librelock_server.Startup.Resume.{IsSound, no_faults, Resumes, run_from-Resumes}
use librelock_server.Startup.Runs.{
  stored_version, inspected, IsInspectable, stamped-stored, IsRun, run_from-IsRun,
}

-- What follows the loop looks at the outcome and the file only.
abbrev SameEnd : Run → Run → Type 0
SameEnd r r' = (r.ok ≡ r'.ok) × (r.file ≡ r'.file)

finish_run-forgets :
    (fault : Bool) (v : ℕ) (release : Text) (r : Run)
    → SameEnd (finish_run fault v release r) (finish_run fault v release (record r { steps = [] }))
unfolding finish_run stamp
finish_run-forgets fault v release r = elim (Bool-cases r.ok) [
  | inr stopped ↦ rw stopped (refl, refl)
  | inl ran ↦ elim (Bool-cases (fault || is_nil r.file.db.app_state)) [
    | inl failed ↦ rw (ran, failed) (refl, refl)
    | inr fine ↦ rw (ran, fine) (refl, refl)
  ]
]

finish_run-SameEnd :
    (fault : Bool) (v : ℕ) (release : Text) (r r' : Run)
    → SameEnd r r'
    → SameEnd (finish_run fault v release r) (finish_run fault v release r')
finish_run-SameEnd fault v release r r' (ok, file) =
    let same =
      ap₂ (λ o g. finish_run fault v release (record { ok = o; file = g; steps = [] })) ok file in
    let a = finish_run-forgets fault v release r in
    let b = finish_run-forgets fault v release r' in
    (a.0 ∙ ap Run.ok same ∙ sym b.0, a.1 ∙ ap Run.file same ∙ sym b.1)

stamped_file : ℕ → Text → File → File
stamped_file v release f = record f {
  db = record f.db { app_state = stamped v release f.db.app_state };
}

-- The file is that of the loop, or that file with the stamp.
finish_run-file :
    (fault : Bool) (v : ℕ) (release : Text) (r : Run)
    → ((finish_run fault v release r).file ≡ r.file)
      ⊎ ((r.ok ≡ true) × ((finish_run fault v release r).file ≡ stamped_file v release r.file))
unfolding finish_run stamp stamped_file
finish_run-file fault v release r = elim (Bool-cases r.ok) [
  | inr stopped ↦ rw stopped (inl refl)
  | inl ran ↦ elim (Bool-cases (fault || is_nil r.file.db.app_state)) [
    | inl failed ↦ rw (ran, failed) (inl refl)
    | inr fine ↦ rw (ran, fine) (inr (refl, refl))
  ]
]

not_below : (a b : ℕ) → a ≤ b → ltb b a ≡ false
not_below a b h = ground arith

module _ (ms : List Migration) (sound : All IsSound ms) (release : Text) where
  run_migrations-at :
      (fault : Bool) (faults : ℕ → StepFaults) (f : File) (v : ℕ)
      → IsInspectable f
      → stored_version f.db.app_state ≡ v
      → v ≤ length ms
      → run_migrations ms release fault faults (inspect (λ i. false) f) f
        ≡ finish_run fault (length ms) release (run_from faults v (drop v ms) f)
  unfolding run_migrations
  run_migrations-at fault faults f v there e h =
      let (old, version) = inspected f there in rw (old, version, e, not_below v (length ms) h) refl

  -- A second boot after the whole run: no step is left, and the stamp is there.
  stamped-again :
      (f : File)
      → IsInspectable f
      → SameEnd
          (run_migrations ms release false no_faults
            (inspect (λ i. false) (stamped_file (length ms) release f))
            (stamped_file (length ms) release f))
          (finish_run false (length ms) release (record { ok = true; file = f; steps = [] }))
  unfolding stamped_file finish_run stamp run_from
  stamped-again f h =
      let (there, at, twice) = stamped-stored (length ms) release f.db.app_state h.2 in
      rw
        (
          run_migrations-at false no_faults (stamped_file (length ms) release f) (length ms)
              (h.0, h.1, there) at (omega arith),
          drop_all (length ms) ms (omega arith),
          there,
          h.2,
          twice,
        )
        (refl, refl)

  module _ (faults : ℕ → StepFaults) (reads : (i : ℕ) → (faults i).read ≡ false) (fault : Bool)
      (f : File) (seeded : IsInspectable f)
      (known : stored_version f.db.app_state ≤ length ms) where
    abbrev second_of : File → Run
    second_of g = run_migrations ms release false no_faults (inspect (λ i. false) g) g

    abbrev whole_run : Run
    whole_run =
        run_from no_faults (stored_version f.db.app_state) (drop (stored_version f.db.app_state) ms)
          f

    in_range :
        (r : Run)
        → length r.steps ≤ length (drop (stored_version f.db.app_state) ms)
        → stored_version f.db.app_state + length r.steps ≤ length ms
    in_range r short = let left = length-drop (stored_version f.db.app_state) ms in omega arith

    -- The file of the loop is taken up.
    after_loop :
        (r : Run)
        → IsRun faults reads
            (stored_version f.db.app_state)
            (drop (stored_version f.db.app_state) ms)
            r
        → Resumes
            (stored_version f.db.app_state)
            (drop (stored_version f.db.app_state) ms)
            r
            whole_run
        → SameEnd (second_of r.file) (finish_run false (length ms) release whole_run)
    after_loop r (short, all, (there, at)) (ok, file, steps) =
        let s = stored_version f.db.app_state in
        let done = length r.steps in
        rw
          (
            run_migrations-at false no_faults r.file (s + done) there at (in_range r short),
            ← drop-drop s done ms,
          )
          (finish_run-SameEnd false (length ms) release _ whole_run (ok, file))

    after_stamp :
        (r : Run)
        → IsRun faults reads
            (stored_version f.db.app_state)
            (drop (stored_version f.db.app_state) ms)
            r
        → Resumes
            (stored_version f.db.app_state)
            (drop (stored_version f.db.app_state) ms)
            r
            whole_run
        → r.ok ≡ true
        → SameEnd
            (second_of (stamped_file (length ms) release r.file))
            (finish_run false (length ms) release whole_run)
    unfolding run_from
    after_stamp r (short, all, (there, at)) (ok, file, steps) ran =
        let none_left =
          drop_all (length r.steps) (drop (stored_version f.db.app_state) ms)
            (le_of_eq (sym (all ran))) in
        let again = stamped-again r.file there in
        let same =
          finish_run-SameEnd false (length ms) release
            (record { ok = true; file = r.file; steps = [] }) whole_run
            (rw none_left at ok, rw none_left at file) in
        (again.0 ∙ same.0, again.1 ∙ same.1)

    -- A run of the migrations that stops anywhere among them, or at the stamp after them, loses
    -- nothing: the next run, on the file that is left and from the version that the inspection reads
    -- there, which meets no fault, ends as one undisturbed run would have, with the same file, for
    -- any list of migrations each of which either fails or does what it does without faults and
    -- keeps the row of the state and the tables, if the file has the tables, the columns of the
    -- version and that row, its version is known, and no search of a column and no inspection fails.
    pub reboot-completes :
        let once = run_migrations ms release fault faults (inspect (λ i. false) f) f in
        let again = inspect (λ i. false) once.file in
        let twice = run_migrations ms release false no_faults again once.file in
        let whole = run_migrations ms release false no_faults (inspect (λ i. false) f) f in
        (twice.ok ≡ whole.ok) × (twice.file ≡ whole.file)
    reboot-completes =
        let s = stored_version f.db.app_state in
        let r = run_from faults s (drop s ms) f in
        let kept = All-drop IsSound s ms sound in
        let made = run_from-IsRun faults reads s (drop s ms) f kept (seeded, refl) in
        let resumes = run_from-Resumes faults reads s (drop s ms) f kept in
        let once = run_migrations-at fault faults f s seeded refl known in
        rw (run_migrations-at false no_faults f s seeded refl known, once)
          (elim (finish_run-file fault (length ms) release r) [
            | inl loop ↦ rw loop (after_loop r made resumes)
            | inr (ran, stamped_too) ↦ rw stamped_too (after_stamp r made resumes ran)
          ])
