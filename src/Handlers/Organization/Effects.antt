-- ===== src/Handlers/Organization/Effects.antt =====
-- What a request on the branding row may change.
use librelock_server.Common.{
  some_injective, if◌then◌else◌, Bool-cases, Text, ℕ, String, ◌≡◌, refl, sym, ap, subst, ◌∙◌, ◌⊎◌,
  inl, inr, Bool, true, false, Option, none, some, List, [], ◌∷◌, arith, is_some,
}
use librelock_server.AppMode.{Provider, default_branding}
use librelock_server.Env.{Env}
use librelock_server.Handlers.Helpers.{record_audit}
use librelock_server.Handlers.Organization.Row.{
  change, get_or_create, saved, save_organization, or_created, change_loaded,
}
use librelock_server.Models.{Db, Action, Organization, User, rows, Table, AuditEvent}

-- The row that a handler works on, and the rows after it.
abbrev pub Loaded : Env → Db → Organization → List Organization → Type 0
Loaded env db o os =
    (rows db.organization ≡ o ∷ os)
    ⊎ ((rows db.organization ≡ []) × (o ≡ default_branding (env.clock 0)) × (os ≡ []))

-- What `getOrCreate` gives: the row, and the database that holds it.
abbrev pub IsLoaded : Env → Db → Organization × Db → Type 0
IsLoaded env db found =
    (os : List Organization) × Loaded env db found.0 os
    × (found.1 ≡ record db { organization = some (found.0 ∷ os) })

or_created-IsLoaded :
    (env : Env) (db : Db) (table : Table Organization) (found : Organization × Db)
    → db.organization ≡ table
    → or_created env db table ≡ some found
    → IsLoaded env db found
unfolding or_created
or_created-IsLoaded env db none found t e = cc
or_created-IsLoaded env db (some (o ∷ os)) found t e =
    subst (IsLoaded env db) (some_injective e)
      (os, inl (ap rows t), ap (λ table. record db { organization = table }) t)
or_created-IsLoaded env db (some []) found t e = elim (Bool-cases (env.fault 1)) [
  | inl failed ↦ cc
  | inr fine ↦
      subst (IsLoaded env db) (some_injective (rw fine at e))
        ([], inr (ap rows t, refl, refl), refl)
]

pub get_or_create-IsLoaded :
    (env : Env) (db : Db) (found : Organization × Db)
    → get_or_create env db ≡ some found
    → IsLoaded env db found
unfolding get_or_create
get_or_create-IsLoaded env db found e = elim (Bool-cases (env.fault 0)) [
  | inl failed ↦ absurd (ground arith)
  | inr fine ↦ or_created-IsLoaded env db db.organization found refl (rw fine at e)
]

audited_or_same :
    (skipped : Bool) (db : Db) (events : Table AuditEvent)
    → let db' = if skipped then db else record db { audit_events = events } in
      db' ≡ record db { audit_events = db'.audit_events }
audited_or_same true db events = refl
audited_or_same false db events = refl

-- An event is added, or nothing.
pub record_audit-only :
    (fault : Bool) (id now : ℕ) (action : Action) (actor : User) (t : Option ℕ) (name : Text)
    (db : Db)
    → let db' = record_audit fault id now action actor t name db in
      db' ≡ record db { audit_events = db'.audit_events }
unfolding record_audit
record_audit-only fault id now action actor t name db = audited_or_same _ db _

-- Only the branding row and the audit log differ.
abbrev pub Frame : Db → Db → Type 0
Frame db db' = db' ≡ record db { organization = db'.organization; audit_events = db'.audit_events }

-- The row is left, or changed by `f`.
abbrev pub Touched : Env → (Organization → Organization) → Db → Db → Type 0
Touched env f db db' =
    (db' ≡ db)
    ⊎ ((o : Organization) × (os : List Organization) × Loaded env db o os
        × ((db'.organization ≡ some (o ∷ os)) ⊎ (db'.organization ≡ some (f o ∷ os)))
        × Frame db db')

saved-Touched :
    (env : Env) (u : User) (p : Provider) (why : String) (action : Action)
    (f : Organization → Organization) (o : Organization) (os : List Organization) (db : Db)
    → Loaded env db o os
    → let db1 = record db { organization = some (o ∷ os) } in
      Touched env f db
        (saved env u p why action (f o) db1 (save_organization (env.fault 2) (f o) db1)).1
unfolding saved save_organization
saved-Touched env u p why action f o os db l = elim (Bool-cases (env.fault 2)) [
  | inl failed ↦ rw failed (inr (o, os, l, inl refl, refl))
  | inr fine ↦
      let db2 = record db { organization = some (f o ∷ os) } in
      let db3 = record_audit (env.fault 3) (env.uuid 0) (env.clock 2) action u none [] db2 in
      let e = record_audit-only (env.fault 3) (env.uuid 0) (env.clock 2) action u none [] db2 in
      rw fine (
        inr (
          o,
          os,
          l,
          inr (ap Db.organization e),
          e
              ∙ ap (λ table. record db { organization = table; audit_events = db3.audit_events })
                  (sym (ap Db.organization e)),
        ))
]

pub loaded-Touched :
    (env : Env) (f : Organization → Organization) (db : Db) (found : Organization × Db)
    → get_or_create env db ≡ some found
    → Touched env f db found.1
loaded-Touched env f db found e =
    let (os, l, s) = get_or_create-IsLoaded env db found e in
    subst (Touched env f db) (sym s) (inr (found.0, os, l, inl refl, refl))

pub saved_loaded-Touched :
    (env : Env) (u : User) (p : Provider) (why : String) (action : Action)
    (f : Organization → Organization) (db : Db) (found : Organization × Db)
    → get_or_create env db ≡ some found
    → Touched env f db
        (saved env u p why action
          (f found.0)
          found.1
          (save_organization (env.fault 2) (f found.0) found.1)).1
saved_loaded-Touched env u p why action f db found e =
    let (os, l, s) = get_or_create-IsLoaded env db found e in
    subst
      (λ db1.
        Touched env f db
          (saved env u p why action (f found.0) db1
            (save_organization (env.fault 2) (f found.0) db1)).1)
      (sym s) (saved-Touched env u p why action f found.0 os db l)

change_loaded-Touched :
    (env : Env) (u : User) (p : Provider) (why : String) (action : Action)
    (f : Organization → Organization) (db : Db) (loaded : Option (Organization × Db))
    → get_or_create env db ≡ loaded
    → Touched env f db (change_loaded env u p why action f db loaded).1
unfolding change_loaded
change_loaded-Touched env u p why action f db none e = inl refl
change_loaded-Touched env u p why action f db (some found) e =
    saved_loaded-Touched env u p why action f db found e

pub change-Touched :
    (env : Env) (u : User) (p : Provider) (why : String) (action : Action)
    (f : Organization → Organization) (db : Db)
    → Touched env f db (change env u p why action f db).1
unfolding change
change-Touched env u p why action f db =
    change_loaded-Touched env u p why action f db (get_or_create env db) refl

saved-writes :
    (env : Env) (u : User) (p : Provider) (why : String) (action : Action) (o o' : Organization)
    (os : List Organization) (db : Db)
    → let db1 = record db { organization = some (o ∷ os) } in
      let out = saved env u p why action o' db1 (save_organization (env.fault 2) o' db1) in
      out.0.status ≡ 200 → out.1.organization ≡ some (o' ∷ os)
unfolding saved save_organization
saved-writes env u p why action o o' os db ok = elim (Bool-cases (env.fault 2)) [
  | inl failed ↦ absurd (ground arith)
  | inr fine ↦
      let db2 = record db { organization = some (o' ∷ os) } in
      rw fine (
        ap Db.organization
          (record_audit-only (env.fault 3) (env.uuid 0) (env.clock 2) action u none [] db2))
]

change_loaded-writes :
    (env : Env) (u : User) (p : Provider) (why : String) (action : Action)
    (f : Organization → Organization) (db : Db) (loaded : Option (Organization × Db))
    → get_or_create env db ≡ loaded
    → (change_loaded env u p why action f db loaded).0.status ≡ 200
    → (o : Organization) × (os : List Organization) × Loaded env db o os
      × ((change_loaded env u p why action f db loaded).1.organization ≡ some (f o ∷ os))
unfolding change_loaded
change_loaded-writes env u p why action f db none e ok = absurd (omega arith)
change_loaded-writes env u p why action f db (some found) e ok =
    let (os, l, s) = get_or_create-IsLoaded env db found e in
    (found.0, os, l, rw s (saved-writes env u p why action found.0 (f found.0) os db (rw s at ok)))

-- A change that answers with success has written the row.
pub change-writes :
    (env : Env) (u : User) (p : Provider) (why : String) (action : Action)
    (f : Organization → Organization) (db : Db)
    → (change env u p why action f db).0.status ≡ 200
    → (o : Organization) × (os : List Organization) × Loaded env db o os
      × ((change env u p why action f db).1.organization ≡ some (f o ∷ os))
unfolding change
change-writes env u p why action f db ok =
    change_loaded-writes env u p why action f db (get_or_create env db) refl ok

saved-status :
    (env : Env) (u : User) (p : Provider) (why : String) (action : Action) (o : Organization)
    (db : Db)
    → env.fault 2 ≡ false
    → (saved env u p why action o db (save_organization (env.fault 2) o db)).0.status ≡ 200
unfolding saved save_organization
saved-status env u p why action o db f = rw f refl

or_created-status :
    (env : Env) (u : User) (p : Provider) (why : String) (action : Action)
    (f : Organization → Organization) (db : Db) (table : Table Organization)
    → env.fault 1 ≡ false
    → env.fault 2 ≡ false
    → is_some table ≡ true
    → (change_loaded env u p why action f db (or_created env db table)).0.status ≡ 200
unfolding change_loaded or_created
or_created-status env u p why action f db none f1 f2 t = cc
or_created-status env u p why action f db (some (o ∷ os)) f1 f2 t =
    saved-status env u p why action (f o) db f2
or_created-status env u p why action f db (some []) f1 f2 t =
    rw f1 (saved-status env u p why action (f (default_branding (env.clock 0))) _ f2)

-- Where no statement fails and the table exists, the change succeeds.
pub change-succeeds :
    (env : Env) (u : User) (p : Provider) (why : String) (action : Action)
    (f : Organization → Organization) (db : Db)
    → ((i : ℕ) → env.fault i ≡ false)
    → is_some db.organization ≡ true
    → (change env u p why action f db).0.status ≡ 200
unfolding change get_or_create
change-succeeds env u p why action f db calm t =
    rw (calm 0) (or_created-status env u p why action f db db.organization (calm 1) (calm 2) t)
