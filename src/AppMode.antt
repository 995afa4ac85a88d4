-- ===== src/AppMode.antt =====
-- appmode/appmode.go. The provider's lock makes its methods atomic. A failed AutoMigrate creates
-- no table.
pub mod Laws
mod Tests
use librelock_server.Common.{
  head?, ◌==◌, if◌then◌else◌, is_some, any, update, text, ℕ, Bool, true, false, not, ◌&&◌, ◌||◌,
  Option, none, some, List, [], ◌∷◌,
}
use librelock_server.Env.{Env}
use librelock_server.Models.{
  Role, owner, admin, is_owner, User, AppState, Mode, personal, organization, by_invite,
  Organization, Db, Table, map_table,
}

pub record Provider : Type 0 where
  pub mode : Mode
  pub open_reg : Bool

-- What a method leaves: whether it returned no error, the provider and the database.
pub record Call : Type 0 where
  pub ok : Bool
  pub provider : Provider
  pub db : Db

abbrev pub is_organization : Mode → Bool
is_organization organization = true
is_organization personal = false

-- The row that `persist` creates where there is none.
abbrev fresh_state : Mode → AppState
fresh_state m = record {
  mode = m;
  server_secret = [];
  allow_registration = false;
  schema_version = 0;
  app_version = [];
}

abbrev pub set_mode : Mode → List AppState → List AppState
set_mode m [] = fresh_state m ∷ []
set_mode m (st ∷ sts) = record st { mode = m } ∷ sts

abbrev is_nil {ℓ} : {A : Type ℓ} → List A → Bool
is_nil [] = true
is_nil (_ ∷ _) = false

-- `persist`; `none` is an error. The second statement runs only if the first changed no row.
unfoldable pub persist : Bool → Bool → Mode → Db → Option Db
persist fault fault' m db =
    if fault || is_nil db.app_state && fault'
    then none
    else some (record db { app_state = set_mode m db.app_state })

abbrev provider_of : AppState → Provider
provider_of st = record { mode = st.mode; open_reg = st.allow_registration }

abbrev pub or_unchanged : Db → Option Db → Db
or_unchanged db none = db
or_unchanged db (some db') = db'

-- `New`: statement 0 is the search of the row, which an error of any kind makes a missing one.
unfoldable pub new_provider : Env → Db → Provider × Db
unfolding persist
new_provider env db = elim (if env.fault 0 then none else head? db.app_state) [
  | some st ↦ (provider_of st, db)
  | none ↦
      if is_some db.organization
      then (
        record { mode = organization; open_reg = false },
        or_unchanged db (persist (env.fault 1) (env.fault 2) organization db),
      )
      else (record { mode = personal; open_reg = false }, db)
]

abbrev pub set_allow : Bool → List AppState → List AppState
set_allow allow [] = []
set_allow allow (st ∷ sts) = record st { allow_registration = allow } ∷ sts

-- `SetRegistrationOpen`
unfoldable pub set_registration_open : Bool → Bool → Provider → Db → Call
set_registration_open fault allow p db =
    if fault then record { ok = false; provider = p; db = db } else record {
      ok = true;
      provider = record p { open_reg = allow };
      db = record db { app_state = set_allow allow db.app_state };
    }

abbrev create_table {ℓ} : {A : Type ℓ} → Table A → Table A
create_table none = some []
create_table (some r) = some r

-- The AutoMigrate of the tables of organization mode
unfoldable pub migrate_org : Db → Db
migrate_org db = record db {
  organization = create_table db.organization;
  invites = create_table db.invites;
  audit_events = create_table db.audit_events;
  memberships = create_table db.memberships;
  org_categories = create_table db.org_categories;
  org_vaults = create_table db.org_vaults;
}

abbrev pub set_role : Role → User → User
set_role r u = record u { role = r }

-- The two updates that leave the actor as the only owner.
unfoldable pub promote : ℕ → Db → Db
promote actor db = record db { users = update (λ u. u.id == actor) (set_role owner) db.users }

unfoldable pub demote_others : ℕ → Db → Db
demote_others actor db = record db {
  users = update (λ u. not (u.id == actor) && is_owner u.role) (set_role admin) db.users;
}

abbrev pub default_branding : ℕ → Organization
default_branding now = record {
  name = text "LibreLock";
  logo_data = [];
  logo_mime_type = [];
  support_email = [];
  support_url = [];
  login_message = [];
  registration = by_invite;
  auto_grant_shared = false;
  member_manage_shared = false;
  member_edit_shared = false;
  updated_at = now;
}

seed_row : Bool → ℕ → List Organization → List Organization
seed_row fault now [] = if fault then [] else default_branding now ∷ []
seed_row fault now (o ∷ os) = o ∷ os

-- The branding row, where the search finds that there is none; an error is not looked at.
unfoldable pub seed_branding : Bool → Bool → ℕ → Db → Db
unfolding seed_row
seed_branding fault fault' now db =
    if fault
    then db
    else record db { organization = map_table (seed_row fault' now) db.organization }

abbrev stopped : Provider → Db → Call
stopped p db = record { ok = false; provider = p; db = db }

-- From the branding row on.
unfoldable pub finish_enable : Env → Provider → Db → Call
unfolding persist
finish_enable env p db =
    let db' = seed_branding (env.fault 4) (env.fault 5) (env.clock 0) db in
    elim (persist (env.fault 6) (env.fault 7) organization db') [
      | none ↦ stopped p db'
      | some db'' ↦ record { ok = true; provider = record p { mode = organization }; db = db'' }
    ]

unfoldable pub crown : Env → ℕ → Provider → Db → Call
unfolding finish_enable
crown env actor p db =
    if env.fault 2
    then stopped p db
    else if not (any (λ u. u.id == actor) db.users)
    then stopped p db
    else if env.fault 3
    then stopped p (promote actor db)
    else finish_enable env p (demote_others actor (promote actor db))

-- `EnableOrganization`, whose callers all name an actor
unfoldable pub enable_organization : Env → ℕ → Provider → Db → Call
unfolding crown
enable_organization env actor p db =
    if is_organization p.mode
    then record { ok = true; provider = p; db = db }
    else if env.fault 0 || not (any (λ u. u.id == actor) db.users)
    then stopped p db
    else if env.fault 1
    then stopped p db
    else crown env actor p (migrate_org db)

-- The loop that drops the tables, from the table with that number on.
unfoldable pub drop_tables : (ℕ → Bool) → Db → Bool × Db
drop_tables fault db =
    if fault 3
    then (false, db)
    else let db1 = record db { org_vaults = none } in
      if fault 4
      then (false, db1)
      else let db2 = record db1 { org_categories = none } in
        if fault 5
        then (false, db2)
        else let db3 = record db2 { memberships = none } in
          if fault 6
          then (false, db3)
          else let db4 = record db3 { audit_events = none } in
            if fault 7
            then (false, db4)
            else let db5 = record db4 { invites = none } in
              if fault 8 then (false, db5) else (true, record db5 { organization = none })

-- From the dropped tables on.
unfoldable pub finish_revert : (ℕ → Bool) → Provider → Db → Call
unfolding drop_tables
finish_revert fault p db =
    let (dropped, db') = drop_tables fault db in
    if dropped
    then record { ok = true; provider = record p { mode = personal }; db = db' }
    else stopped p db'

-- `RevertToPersonal`
unfoldable pub revert_to_personal : Env → Provider → Db → Call
unfolding persist set_registration_open finish_revert
revert_to_personal env p db =
    if not (is_organization p.mode)
    then record { ok = true; provider = p; db = db }
    else elim (persist (env.fault 0) (env.fault 1) personal db) [
      | none ↦ stopped p db
      | some db1 ↦
          let closed = set_registration_open (env.fault 2) false p db1 in
          if closed.ok then finish_revert env.fault closed.provider closed.db else stopped p db1
    ]
