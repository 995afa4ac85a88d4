-- ===== src/Handlers/Helpers.antt =====
-- handlers/helpers.go, `recordAudit` of handlers/audit.go and `userSummary` of handlers/orgusers.go.
use librelock_server.Common.{
  head?, ltb, ◌==◌, if◌then◌else◌, count, least, Text, is_empty, ℕ, Bool, true, false, not, ◌&&◌,
  ◌||◌, Option, none, some, List, [], ◌∷◌, ◌++◌,
}
use librelock_server.Http.{PublicUser, UserSummary}
use librelock_server.Models.{
  is_admin_role, is_active, User, Organization, Action, AuditEvent, Db, rows, map_table, Write,
  done, first, has_key,
}

-- First on a table: an error, of which a missing row is one kind, is `none`.
abbrev pub find {ℓ} : {A : Type ℓ} → Bool → (A → ℕ) → (A → Bool) → List A → Option A
find fault key p xs = if fault then none else first key p xs

-- The database after a write whose error is not looked at.
abbrev pub or_same : Db → Write → Db
or_same db (done db') = db'
or_same db _ = db

-- The singleton row: `First(&org, "id = ?", OrgSingletonID)`
abbrev pub find_organization : Bool → Db → Option Organization
find_organization fault db = if fault then none else head? (rows db.organization)

-- `permitsShared`
unfoldable pub permits_shared : Bool → User → Db → (Organization → Bool) → Bool
permits_shared fault user db allowed =
    if is_admin_role user.role
    then true
    else elim (find_organization fault db) [ none ↦ false | some org ↦ allowed org ]

abbrev pub can_manage_shared : Organization → Bool
can_manage_shared o = o.member_manage_shared

abbrev pub can_edit_shared : Organization → Bool
can_edit_shared o = o.member_edit_shared

abbrev pub can_curate_shared : Organization → Bool
can_curate_shared o = o.member_manage_shared && o.member_edit_shared

-- `created_at asc, id asc`
abbrev pub is_older : User → User → Bool
is_older a b = ltb a.created_at b.created_at || a.created_at == b.created_at && ltb a.id b.id

-- `firstAccount`
unfoldable pub first_account : Bool → Db → Option User
first_account fault db = if fault then none else least is_older db.users

-- `isFirstAccount`
unfoldable pub is_first_account : Bool → Db → ℕ → Bool
is_first_account fault db user_id = elim (first_account fault db) [
  | none ↦ false
  | some first ↦ first.id == user_id
]

abbrev pub is_active_admin : User → Bool
is_active_admin u = is_admin_role u.role && is_active u.status

-- `countActiveAdmins`: a count that fails is 0.
unfoldable pub count_active_admins : Bool → Db → ℕ
count_active_admins fault db = if fault then 0 else count is_active_admin db.users

-- `publicUser`
unfoldable pub public_user : User → PublicUser
public_user u = record {
  id = u.id;
  username = u.username;
  role = u.role;
  status = u.status;
  theme = u.theme;
  kdf_algo = u.kdf_algo;
  kdf_salt = u.kdf_salt;
  kdf_iter = u.kdf_iter;
  kdf_memory = u.kdf_memory;
  kdf_parallelism = u.kdf_parallelism;
  protected_key = u.protected_key;
  public_key = u.public_key;
  encrypted_private_key = u.encrypted_private_key;
  created_at = u.created_at;
}

-- `userSummary`
unfoldable pub user_summary_of : User → UserSummary
user_summary_of u = record {
  id = u.id;
  username = u.username;
  role = u.role;
  status = u.status;
  created_at = u.created_at;
  has_public_key = not (is_empty u.public_key);
}

-- `recordAudit`: best effort, an error is only logged.
unfoldable pub record_audit : Bool → ℕ → ℕ → Action → User → Option ℕ → Text → Db → Db
record_audit fault id now action actor target_id target_name db =
    if fault || has_key AuditEvent.id id (rows db.audit_events) then db else record db {
      audit_events =
          map_table
            (λ events.
              events
              ++ record {
                id = id;
                action = action;
                actor_id = actor.id;
                actor_name = actor.username;
                target_id = target_id;
                target_name = target_name;
                created_at = now;
              }
                ∷ [])
            db.audit_events;
    }
