-- ===== src/Handlers/Organization/Row.antt =====
-- The branding row of handlers/organization.go: how a handler loads it, writes it and answers. Statement 0
-- of a handler is the search of the row, 1 its creation, 2 the write and 3 the audit.
use librelock_server.Common.{if◌then◌else◌, String, Bool, Option, none, some, List, [], ◌∷◌}
use librelock_server.AppMode.{Provider, default_branding}
use librelock_server.Env.{Env}
use librelock_server.Handlers.Helpers.{record_audit}
use librelock_server.Http.{Reply, OrgPayload, fail, reply, organization_info}
use librelock_server.Models.{
  by_invite, Organization, Registration, Db, Policy, User, Action, anyone, has_logo, map_table,
  invited, open_to_all, Table,
}

-- What `getOrCreate` does with what the search finds.
unfoldable pub or_created : Env → Db → Table Organization → Option (Organization × Db)
or_created env db none = none
or_created env db (some (o ∷ os)) = some (o, db)
or_created env db (some []) =
    if env.fault 1
    then none
    else some (
      default_branding (env.clock 0),
      record db { organization = some (default_branding (env.clock 0) ∷ []) },
    )

-- `getOrCreate`; `none` is an error, of which a missing table is one.
unfoldable pub get_or_create : Env → Db → Option (Organization × Db)
unfolding or_created
get_or_create env db = if env.fault 0 then none else or_created env db db.organization

-- `registrationOrDefault`
abbrev pub policy_of : Registration → Policy
policy_of open_to_all = anyone
policy_of by_invite = invited

-- `publicOrg` and `orgPayload`
unfoldable pub org_payload : Provider → Organization → OrgPayload
org_payload p o = record {
  name = o.name;
  support_email = o.support_email;
  support_url = o.support_url;
  login_message = o.login_message;
  has_logo = has_logo o;
  logo_updated_at = o.updated_at;
  mode = p.mode;
  registration = policy_of o.registration;
  auto_grant_shared = o.auto_grant_shared;
  member_manage_shared = o.member_manage_shared;
  member_edit_shared = o.member_edit_shared;
}

abbrev pub not_loaded : Reply
not_loaded = fail 500 "Failed to load organization"

abbrev put_row : Organization → List Organization → List Organization
put_row o [] = o ∷ []
put_row o (_ ∷ os) = o ∷ os

-- gorm's Save of the row; `none` is an error.
unfoldable pub save_organization : Bool → Organization → Db → Option Db
save_organization fault o db =
    if fault
    then none
    else some (record db { organization = map_table (put_row o) db.organization })

-- After the write: the audit and the reply. `why` is the message where the write failed.
unfoldable pub saved :
    Env → User → Provider → String → Action → Organization → Db → Option Db → Reply × Db
saved env u p why action o db none = (fail 500 why, db)
saved env u p why action o db (some db') = (
  reply 200 (organization_info (org_payload p o)),
  record_audit (env.fault 3) (env.uuid 0) (env.clock 2) action u none [] db',
)

-- The handler from the loaded row on.
unfoldable pub change_loaded :
    Env
    → User
    → Provider
    → String
    → Action
    → (Organization → Organization)
    → Db
    → Option (Organization × Db)
    → Reply × Db
unfolding saved
change_loaded env u p why action f db none = (not_loaded, db)
change_loaded env u p why action f db (some found) =
    saved env u p why action (f found.0) found.1
      (save_organization (env.fault 2) (f found.0) found.1)

-- Load the row, change it, write it.
unfoldable pub change :
    Env → User → Provider → String → Action → (Organization → Organization) → Db → Reply × Db
unfolding change_loaded
change env u p why action f db = change_loaded env u p why action f db (get_or_create env db)
