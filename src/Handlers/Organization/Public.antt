-- ===== src/Handlers/Organization/Public.antt =====
-- `Show` and `Logo` of handlers/organization.go, which anyone may call.
use librelock_server.Common.{
  ◌==◌, if◌then◌else◌, length, text, Bool, false, not, none, some, [], Option,
}
use librelock_server.AppMode.{Provider, is_organization}
use librelock_server.Env.{Env}
use librelock_server.Handlers.Organization.Row.{get_or_create, not_loaded, org_payload}
use librelock_server.Http.{OrgPayload, Reply, reply, empty, organization_info, logo}
use librelock_server.Models.{Db, Policy, anyone, personal, nobody, has_logo, Organization}

-- `personalRegistration`: a count that fails is 0.
unfoldable pub personal_registration : Bool → Provider → Db → Policy
personal_registration fault p db =
    if p.open_reg
    then anyone
    else if (if fault then 0 else length db.users) == 0
    then anyone
    else nobody

-- `personalPayload`; the zero time is 0.
unfoldable pub personal_payload : Bool → Provider → Db → OrgPayload
personal_payload fault p db = record {
  name = text "LibreLock";
  support_email = [];
  support_url = [];
  login_message = [];
  has_logo = false;
  logo_updated_at = 0;
  mode = personal;
  registration = personal_registration fault p db;
  auto_grant_shared = false;
  member_manage_shared = false;
  member_edit_shared = false;
}

organization_of : Provider → Db → Option (Organization × Db) → Reply × Db
organization_of p db none = (not_loaded, db)
organization_of p db (some found) = (reply 200 (organization_info (org_payload p found.0)), found.1)

-- `Show`
unfoldable pub show_organization : Env → Provider → Db → Reply × Db
unfolding organization_of
show_organization env p db =
    if not (is_organization p.mode)
    then (reply 200 (organization_info (personal_payload (env.fault 0) p db)), db)
    else organization_of p db (get_or_create env db)

unfoldable pub logo_of : Db → Option (Organization × Db) → Reply × Db
logo_of db none = (reply 404 empty, db)
logo_of db (some found) =
    if has_logo found.0
    then (reply 200 (logo found.0.logo_mime_type found.0.logo_data), found.1)
    else (reply 404 empty, found.1)

-- `Logo`
unfoldable pub show_logo : Env → Provider → Db → Reply × Db
unfolding logo_of
show_logo env p db =
    if not (is_organization p.mode)
    then (reply 404 empty, db)
    else logo_of db (get_or_create env db)
