-- ===== src/Handlers/Organization/Policy.antt =====
-- `UpdateRegistration` and `UpdateSharedSettings` of handlers/organization.go.
use librelock_server.Common.{if◌then◌else◌, is_some, Bool, not, ◌||◌, Option, none, some}
use librelock_server.AppMode.{Provider}
use librelock_server.Env.{Env}
use librelock_server.Handlers.Organization.Row.{
  saved, not_loaded, get_or_create, change, org_payload, save_organization,
}
use librelock_server.Http.{Reply, reply, invalid, fail_field, organization_info}
use librelock_server.Models.{
  Organization, Registration, User, Db, same_registration, registration_changed,
  shared_settings_changed,
}

unfoldable pub set_registration : Registration → Organization → Organization
set_registration policy o = record o { registration = policy }

unfoldable pub policy_loaded :
    Env → User → Provider → Registration → Db → Option (Organization × Db) → Reply × Db
unfolding set_registration saved
policy_loaded env u p policy db none = (not_loaded, db)
policy_loaded env u p policy db (some found) =
    if same_registration found.0.registration policy
    then (reply 200 (organization_info (org_payload p found.0)), found.1)
    else saved env u p "Failed to update registration" registration_changed
        (set_registration policy found.0) found.1
        (save_organization (env.fault 2) (set_registration policy found.0) found.1)

-- `UpdateRegistration`
unfoldable pub update_policy : Env → User → Provider → Option Registration → Db → Reply × Db
unfolding policy_loaded
update_policy env u p none db = (reply 422 invalid, db)
update_policy env u p (some policy) db = policy_loaded env u p policy db (get_or_create env db)

pub record SharedSettings : Type 0 where
  pub auto_grant_shared : Option Bool
  pub member_manage_shared : Option Bool
  pub member_edit_shared : Option Bool

abbrev pub or_kept : Option Bool → Bool → Bool
or_kept none old = old
or_kept (some b) old = b

unfoldable pub set_shared : SharedSettings → Organization → Organization
set_shared r o = record o {
  auto_grant_shared = or_kept r.auto_grant_shared o.auto_grant_shared;
  member_manage_shared = or_kept r.member_manage_shared o.member_manage_shared;
  member_edit_shared = or_kept r.member_edit_shared o.member_edit_shared;
}

abbrev pub has_setting : SharedSettings → Bool
has_setting r =
    is_some r.auto_grant_shared || is_some r.member_manage_shared || is_some r.member_edit_shared

-- `UpdateSharedSettings`
unfoldable pub update_shared_settings :
    Env → User → Provider → Option SharedSettings → Db → Reply × Db
update_shared_settings env u p none db = (reply 422 invalid, db)
update_shared_settings env u p (some r) db =
    if not (has_setting r)
    then (fail_field "_" "No setting was provided.", db)
    else change env u p "Failed to update settings" shared_settings_changed (set_shared r) db
