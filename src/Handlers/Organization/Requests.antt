-- ===== src/Handlers/Organization/Requests.antt =====
-- The routes of main.go that change the branding row.
use librelock_server.Common.{Text, Option}
use librelock_server.AppMode.{Provider}
use librelock_server.Env.{Env}
use librelock_server.Handlers.Organization.Logo.{upload_logo, delete_logo}
use librelock_server.Handlers.Organization.Policy.{
  SharedSettings, update_policy, update_shared_settings,
}
use librelock_server.Handlers.Organization.Update.{UpdateRequest, update_organization}
use librelock_server.Http.{Reply}
use librelock_server.Models.{Registration, User, Db}

-- The handlers behind the administrators' routes; `none` is a body that does not bind.
pub data Branding : Type 0 where
  put_branding : Option UpdateRequest → Branding
  put_logo : Option Text → Branding
  delete_branding_logo : Branding
  put_registration : Option Registration → Branding
  put_settings : Option SharedSettings → Branding

unfoldable pub run_branding : Env → User → Provider → Branding → Db → Reply × Db
run_branding env u p (put_branding r) db = update_organization env u p r db
run_branding env u p (put_logo r) db = upload_logo env u p r db
run_branding env u p delete_branding_logo db = delete_logo env u p db
run_branding env u p (put_registration r) db = update_policy env u p r db
run_branding env u p (put_settings r) db = update_shared_settings env u p r db
