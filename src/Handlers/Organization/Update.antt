-- ===== src/Handlers/Organization/Update.antt =====
-- `Update` of handlers/organization.go.
use librelock_server.Common.{
  leb, if◌then◌else◌, length, Text, text, is_empty, trim_space, ℕ, Bool, true, not, ◌&&◌, Option,
  none, some,
}
use librelock_server.AppMode.{Provider}
use librelock_server.Env.{Env}
use librelock_server.Handlers.Organization.Row.{change}
use librelock_server.Http.{Reply, reply, invalid}
use librelock_server.Models.{Organization, User, Db, org_updated}

pub record UpdateRequest : Type 0 where
  pub name : Option Text
  pub support_email : Option Text
  pub support_url : Option Text
  pub login_message : Option Text

abbrev at_most : ℕ → Option Text → Bool
at_most limit none = true
at_most limit (some s) = leb (length s) limit

unfoldable pub is_valid_update : UpdateRequest → Bool
is_valid_update r =
    at_most 200 r.name
    && at_most 200 r.support_email
    && at_most 300 r.support_url
    && at_most 500 r.login_message

abbrev pub name_or_default : Text → Text
name_or_default name = if is_empty name then text "LibreLock" else name

abbrev trimmed : Option Text → Text → Text
trimmed none old = old
trimmed (some s) old = trim_space s

abbrev pub name_given : Option Text → Text → Text
name_given none old = old
name_given (some s) old = name_or_default (trim_space s)

-- The fields that `Update` assigns; Save sets the time of the update.
unfoldable pub edit_organization : UpdateRequest → ℕ → Organization → Organization
edit_organization r now o = record o {
  name = name_given r.name o.name;
  support_email = trimmed r.support_email o.support_email;
  support_url = trimmed r.support_url o.support_url;
  login_message = trimmed r.login_message o.login_message;
  updated_at = now;
}

-- `Update`
unfoldable pub update_organization : Env → User → Provider → Option UpdateRequest → Db → Reply × Db
update_organization env u p none db = (reply 422 invalid, db)
update_organization env u p (some r) db =
    if not (is_valid_update r)
    then (reply 422 invalid, db)
    else change env u p "Failed to update organization" org_updated
        (edit_organization r (env.clock 1)) db
