-- ===== src/Server/Requests.antt =====
-- The routes of main.go, as the requests that they hand to the handlers; a body that does not bind
-- is `none`.
use librelock_server.Common.{Text, ℕ, Bool, Option}
use librelock_server.Handlers.Auth.Requests.{RegisterRequest, LoginRequest}
use librelock_server.Handlers.Invite.{InviteRequest}
use librelock_server.Handlers.OrgMembership.{GrantRequest}
use librelock_server.Handlers.OrgUsers.{Manage}
use librelock_server.Handlers.Organization.Requests.{Branding}
use librelock_server.Handlers.Personal.Requests.{Personal}
use librelock_server.Handlers.Settings.Account.{PasswordRequest, KeypairRequest}
use librelock_server.Handlers.Settings.Instance.{SwitchRequest}
use librelock_server.Handlers.Shared.Requests.{Shared}

-- The group /settings
pub data Settings : Type 0 where
  put_username put_theme : Option Text → Settings
  put_password : Option PasswordRequest → Settings
  put_keypair : Option KeypairRequest → Settings
  delete_own_account : Option Text → Settings
  put_mode : Option SwitchRequest → Settings
  get_instance : Settings
  put_sign_up : Option Bool → Settings

-- The group /organization of the administrators
pub data Admin : Type 0 where
  change_branding : Branding → Admin
  get_users get_invites get_members : Admin
  manage_user : ℕ → Manage → Admin
  -- with the code that IssueCode(16) draws for it
  post_invite : (code : Text) → Option InviteRequest → Admin
  delete_invites : (scope : Text) → Admin
  delete_invite : ℕ → Admin
  get_audit : (limit offset : Text) → Admin
  post_member : Option GrantRequest → Admin
  delete_member : ℕ → Admin

-- What needs a session
pub data Protected : Type 0 where
  log_out get_me get_shared_key : Protected
  own : Personal → Protected
  settings : Settings → Protected
  shared_vault : Shared → Protected
  administer : Admin → Protected

pub data Api : Type 0 where
  -- an OPTIONS request, to any path
  preflight : Api
  get_status get_version get_branding get_logo : Api
  get_kdf : Text → Api
  post_register : Option RegisterRequest → Api
  post_login : Option LoginRequest → Api
  protected : Protected → Api
