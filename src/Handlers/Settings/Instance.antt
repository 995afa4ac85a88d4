-- ===== src/Handlers/Settings/Instance.antt =====
-- The handlers of handlers/settings.go that change the whole instance.
pub mod Laws
mod Tests
use librelock_server.Common.{
  ◌==◌, if◌then◌else◌, update, Text, is_empty, ℕ, ◌+◌, Bool, not, Option, none, some,
}
use librelock_server.Crypto.Password.{verify_password}
use librelock_server.Env.{Env}
use librelock_server.Http.{
  Reply, reply, fail, fail_field, mode, sign_up, instance_settings, invalid,
}
use librelock_server.Models.{
  owner, member, is_owner, User, Mode, personal, organization, mode_changed, Db, delete_users,
}
use librelock_server.AppMode.{
  Provider, Call, is_organization, set_registration_open, enable_organization, revert_to_personal,
}
use librelock_server.Handlers.Helpers.{first_account, is_first_account, record_audit}
use librelock_server.Handlers.Auth.Login.{is_match}
use librelock_server.Handlers.Settings.Account.{set_user}

-- What a handler leaves.
pub record Answer : Type 0 where
  pub reply : Reply
  pub provider : Provider
  pub db : Db

abbrev pub answer : Reply → Provider → Db → Answer
answer r p db = record { reply = r; provider = p; db = db }

pub record SwitchRequest : Type 0 where
  pub mode : Mode
  pub auth_credential : Text

-- `confirmPassword`; `none` lets the request go on.
unfoldable pub confirm_password : Env → User → Text → Option Reply
confirm_password env u credential =
    if is_empty credential
    then some (fail_field "auth_credential" "Password confirmation is required.")
    else if is_match (verify_password env.id_key credential u.auth_hash)
    then none
    else some (fail 403 "Invalid credentials")

abbrev pub not_first : Reply
not_first = fail 403 "Only the first account created on this instance can change this."

-- The numbers of what a part of the handler meets start here.
abbrev shifted : ℕ → Env → Env
shifted k env = record env {
  fault = λ i. env.fault (k + i);
  clock = λ i. env.clock (k + i);
  uuid = λ i. env.uuid (k + i);
}

enabled : Env → User → Call → Answer
enabled env u c =
    if c.ok
    then answer (reply 200 (mode c.provider.mode)) c.provider (
        record_audit (env.fault 9) (env.uuid 0) (env.clock 2) mode_changed u (some u.id) u.username
          c.db)
    else answer (fail 500 "Failed to switch to organization mode") c.provider c.db

-- The direction of `SwitchMode` that enables organization mode. The statements of
-- `EnableOrganization` are those from 1 on.
unfoldable pub switch_to_organization : Env → User → Text → Provider → Db → Answer
unfolding enabled
switch_to_organization env u credential p db =
    if is_organization p.mode
    then answer (reply 200 (mode p.mode)) p db
    else if not (is_first_account (env.fault 0) db u.id)
    then answer not_first p db
    else elim (confirm_password env u credential) [
      | some why ↦ answer why p db
      | none ↦ enabled env u (enable_organization (shifted 1 env) u.id p db)
    ]

abbrev keep_if : Bool → Db → Db → Db
keep_if fault old new = if fault then old else new

reverted : Call → Answer
reverted c =
    if c.ok
    then answer (reply 200 (mode c.provider.mode)) c.provider c.db
    else answer (fail 500 "Failed to switch to personal mode") c.provider c.db

-- `revertToPersonal` of the handler; its statement 1 is the caller's role, whose error is not
-- looked at, and those of `RevertToPersonal` are those from 2 on.
unfoldable pub revert : Env → User → Text → Provider → Db → Answer
unfolding reverted
revert env u credential p db =
    if not (is_organization p.mode)
    then answer (reply 200 (mode p.mode)) p db
    else if not (is_owner u.role)
    then answer (fail 403 "Only the organization owner can do this") p db
    else elim (confirm_password env u credential) [
      | some why ↦ answer why p db
      | none ↦
          if env.fault 0
          then answer (fail 500 "Failed to remove other accounts") p db
          else let alone = delete_users (λ v. not (v.id == u.id)) db in
            reverted (
              revert_to_personal (shifted 2 env) p (
                keep_if (env.fault 1) alone
                  (set_user u.id (λ v. record v { role = member }) alone)))
    ]

-- `SwitchMode`
unfoldable pub switch_mode : Env → User → Option SwitchRequest → Provider → Db → Answer
switch_mode env u none p db = answer (reply 422 invalid) p db
switch_mode env u (some r) p db =
    if is_organization r.mode
    then switch_to_organization env u r.auth_credential p db
    else revert env u r.auth_credential p db

-- `ShowInstance`; nothing is written.
unfoldable pub show_instance : Env → User → Provider → Db → Reply
show_instance env u p db = elim (first_account (env.fault 0) db) [
  | none ↦ fail 500 "Failed to load instance"
  | some first ↦ reply 200 (instance_settings p.open_reg (first.id == u.id) first.username)
]

registration_set : Bool → Call → Answer
registration_set allow c =
    if c.ok
    then answer (reply 200 (sign_up allow)) c.provider c.db
    else answer (fail 500 "Failed to update registration") c.provider c.db

-- `UpdateRegistration` of the settings
unfoldable pub update_registration : Env → User → Option Bool → Provider → Db → Answer
unfolding registration_set
update_registration env u request p db =
    if is_organization p.mode
    then answer (fail 403 "Organization instances manage registration from the Organization area.")
        p db
    else if not (is_first_account (env.fault 0) db u.id)
    then answer not_first p db
    else elim request [
      | none ↦ answer (reply 422 invalid) p db
      | some allow ↦ registration_set allow (set_registration_open (env.fault 1) allow p db)
    ]
