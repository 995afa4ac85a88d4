-- ===== src/Http.antt =====
-- The replies of the handlers: a status and what the JSON body holds.
use librelock_server.Common.{ℕ, Bool, Option, List, Text, String}
use librelock_server.Models.{
  Role, Status, Session, Category, Vault, Mode, Policy, AuditEvent, OrgCategory, OrgVault,
}

-- `publicUser` of handlers/helpers.go
pub record PublicUser : Type 0 where
  pub id : ℕ
  pub username : Text
  pub role : Role
  pub status : Status
  pub theme : Text
  pub kdf_algo : Text
  pub kdf_salt : Text
  pub kdf_iter : ℕ
  pub kdf_memory : ℕ
  pub kdf_parallelism : ℕ
  pub protected_key : Text
  pub public_key : Text
  pub encrypted_private_key : Text
  pub created_at : ℕ

-- `userSummary` of handlers/orgusers.go
pub record UserSummary : Type 0 where
  pub id : ℕ
  pub username : Text
  pub role : Role
  pub status : Status
  pub created_at : ℕ
  pub has_public_key : Bool

-- The parameters that `KDF` of handlers/auth.go answers with.
pub record KdfParams : Type 0 where
  pub algo : Text
  pub salt : Text
  pub iter : ℕ
  pub memory : ℕ
  pub parallelism : ℕ

pub data InviteStatus : Type 0 where
  used expired pending : InviteStatus

-- `inviteSummary` of handlers/invite.go
pub record InviteSummary : Type 0 where
  pub id : ℕ
  pub note : Text
  pub status : InviteStatus
  pub created_by : ℕ
  pub expires_at : ℕ
  pub used_at : Option ℕ
  pub created_at : ℕ

-- One member of `ListMemberships` in handlers/orgmembership.go
pub record Member : Type 0 where
  pub user_id : ℕ
  pub username : Text
  pub role : Role
  pub status : Status
  pub public_key : Text
  pub has_access : Bool

-- `orgPayload` of handlers/organization.go
pub record OrgPayload : Type 0 where
  pub name : Text
  pub support_email : Text
  pub support_url : Text
  pub login_message : Text
  pub has_logo : Bool
  pub logo_updated_at : ℕ
  pub mode : Mode
  pub registration : Policy
  pub auto_grant_shared : Bool
  pub member_manage_shared : Bool
  pub member_edit_shared : Bool

-- `errors` is the map of one field to one message; `invalid` is the errors of the binding tags.
pub data Body : Type 0 where
  empty invalid : Body
  message error : String → Body
  errors : String → String → Body
  user : PublicUser → Body
  user_summary : UserSummary → Body
  user_summaries : List UserSummary → Body
  kdf : KdfParams → Body
  mode : Mode → Body
  sign_up : (is_open : Bool) → Body
  instance_settings : (registration_open is_first : Bool) → (first_username : Text) → Body
  sessions : List Session → Body
  entries : List Vault → Body
  entry : Vault → Body
  org_entries : List OrgVault → Body
  org_entry : OrgVault → Body
  categories : List Category → Body
  category : Category → Body
  org_categories : List OrgCategory → Body
  org_category : OrgCategory → Body
  invite : InviteSummary → (token : Text) → Body
  invites : List InviteSummary → Body
  deleted : ℕ → Body
  members : List Member → Body
  membership : ℕ → Body
  wrapped_key : Text → Body
  events : List AuditEvent → (total : ℕ) → Body
  organization_info : OrgPayload → Body
  version : Text → Body
  logo : (mime : Text) → (bytes : List ℕ) → Body

pub record Reply : Type 0 where
  pub status : ℕ
  pub body : Body

abbrev pub reply : ℕ → Body → Reply
reply status body = record { status = status; body = body }

abbrev pub fail : ℕ → String → Reply
fail status why = record { status = status; body = error why }

abbrev pub fail_field : String → String → Reply
fail_field field why = record { status = 422; body = errors field why }
