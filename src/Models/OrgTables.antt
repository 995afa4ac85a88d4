-- ===== src/Models/OrgTables.antt =====
-- The rows of the tables that exist in organization mode alone: models/organization.go,
-- models/invite.go, models/audit.go, models/org_membership.go, models/org_category.go and
-- models/org_vault.go.
use librelock_server.Common.{ℕ, Bool, true, false, not, ◌&&◌, Option, Text, is_some, ltb, length}
use librelock_server.Models.Records.{EntryType}

pub data Registration : Type 0 where
  open_to_all by_invite : Registration

abbrev pub is_open : Registration → Bool
is_open open_to_all = true
is_open by_invite = false

abbrev pub same_registration : Registration → Registration → Bool
same_registration open_to_all open_to_all = true
same_registration by_invite by_invite = true
same_registration _ _ = false

-- The three words that a client is told.
pub data Policy : Type 0 where
  anyone invited nobody : Policy

pub record Organization : Type 0 where
  pub name : Text
  pub logo_data : Text
  pub logo_mime_type : Text
  pub support_email : Text
  pub support_url : Text
  pub login_message : Text
  pub registration : Registration
  pub auto_grant_shared : Bool
  pub member_manage_shared : Bool
  pub member_edit_shared : Bool
  pub updated_at : ℕ

abbrev pub has_logo : Organization → Bool
has_logo o = ltb 0 (length o.logo_data)

pub record Invite : Type 0 where
  pub id : ℕ
  pub token_hash : Text
  pub note : Text
  pub created_by : ℕ
  pub expires_at : ℕ
  pub used_at : Option ℕ
  pub created_at : ℕ

abbrev pub is_used : Invite → Bool
is_used i = is_some i.used_at

-- `time.Now().After(i.ExpiresAt)`
abbrev pub is_expired : ℕ → Invite → Bool
is_expired now i = ltb i.expires_at now

abbrev pub is_valid_invite : ℕ → Invite → Bool
is_valid_invite now i = not (is_used i) && not (is_expired now i)

-- The action identifiers of handlers/audit.go.
pub data Action : Type 0 where
  user_registered user_role_changed owner_added user_suspended user_reactivated user_removed :
      Action
  invite_created invite_revoked : Action
  org_updated org_logo_updated org_logo_removed registration_changed mode_changed : Action
  shared_access_granted shared_access_revoked shared_settings_changed : Action

-- The free text of an event's `detail` is left out.
pub record AuditEvent : Type 0 where
  pub id : ℕ
  pub action : Action
  pub actor_id : ℕ
  pub actor_name : Text
  pub target_id : Option ℕ
  pub target_name : Text
  pub created_at : ℕ

pub record Membership : Type 0 where
  pub user_id : ℕ
  pub wrapped_key : Text
  pub granted_by : ℕ

pub record OrgCategory : Type 0 where
  pub id : ℕ
  pub name : Text

pub record OrgVault : Type 0 where
  pub id : ℕ
  pub created_by : Option ℕ
  pub category_id : Option ℕ
  pub type : EntryType
  pub encrypted_blob : Text
  pub iv : Text
  pub version : ℕ
