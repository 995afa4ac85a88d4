-- ===== src/Models/Records.antt =====
-- The rows that belong to one user, and the singleton row of the instance: models/session.go,
-- models/category.go, models/vault.go and models/appstate.go.
use librelock_server.Common.{ℕ, Bool, Option, Text}

pub record Session : Type 0 where
  pub id : ℕ
  pub user_id : ℕ
  pub token_hash : Text
  pub device_name : Option Text
  pub ip : Text
  pub last_used_at : ℕ
  pub expires_at : ℕ

pub record Category : Type 0 where
  pub id : ℕ
  pub user_id : ℕ
  pub name : Text

-- The three words that the binding tags of vault.go and orgvault.go allow.
pub data EntryType : Type 0 where
  password_entry note card : EntryType

pub record Vault : Type 0 where
  pub id : ℕ
  pub user_id : ℕ
  pub category_id : Option ℕ
  pub type : EntryType
  pub encrypted_blob : Text
  pub iv : Text
  pub version : ℕ

-- The deployment modes of config.go.
pub data Mode : Type 0 where
  personal organization : Mode

pub record AppState : Type 0 where
  pub mode : Mode
  pub server_secret : Text
  pub allow_registration : Bool
  pub schema_version : ℕ
  pub app_version : Text
