-- ===== src/Models/Accounts.antt =====
-- models/user.go. An id is the number that a UUID's text writes, and a time is a count of
-- nanoseconds. Columns that hold one of a fixed set of words are enumerations.
use librelock_server.Common.{ℕ, Bool, true, false, Text}

pub data Role : Type 0 where
  owner admin member : Role

pub data Status : Type 0 where
  active suspended : Status

abbrev pub is_admin_role : Role → Bool
is_admin_role owner = true
is_admin_role admin = true
is_admin_role member = false

abbrev pub is_owner : Role → Bool
is_owner owner = true
is_owner _ = false

abbrev pub is_active : Status → Bool
is_active active = true
is_active suspended = false

abbrev pub same_role : Role → Role → Bool
same_role owner owner = true
same_role admin admin = true
same_role member member = true
same_role _ _ = false

abbrev pub same_status : Status → Status → Bool
same_status active active = true
same_status suspended suspended = true
same_status _ _ = false

pub record User : Type 0 where
  pub id : ℕ
  pub username : Text
  pub role : Role
  pub status : Status
  pub theme : Text
  pub auth_hash : Text
  pub kdf_algo : Text
  pub kdf_salt : Text
  pub kdf_iter : ℕ
  pub kdf_memory : ℕ
  pub kdf_parallelism : ℕ
  pub protected_key : Text
  pub public_key : Text
  pub encrypted_private_key : Text
  pub created_at : ℕ
