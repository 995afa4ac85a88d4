-- ===== src/Handlers/Settings/Account.antt =====
-- The handlers of handlers/settings.go that change the caller's own account. The caller is the
-- row that the session check loaded.
pub mod Laws
pub mod LastAdmin
mod Tests
use librelock_server.Common.{
  leb, ◌==◌, if◌then◌else◌, length, any, filter, update, Text, text, text_eq, is_empty, trim_space,
  ℕ, Bool, not, ◌&&◌, ◌||◌, Option, none, some,
}
use librelock_server.Crypto.Token.{hash_token}
use librelock_server.Crypto.Password.{hash_password, verify_password}
use librelock_server.Env.{Env}
use librelock_server.Http.{Reply, reply, fail, fail_field, user, message, invalid}
use librelock_server.Models.{
  is_admin_role, User, Mode, Db, Write, done, duplicate, failed, delete_users,
}
use librelock_server.AppMode.{is_organization}
use librelock_server.Handlers.Helpers.{find, public_user, count_active_admins}
use librelock_server.Handlers.Auth.Requests.{within}
use librelock_server.Handlers.Auth.Login.{is_match}

abbrev pub set_user : ℕ → (User → User) → Db → Db
set_user id f db = record db { users = update (λ u. u.id == id) f db.users }

abbrev pub has_name : Text → ℕ → Db → Bool
has_name name id db = any (λ u. text_eq u.username name && not (u.id == id)) db.users

-- UPDATE user SET username, under the unique index
unfoldable pub rename_user : Bool → ℕ → Text → Db → Write
rename_user fault id name db =
    if fault
    then failed
    else if has_name name id db && any (λ u. u.id == id) db.users
    then duplicate
    else done (set_user id (λ u. record u { username = name }) db)

abbrev name_taken : Reply
name_taken = fail_field "username" "Username taken"

unfoldable pub renamed : User → Text → Db → Write → Reply × Db
renamed u name db (done db') = (reply 200 (user (public_user (record u { username = name }))), db')
renamed u name db duplicate = (name_taken, db)
renamed u name db failed = (fail 500 "Failed to update username", db)

-- `UpdateUsername`, on the name of the request
unfoldable pub update_username : Env → User → Option Text → Db → Reply × Db
unfolding renamed
update_username env u none db = (reply 422 invalid, db)
update_username env u (some given) db =
    if not (within 1 500 (length given))
    then (reply 422 invalid, db)
    else if not (env.fault 0) && has_name (trim_space given) u.id db
    then (name_taken, db)
    else renamed u (trim_space given) db (rename_user (env.fault 1) u.id (trim_space given) db)

-- `UpdateTheme`
unfoldable pub update_theme : Env → User → Option Text → Db → Reply × Db
update_theme env u none db = (reply 422 invalid, db)
update_theme env u (some theme) db =
    if not (text_eq theme (text "light") || text_eq theme (text "dark"))
    then (reply 422 invalid, db)
    else if env.fault 0
    then (fail 500 "Failed to update theme", db)
    else (
      reply 200 (user (public_user (record u { theme = theme }))),
      set_user u.id (λ v. record v { theme = theme }) db,
    )

pub record KeypairRequest : Type 0 where
  pub public_key : Text
  pub encrypted_private_key : Text

abbrev pub is_valid_keypair : KeypairRequest → Bool
is_valid_keypair r =
    within 1 4096 (length r.public_key) && within 1 8192 (length r.encrypted_private_key)

abbrev pub set_keypair : KeypairRequest → User → User
set_keypair r u = record u {
  public_key = r.public_key;
  encrypted_private_key = r.encrypted_private_key;
}

-- `UploadKeypair`
unfoldable pub upload_keypair : Env → User → Option KeypairRequest → Db → Reply × Db
upload_keypair env u none db =
    (if is_empty u.public_key then reply 422 invalid else fail 409 "Keypair already set", db)
upload_keypair env u (some r) db =
    if not (is_empty u.public_key)
    then (fail 409 "Keypair already set", db)
    else if not (is_valid_keypair r)
    then (reply 422 invalid, db)
    else if env.fault 0
    then (fail 500 "Failed to save keypair", db)
    else (reply 200 (user (public_user (set_keypair r u))), set_user u.id (set_keypair r) db)

pub record PasswordRequest : Type 0 where
  pub current_auth_credential : Text
  pub new_auth_credential : Text
  pub new_protected_key : Text
  pub new_kdf_salt : Text
  pub new_kdf_iter : ℕ
  pub new_kdf_memory : ℕ
  pub new_kdf_parallelism : ℕ
  pub new_encrypted_private_key : Text

-- The binding tags of `updatePasswordRequest`
unfoldable pub is_valid_password : PasswordRequest → Bool
is_valid_password r =
    not (is_empty r.current_auth_credential)
    && within 32 512 (length r.new_auth_credential)
    && within 32 1024 (length r.new_protected_key)
    && within 64 512 (length r.new_kdf_salt)
    && within 4 10000 r.new_kdf_iter
    && within 65536 1048576 r.new_kdf_memory
    && within 1 16 r.new_kdf_parallelism
    && leb (length r.new_encrypted_private_key) 8192

-- The columns that a new password sets.
unfoldable pub set_password : PasswordRequest → Text → User → User
set_password r hash u = record u {
  auth_hash = hash;
  protected_key = r.new_protected_key;
  kdf_salt = r.new_kdf_salt;
  kdf_iter = r.new_kdf_iter;
  kdf_memory = r.new_kdf_memory;
  kdf_parallelism = r.new_kdf_parallelism;
  encrypted_private_key =
      if is_empty r.new_encrypted_private_key
      then u.encrypted_private_key
      else r.new_encrypted_private_key;
}

-- The two statements of the transaction: both or, with `none`, neither.
unfoldable pub password_transaction : Env → User → PasswordRequest → Text → Text → Db → Option Db
password_transaction env u r hash token db =
    if env.fault 0 || env.fault 1
    then none
    else some (record db {
      users = update (λ v. v.id == u.id) (set_password r hash) db.users;
      sessions =
          filter
            (λ s.
              not (s.user_id == u.id && not (text_eq s.token_hash (hash_token env.sha256 token))))
            db.sessions;
    })

abbrev reread : Env → User → Db → User
reread env u db = elim (find (env.fault 2) User.id (λ v. v.id == u.id) db.users) [
  | none ↦ u
  | some v ↦ v
]

-- `UpdateMasterPassword`. Reading the salt is number 3 among what may fail.
unfoldable pub update_master_password : Env → User → Text → Option PasswordRequest → Db → Reply × Db
update_master_password env u token none db = (reply 422 invalid, db)
update_master_password env u token (some r) db =
    if not (is_valid_password r)
    then (reply 422 invalid, db)
    else if not (is_match (verify_password env.id_key r.current_auth_credential u.auth_hash))
    then (fail 403 "Invalid credentials", db)
    else if env.fault 3
    then (fail 500 "Internal server error", db)
    else elim (password_transaction env u r
        (hash_password env.id_key (env.random 0) r.new_auth_credential) token db) [
          | none ↦ (fail 500 "Failed to update password", db)
          | some db' ↦ (reply 200 (user (public_user (reread env u db'))), db')
        ]

abbrev pub last_administrator : Reply
last_administrator =
    fail 422 "You are the last administrator. Promote another admin before deleting your account."

-- `DeleteAccount`, on the credential of the request
unfoldable pub delete_account : Env → Mode → User → Option Text → Db → Reply × Db
delete_account env mode u none db = (reply 422 invalid, db)
delete_account env mode u (some credential) db =
    if is_empty credential
    then (reply 422 invalid, db)
    else if not (is_match (verify_password env.id_key credential u.auth_hash))
    then (fail 403 "Invalid credentials", db)
    else if is_organization mode
        && is_admin_role u.role
        && leb (count_active_admins (env.fault 0) db) 1
    then (last_administrator, db)
    else if env.fault 1
    then (fail 500 "Failed to delete account", db)
    else (reply 200 (message "Account deleted"), delete_users (λ v. v.id == u.id) db)
