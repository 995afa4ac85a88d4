-- ===== src/Handlers/Auth/Register.antt =====
-- `Register` of handlers/auth.go, with the invite's search and the registration policy.
-- Statements: 0 to 3 are the counts of users and of the name and the searches of the organization
-- and of the invite, 4 the read of the salt, 5 the account, 6 the invite, 7 the audit event, 8 the
-- session, and those from 9 the categories.
pub mod Laws
pub mod Steps
pub mod Created
pub mod Invites
pub mod Miscount
use librelock_server.Common.{
  ltb, ◌==◌, if◌then◌else◌, length, any, update, Text, text, text_eq, is_empty, ℕ, suc, ◌+◌, Bool,
  not, ◌&&◌, Option, none, some, List, [], ◌∷◌,
}
use librelock_server.Crypto.Token.{hash_token, issue_token}
use librelock_server.Crypto.Password.{hash_password}
use librelock_server.Env.{Env}
use librelock_server.Http.{Reply, reply, fail, fail_field, user, invalid}
use librelock_server.Models.{
  Role, owner, member, active, User, Mode, personal, organization, Registration, open_to_all,
  by_invite, is_open, Invite, is_valid_invite, user_registered, Db, map_table, rows, done,
  duplicate, failed, create_user, create_category,
}
use librelock_server.Handlers.Helpers.{find, find_organization, or_same, public_user, record_audit}
use librelock_server.Handlers.Auth.Requests.{
  RegisterRequest, is_valid_register, SignIn, refuse, normalize_username, create_session_for,
}

-- `registrationPolicy`
unfoldable pub registration_policy : Bool → Db → Registration
registration_policy fault db = elim (find_organization fault db) [
  | none ↦ by_invite
  | some org ↦ if is_open org.registration then open_to_all else by_invite
]

abbrev pub keep_valid : ℕ → Option Invite → Option Invite
keep_valid now none = none
keep_valid now (some i) = if is_valid_invite now i then some i else none

-- `findValidInvite`
unfoldable pub find_valid_invite : Env → Text → Db → Option Invite
find_valid_invite env token db =
    if is_empty token
    then none
    else keep_valid (env.clock 0) (
        find (env.fault 2) Invite.id (λ i. text_eq i.token_hash (hash_token env.sha256 token))
          (rows db.invites))

-- Whether the caller may sign up, and as what.
pub data Gate : Type 0 where
  shut : Reply → Gate
  admitted : Role → Option Invite → Gate

abbrev pub gate_by_invite : Option Invite → Gate
gate_by_invite none =
    shut (fail_field "invite_token" "This invite is invalid, expired, or already used.")
gate_by_invite (some i) = admitted member (some i)

unfoldable pub count_users : Bool → Db → ℕ
count_users fault db = if fault then 0 else length db.users

unfoldable pub sign_up_gate : Env → Mode → (open_reg : Bool) → Text → Db → Gate
sign_up_gate env organization open_reg token db =
    if count_users (env.fault 0) db == 0
    then admitted owner none
    else if is_open (registration_policy (env.fault 1) db)
    then admitted member none
    else gate_by_invite (find_valid_invite env token db)
sign_up_gate env personal open_reg token db =
    if ltb 0 (count_users (env.fault 0) db) && not open_reg
    then shut (fail 403 "This instance is not accepting new accounts.")
    else admitted member none

-- The row that `Register` writes.
abbrev pub new_user : Env → RegisterRequest → Role → User
new_user env r role = record {
  id = env.uuid 0;
  username = normalize_username r.username;
  role = role;
  status = active;
  theme = if is_empty r.theme then text "dark" else r.theme;
  auth_hash = hash_password env.id_key (env.random 0) r.auth_credential;
  kdf_algo = text "argon2id";
  kdf_salt = r.kdf_salt;
  kdf_iter = r.kdf_iter;
  kdf_memory = r.kdf_memory;
  kdf_parallelism = r.kdf_parallelism;
  protected_key = r.protected_key;
  public_key = r.public_key;
  encrypted_private_key = r.encrypted_private_key;
  created_at = env.clock 1;
}

unfoldable pub burn_invite : Bool → ℕ → Option Invite → Db → Db
burn_invite fault now none db = db
burn_invite fault now (some i) db = if fault then db else record db {
  invites =
      map_table (update (λ j. j.id == i.id) (λ j. record j { used_at = some now })) db.invites;
}

abbrev pub audit_registration : Env → Mode → User → Db → Db
audit_registration env personal u db = db
audit_registration env organization u db =
    record_audit (env.fault 7) (env.uuid 1) (env.clock 3) user_registered u (some u.id) u.username
      db

-- One round of the loop over the categories; a name may be empty and an error is not looked at.
unfoldable pub add_category : Env → ℕ → ℕ → Text → Db → Db
add_category env i user_id [] db = db
add_category env i user_id (c ∷ name) db = or_same db (
    create_category (env.fault (9 + i))
      (record { id = env.uuid (3 + i); user_id = user_id; name = c ∷ name }) db)

unfoldable pub add_categories : Env → ℕ → ℕ → List Text → Db → Db
unfolding add_category
add_categories env i user_id [] db = db
add_categories env i user_id (name ∷ names) db =
    add_categories env (suc i) user_id names (add_category env i user_id name db)

abbrev pub open_first_session : Env → ℕ → User → Db → SignIn
open_first_session env ttl u db =
    let token = issue_token (env.random 1) in
    elim (create_session_for env (env.fault 8) (env.uuid 2) (env.clock 4) ttl u token db) [
      | done db' ↦ record {
        reply = reply 201 (user (public_user u));
        cookie = some token;
        db = db';
      }
      | _ ↦ refuse (fail 500 "Failed to create session") db
    ]

-- What follows the creation of the account.
unfoldable pub after_account : Env → ℕ → Mode → RegisterRequest → User → Option Invite → Db → SignIn
after_account env ttl mode r u inv db =
    let db1 = burn_invite (env.fault 6) (env.clock 2) inv db in
    let db2 = audit_registration env mode u db1 in
    open_first_session env ttl u (add_categories env 0 u.id r.categories db2)

unfoldable pub is_taken : Bool → Text → Db → Bool
is_taken fault name db = not fault && any (λ u. text_eq u.username name) db.users

abbrev pub name_taken : Reply
name_taken = fail_field "username" "Username taken"

-- What follows the gate.
unfoldable pub create_account : Env → ℕ → Mode → RegisterRequest → Db → Gate → SignIn
unfolding is_taken
create_account env ttl mode r db (shut why) = refuse why db
create_account env ttl mode r db (admitted role inv) =
    if is_taken (env.fault 3) (normalize_username r.username) db
    then refuse name_taken db
    else if env.fault 4
    then refuse (fail 500 "Internal server error") db
    else elim (create_user (env.fault 5) (new_user env r role) db) [
      | done db' ↦ after_account env ttl mode r (new_user env r role) inv db'
      | duplicate ↦ refuse name_taken db
      | failed ↦ refuse (fail 500 "Failed to create user") db
    ]

-- `Register`
unfoldable pub register : Env → ℕ → Mode → (open_reg : Bool) → Option RegisterRequest → Db → SignIn
register env ttl mode open_reg none db = refuse (reply 422 invalid) db
register env ttl mode open_reg (some r) db =
    if not (is_valid_register r)
    then refuse (reply 422 invalid) db
    else if ltb 20 (length r.categories)
    then refuse (fail_field "categories" "The categories may not have more than 20 items.") db
    else create_account env ttl mode r db (sign_up_gate env mode open_reg r.invite_token db)
