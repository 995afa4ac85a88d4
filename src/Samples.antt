-- ===== src/Samples.antt =====
-- A small instance, on which the tests and the examples of the theorems run.
use librelock_server.Common.{
  Text, text, ℕ, ◌+◌, ◌*◌, Bool, true, false, Option, none, some, List, [], ◌∷◌, ◌++◌,
}
use librelock_server.Crypto.Token.{hash_token}
use librelock_server.Crypto.Password.{IdKey, hash_password}
use librelock_server.Env.{Env, second}
use librelock_server.Models.{
  Role, owner, admin, member, Status, active, suspended, User, Session, Category, Vault,
  password_entry, AppState, organization, Organization, by_invite, Invite, Db,
}

-- A toy key derivation and a toy digest.
abbrev pub toy_key : IdKey
toy_key password salt t m p len = password ++ salt

abbrev pub toy_hash : List ℕ → List ℕ
toy_hash bytes = bytes

abbrev pub toy_env : (ℕ → Bool) → Env
toy_env fault = record {
  fault = fault;
  clock = λ i. 100 * second + i;
  uuid = λ i. 900 + i;
  random = λ i. 7 ∷ 8 ∷ i ∷ [];
  sha256 = toy_hash;
  hmac = λ secret name. secret ++ name;
  id_key = toy_key;
  user_agent = text "browser";
  client_ip = text "10.0.0.1";
}

-- No statement fails.
abbrev pub calm : Env
calm = toy_env (λ _. false)

abbrev pub account : ℕ → Text → Role → Status → User
account id name role status = record {
  id = id;
  username = name;
  role = role;
  status = status;
  theme = text "dark";
  auth_hash = text "-";
  kdf_algo = text "argon2id";
  kdf_salt = text "salt";
  kdf_iter = 4;
  kdf_memory = 65536;
  kdf_parallelism = 4;
  protected_key = text "key";
  public_key = text "pub";
  encrypted_private_key = text "priv";
  created_at = id;
}

abbrev pub ann : User
ann = account 1 (text "ann") owner active

abbrev pub bob : User
bob = account 2 (text "bob") member active

abbrev pub cid : User
cid = account 3 (text "cid") admin suspended

abbrev pub session_of : ℕ → ℕ → Text → ℕ → Session
session_of id user token expires = record {
  id = id;
  user_id = user;
  token_hash = hash_token toy_hash token;
  device_name = none;
  ip = text "10.0.0.1";
  last_used_at = 0;
  expires_at = expires;
}

abbrev pub sessions : List Session
sessions =
    session_of 11 1 (text "t1") (200 * second)
    ∷ session_of 12 2 (text "t2") (50 * second)
    ∷ session_of 13 3 (text "t3") (4000 * second)
    ∷ session_of 14 2 (text "t4") (4000 * second)
    ∷ []

abbrev pub home : AppState
home = record {
  mode = organization;
  server_secret = text "secret";
  allow_registration = false;
  schema_version = 1;
  app_version = text "0.1.0";
}

abbrev pub branding : Organization
branding = record {
  name = text "Acme";
  logo_data = [];
  logo_mime_type = [];
  support_email = [];
  support_url = [];
  login_message = [];
  registration = by_invite;
  auto_grant_shared = false;
  member_manage_shared = true;
  member_edit_shared = false;
  updated_at = 0;
}

abbrev pub work : Category
work = record { id = 21; user_id = 2; name = text "work" }

abbrev pub mail : Vault
mail = record {
  id = 31;
  user_id = 2;
  category_id = some 21;
  type = password_entry;
  encrypted_blob = text "blob";
  iv = text "iv";
  version = 1;
}

abbrev pub invite_of : ℕ → Text → ℕ → Option ℕ → Invite
invite_of id token expires used = record {
  id = id;
  token_hash = hash_token toy_hash token;
  note = [];
  created_by = 1;
  expires_at = expires;
  used_at = used;
  created_at = 0;
}

abbrev pub invites : List Invite
invites =
    invite_of 41 (text "i1") (90 * second) none
    ∷ invite_of 42 (text "i2") (200 * second) none
    ∷ invite_of 43 (text "i3") (200 * second) (some 5)
    ∷ []

abbrev pub acme : Db
acme = record {
  users = ann ∷ bob ∷ cid ∷ [];
  categories = work ∷ [];
  vaults = mail ∷ [];
  sessions = sessions;
  app_state = home ∷ [];
  organization = some (branding ∷ []);
  invites = some invites;
  audit_events = some [];
  memberships = some (record { user_id = 1; wrapped_key = text "w1"; granted_by = 1 } ∷ []);
  org_categories = some [];
  org_vaults = some [];
}

-- An account whose password is known, alone on an organization and beside the others.
abbrev pub secret : Text
secret = text "an auth credential of forty letters long"

abbrev pub eve : User
eve = record (account 4 (text "eve") owner active) {
  auth_hash = hash_password toy_key (1 ∷ 2 ∷ []) secret;
}

abbrev pub eves : Db
eves = record acme { users = eve ∷ bob ∷ [] }
