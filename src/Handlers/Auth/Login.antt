-- ===== src/Handlers/Auth/Login.antt =====
-- `KDF`, `Login` and `Logout` of handlers/auth.go. `DummyVerify` only takes time, and `Me` only shows the caller.
pub mod Laws
use librelock_server.Common.{
  if◌then◌else◌, filter, Text, text, text_eq, ℕ, Bool, true, false, not, Option, none, some,
}
use librelock_server.Crypto.Token.{hash_token, issue_token, decoy_kdf_salt}
use librelock_server.Crypto.Password.{verify_password}
use librelock_server.Env.{Env}
use librelock_server.Http.{Reply, reply, fail, KdfParams, user, message, invalid}
use librelock_server.Models.{User, is_active, Db, Write, done}
use librelock_server.Handlers.Helpers.{find, public_user}
use librelock_server.Handlers.Auth.Requests.{
  min_kdf_iter, min_kdf_memory, default_kdf_parallelism, LoginRequest, is_valid_login, SignIn,
  refuse, normalize_username, create_session_for,
}

abbrev pub is_named : Text → User → Bool
is_named name u = text_eq u.username name

-- What `KDF` answers for the account that it finds.
abbrev kdf_of : Env → Text → Text → Option User → KdfParams
kdf_of env secret username none = record {
  algo = text "argon2id";
  salt = decoy_kdf_salt env.hmac secret username;
  iter = min_kdf_iter;
  memory = min_kdf_memory;
  parallelism = default_kdf_parallelism;
}
kdf_of env secret username (some u) = record {
  algo = u.kdf_algo;
  salt = u.kdf_salt;
  iter = u.kdf_iter;
  memory = u.kdf_memory;
  parallelism = u.kdf_parallelism;
}

-- `KDF`; the database stays as it is.
unfoldable pub kdf_params : Env → Text → Text → Db → KdfParams
kdf_params env secret query db =
    let username = normalize_username query in
    kdf_of env secret username (find (env.fault 0) User.id (is_named username) db.users)

abbrev signed_in : ℕ → User → Text → Db → Write → SignIn
signed_in status u token db (done db') = record {
  reply = reply status (user (public_user u));
  cookie = some token;
  db = db';
}
signed_in status u token db _ = refuse (fail 500 "Failed to create session") db

abbrev pub is_match : Option Bool → Bool
is_match (some true) = true
is_match _ = false

-- What follows the search for the account.
sign_in : Env → ℕ → Text → Db → Option User → SignIn
sign_in env ttl credential db none = refuse (fail 401 "Invalid credentials") db
sign_in env ttl credential db (some u) =
    if not (is_match (verify_password env.id_key credential u.auth_hash))
    then refuse (fail 401 "Invalid credentials") db
    else if not (is_active u.status)
    then refuse (fail 403 "Your account has been suspended.") db
    else let token = issue_token (env.random 0) in
      signed_in 200 u token db
        (create_session_for env (env.fault 1) (env.uuid 0) (env.clock 0) ttl u token db)

-- `Login`
unfoldable pub login : Env → ℕ → Option LoginRequest → Db → SignIn
unfolding sign_in
login env ttl none db = refuse (reply 422 invalid) db
login env ttl (some r) db =
    if is_valid_login r
    then sign_in env ttl r.auth_credential db
        (find (env.fault 0) User.id (is_named (normalize_username r.username)) db.users)
    else refuse (reply 422 invalid) db

-- `Logout`, for the token that the session check kept
unfoldable pub logout : Env → Text → Db → Reply × Db
logout env token db = (
  reply 200 (message "Logged out"),
  if env.fault 0 then db else record db {
    sessions = filter (λ s. not (text_eq s.token_hash (hash_token env.sha256 token))) db.sessions;
  },
)
