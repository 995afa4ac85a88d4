-- ===== src/Handlers/Auth/Requests.antt =====
-- The requests of handlers/auth.go with their binding tags, and what its handlers share.
use librelock_server.Common.{
  leb, length, take, Text, text, text_eq, is_empty, trim_space, ℕ, ◌+◌, ◌*◌, Bool, not, ◌&&◌, ◌||◌,
  Option, none, some, List, [], ◌∷◌,
}
use librelock_server.Crypto.Token.{hash_token}
use librelock_server.Env.{Env, second}
use librelock_server.Http.{Reply}
use librelock_server.Models.{User, Db, Write, create_session, Session}

abbrev pub min_kdf_iter : ℕ
min_kdf_iter = 4

abbrev pub min_kdf_memory : ℕ
min_kdf_memory = 65536

abbrev pub default_kdf_parallelism : ℕ
default_kdf_parallelism = 4

pub record RegisterRequest : Type 0 where
  pub username : Text
  pub auth_credential : Text
  pub protected_key : Text
  pub kdf_salt : Text
  pub kdf_iter : ℕ
  pub kdf_memory : ℕ
  pub kdf_parallelism : ℕ
  pub categories : List Text
  pub invite_token : Text
  pub theme : Text
  pub public_key : Text
  pub encrypted_private_key : Text

abbrev pub within : ℕ → ℕ → ℕ → Bool
within lo hi n = leb lo n && leb n hi

abbrev pub is_theme : Text → Bool
is_theme t = text_eq t (text "light") || text_eq t (text "dark")

-- The binding tags of `registerRequest`
unfoldable pub is_valid_register : RegisterRequest → Bool
is_valid_register r =
    within 1 500 (length r.username)
    && within 32 512 (length r.auth_credential)
    && within 32 1024 (length r.protected_key)
    && within 64 512 (length r.kdf_salt)
    && within 4 10000 r.kdf_iter
    && within 65536 1048576 r.kdf_memory
    && within 1 16 r.kdf_parallelism
    && (is_empty r.theme || is_theme r.theme)
    && leb (length r.public_key) 4096
    && leb (length r.encrypted_private_key) 8192

pub record LoginRequest : Type 0 where
  pub username : Text
  pub auth_credential : Text

-- The binding tags of `loginRequest`
abbrev pub is_valid_login : LoginRequest → Bool
is_valid_login r = not (is_empty r.username) && not (is_empty r.auth_credential)

-- What a handler that signs in leaves: `cookie` is the value of the token cookie that it sets.
pub record SignIn : Type 0 where
  pub reply : Reply
  pub cookie : Option Text
  pub db : Db

abbrev pub refuse : Reply → Db → SignIn
refuse r db = record { reply = r; cookie = none; db = db }

-- `normalizeUsername`
abbrev pub normalize_username : Text → Text
normalize_username name = trim_space name

-- `ua[:255]`, and no name for an empty header
unfoldable pub device_name_of : Text → Option Text
device_name_of [] = none
device_name_of (c ∷ s) = some (take 255 (c ∷ s))

-- The row that `createSession` writes.
abbrev pub new_session : Env → (id now ttl : ℕ) → User → Text → Session
new_session env id now ttl user token = record {
  id = id;
  user_id = user.id;
  token_hash = hash_token env.sha256 token;
  device_name = device_name_of env.user_agent;
  ip = env.client_ip;
  last_used_at = now;
  expires_at = now + ttl * second;
}

-- `createSession`
unfoldable pub create_session_for : Env → (fault : Bool) (id now ttl : ℕ) → User → Text → Db → Write
create_session_for env fault id now ttl user token db =
    create_session fault (new_session env id now ttl user token) db
