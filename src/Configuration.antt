-- ===== src/Configuration.antt =====
-- config/config.go: the settings that the server reads from its environment. `getenv` is the
-- operating system's, which gives the empty text for a variable that is not set.
mod Tests
use librelock_server.Common.{
  if◌then◌else◌, any, filter, Text, text, text_eq, is_empty, trim_space, Bool, true, false, not,
  Option, none, some, List, [], ◌∷◌, map, split_on,
}
use librelock_server.Common.Numbers.{pos, ℤ, atoi}

abbrev pub Environment : Type 0
Environment = Text → Text

-- `getEnv`
unfoldable pub get_env : Environment → Text → Text → Text
get_env getenv key fallback = let v = getenv key in if is_empty v then fallback else v

int_or : ℤ → Option ℤ → ℤ
int_or fallback none = fallback
int_or fallback (some n) = n

-- `getEnvInt`
unfoldable pub get_env_int : Environment → Text → ℤ → ℤ
unfolding int_or
get_env_int getenv key fallback =
    let v = getenv key in if is_empty v then fallback else int_or fallback (atoi v)

-- strconv.ParseBool
unfoldable pub parse_bool : Text → Option Bool
parse_bool s =
    if any (text_eq s)
      (text "1" ∷ text "t" ∷ text "T" ∷ text "TRUE" ∷ text "true" ∷ text "True" ∷ [])
    then some true
    else if any (text_eq s)
        (text "0" ∷ text "f" ∷ text "F" ∷ text "FALSE" ∷ text "false" ∷ text "False" ∷ [])
    then some false
    else none

bool_or : Bool → Option Bool → Bool
bool_or fallback none = fallback
bool_or fallback (some b) = b

-- `getEnvBool`
unfoldable pub get_env_bool : Environment → Text → Bool → Bool
unfolding bool_or
get_env_bool getenv key fallback =
    let v = getenv key in if is_empty v then fallback else bool_or fallback (parse_bool v)

-- `getEnvList`
unfoldable pub get_env_list : Environment → Text → List Text
get_env_list getenv key =
    let raw = getenv key in
    if is_empty raw then [] else filter (λ v. not (is_empty v)) (map trim_space (split_on b',' raw))

pub record Config : Type 0 where
  pub port : Text
  pub db_path : Text
  pub token_ttl : ℤ
  pub app_env : Text
  pub allowed_origin : Text
  pub upgrade_backups : Bool
  pub trusted_proxies : List Text

-- `Load`
unfoldable pub load : Environment → Config
load getenv = record {
  port = get_env getenv (text "PORT") (text "8000");
  db_path = get_env getenv (text "DB_PATH") (text "data/librelock.db");
  token_ttl = get_env_int getenv (text "TOKEN_TTL") (pos 3600);
  app_env = get_env getenv (text "APP_ENV") (text "development");
  allowed_origin = get_env getenv (text "ALLOWED_ORIGIN") (text "http://localhost:1401");
  upgrade_backups = get_env_bool getenv (text "UPGRADE_BACKUPS") true;
  trusted_proxies = get_env_list getenv (text "TRUSTED_PROXIES");
}
