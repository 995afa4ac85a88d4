-- ===== src/Server/State.antt =====
-- The server of main.go: its settings and state, what a request brings, and a response.
use librelock_server.Common.{
  ◌==◌, if◌then◌else◌, Text, ℕ, ◌*◌, Bool, true, false, Option, none, some, [],
}
use librelock_server.AppMode.{Provider}
use librelock_server.Handlers.Settings.Instance.{Answer}
use librelock_server.Http.{Reply, fail}
use librelock_server.Middleware.RateLimit.{Rate, second, Limiter}
use librelock_server.Models.{Db}

-- The cookie of `setTokenCookie` and `clearTokenCookie`; one that is cleared is in the past.
pub record Cookie : Type 0 where
  pub value : Text
  pub is_past : Bool
  pub is_secure : Bool
  pub http_only : Bool

pub record Config : Type 0 where
  pub ttl : ℕ
  pub production : Bool
  pub version : Text
  pub secret : Text

pub record Server : Type 0 where
  pub db : Db
  pub provider : Provider
  pub auth_limiter : Limiter
  pub reauth_limiter : Limiter

-- The token cookie, the Authorization header and the number of the client's address.
pub record Caller : Type 0 where
  pub cookie : Option Text
  pub authorization : Text
  pub client : ℕ

-- The reply, with the Set-Cookie, X-Session-Expires and Retry-After headers.
pub record Response : Type 0 where
  pub reply : Reply
  pub cookie : Option Cookie
  pub expires : Option ℕ
  pub retry_after : Option ℕ

abbrev pub plain : Reply → Response
plain r = record { reply = r; cookie = none; expires = none; retry_after = none }

-- `setTokenCookie`
unfoldable pub set_token_cookie : Config → Text → Cookie
set_token_cookie c token = record {
  value = token;
  is_past = false;
  is_secure = c.production;
  http_only = true;
}

-- `clearTokenCookie`
unfoldable pub clear_token_cookie : Config → Cookie
clear_token_cookie c = record {
  value = [];
  is_past = true;
  is_secure = c.production;
  http_only = true;
}

abbrev pub with_cookie : Option Cookie → Response → Response
with_cookie cookie r = record r { cookie = cookie }

-- `authLimit` and `reauthLimit`
abbrev pub auth_rate : Rate
auth_rate = record { burst = 20; period = 3 * second }

abbrev pub reauth_rate : Rate
reauth_rate = record { burst = 5; period = 10 * second }

unfoldable pub too_many : ℕ → Response
too_many wait = record {
  reply = fail 429 "Too many requests. Please wait a moment and try again.";
  cookie = none;
  expires = none;
  retry_after = some wait;
}

abbrev pub with_db : Db → Server → Server
with_db db s = record s { db = db }

abbrev pub replied : Server → Reply × Db → Response × Server
replied s out = (plain out.0, with_db out.1 s)

abbrev pub read_only : Server → Reply → Response × Server
read_only s r = (plain r, s)

abbrev pub answered : Server → Answer → Response × Server
answered s a = (plain a.reply, record s { db = a.db; provider = a.provider })

-- The cookie is cleared with a reply of success.
unfoldable pub cleared : Config → Response × Server → Response × Server
unfolding clear_token_cookie
cleared c (r, s) =
    if r.reply.status == 200 then (with_cookie (some (clear_token_cookie c)) r, s) else (r, s)
