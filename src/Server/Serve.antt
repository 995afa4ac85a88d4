-- ===== src/Server/Serve.antt =====
-- main.go: the middleware that stands before each route's handler.
use librelock_server.Common.{if◌then◌else◌, Text, ℕ, Bool, true, false, Option, none, some}
use librelock_server.Env.{Env}
use librelock_server.Handlers.Auth.Login.{kdf_params, login}
use librelock_server.Handlers.Auth.Register.{register}
use librelock_server.Handlers.Auth.Requests.{SignIn}
use librelock_server.Handlers.Organization.Public.{show_organization, show_logo}
use librelock_server.Http.{Reply, reply, empty, message, version, kdf}
use librelock_server.Middleware.Auth.{
  Access, auth, denied, extract_token, passed, require_membership, require_admin,
}
use librelock_server.Middleware.RateLimit.{allowed, refused, Verdict, request, Limiter}
use librelock_server.Models.{User}
use librelock_server.Server.Handle.{handle}
use librelock_server.Server.Requests.{
  Protected, settings, Api, put_password, delete_own_account, shared_vault, put_mode, administer,
  get_kdf, post_register, post_login, protected, preflight, get_status, get_version, get_branding,
  get_logo,
}
use librelock_server.Server.State.{
  Config, Response, set_token_cookie, too_many, Caller, Cookie, Server, auth_rate, plain,
  with_cookie, with_db, reauth_rate, replied, read_only,
}

-- The routes that `reauthLimit` guards
unfoldable pub is_reauth : Protected → Bool
is_reauth (settings (put_password _)) = true
is_reauth (settings (delete_own_account _)) = true
is_reauth (settings (put_mode _)) = true
is_reauth _ = false

-- `RequireMembership` and `RequireAdmin` on their groups; `none` lets the request pass.
unfoldable pub guard_group : Env → User → Protected → Server → Option Reply
guard_group check u (shared_vault _) s = require_membership (check.fault 3) s.provider.mode u s.db
guard_group check u (administer _) s = require_admin s.provider.mode u
guard_group check u _ s = none

unfoldable pub after_group :
    Config → Env → User → ℕ → Text → Protected → Server → Option Reply → Response × Server
unfolding handle
after_group c env u sid token q s (some why) = (plain why, s)
after_group c env u sid token q s none = handle c env u sid token q s

unfoldable pub after_limit :
    Config
    → Env
    → Env
    → User
    → ℕ
    → Text
    → Protected
    → Server
    → Verdict × Limiter
    → Response × Server
unfolding after_group too_many
after_limit c check env u sid token q s (refused wait, l) =
    (too_many wait, record s { reauth_limiter = l })
after_limit c check env u sid token q s (allowed, l) =
    let s' = record s { reauth_limiter = l } in
    after_group c env u sid token q s' (guard_group check u q s')

-- After the session check.
unfoldable pub after_auth :
    Config → Env → Env → Caller → Protected → Server → Access → Response × Server
unfolding after_limit
after_auth c check env caller q s (denied why) = (plain why, s)
after_auth c check env caller q s (passed u sid token) = after_limit c check env u sid token q s (
    if is_reauth q
    then request reauth_rate caller.client (check.clock 3) s.reauth_limiter
    else (allowed, s.reauth_limiter))

abbrev with_expires : Option ℕ → Response × Server → Response × Server
with_expires expires (r, s) = (record r { expires = expires }, s)

-- A route of the group that needs a session. `check` is what the middleware meets, `env` the handler.
unfoldable pub serve_protected :
    Config → Env → Env → Caller → Protected → Server → Response × Server
unfolding after_auth
serve_protected c check env caller q s =
    let out = auth check c.ttl (extract_token caller.cookie caller.authorization) s.db in
    with_expires out.expires_header (after_auth c check env caller q (with_db out.db s) out.access)

cookie_of : Config → Option Text → Option Cookie
unfolding set_token_cookie
cookie_of c none = none
cookie_of c (some token) = some (set_token_cookie c token)

signed_on : Config → Server → SignIn → Response × Server
unfolding cookie_of
signed_on c s out = (with_cookie (cookie_of c out.cookie) (plain out.reply), with_db out.db s)

after_auth_limit : Server → (Server → Response × Server) → Verdict × Limiter → Response × Server
unfolding too_many
after_auth_limit s k (refused wait, l) = (too_many wait, record s { auth_limiter = l })
after_auth_limit s k (allowed, l) = k (record s { auth_limiter = l })

limited : Env → Caller → Server → (Server → Response × Server) → Response × Server
unfolding after_auth_limit
limited check caller s k =
    after_auth_limit s k (request auth_rate caller.client (check.clock 0) s.auth_limiter)

-- The whole server.
unfoldable pub serve_api : Config → Env → Env → Caller → Api → Server → Response × Server
unfolding limited signed_on serve_protected
serve_api c check env caller preflight s = (plain (reply 204 empty), s)
serve_api c check env caller get_status s = (plain (reply 200 (message "API is running")), s)
serve_api c check env caller get_version s = (plain (reply 200 (version c.version)), s)
serve_api c check env caller get_branding s = replied s (show_organization env s.provider s.db)
serve_api c check env caller get_logo s = replied s (show_logo env s.provider s.db)
serve_api c check env caller (get_kdf name) s =
    limited check caller s
      (λ s'. read_only s' (reply 200 (kdf (kdf_params env c.secret name s'.db))))
serve_api c check env caller (post_register r) s =
    limited check caller s
      (λ s'. signed_on c s' (register env c.ttl s'.provider.mode s'.provider.open_reg r s'.db))
serve_api c check env caller (post_login r) s =
    limited check caller s (λ s'. signed_on c s' (login env c.ttl r s'.db))
serve_api c check env caller (protected q) s = serve_protected c check env caller q s
