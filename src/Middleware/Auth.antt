-- ===== src/Middleware/Auth.antt =====
-- middleware/auth.go, middleware/admin.go and middleware/membership.go. The TTL is in seconds; one
-- that is not positive counts as 0.
pub mod Laws
pub mod Sliding
mod Tests
use librelock_server.Common.{
  trim_prefix, ltb, ◌==◌, if◌then◌else◌, any, update, Text, text, text_eq, is_empty, ℕ, ◌+◌, ◌*◌,
  ◌/◌, Bool, not, ◌&&◌, Option, none, some, List, [],
}
use librelock_server.Crypto.Token.{hash_token}
use librelock_server.Env.{Env, second}
use librelock_server.Http.{Reply, fail}
use librelock_server.Models.{
  is_admin_role, is_active, User, Session, Mode, personal, organization, Db, rows, first,
}

abbrev text_or_empty : Option Text → Text
text_or_empty none = []
text_or_empty (some s) = s

-- `extractToken`, from the token cookie and the Authorization header
unfoldable pub extract_token : Option Text → Text → Text
extract_token none header = text_or_empty (trim_prefix (text "Bearer ") header)
extract_token (some cookie) header =
    if is_empty cookie then text_or_empty (trim_prefix (text "Bearer ") header) else cookie

pub data Access : Type 0 where
  denied : Reply → Access
  -- the user, the session's id and the token that the context keeps
  passed : User → ℕ → Text → Access

-- `expires_header` is the time that X-Session-Expires names.
pub record Outcome : Type 0 where
  pub access : Access
  pub expires_header : Option ℕ
  pub db : Db

-- `time.Duration(ttl)*time.Second/2`
abbrev pub half_window : ℕ → ℕ
half_window ttl = ttl * second / 2

abbrev pub is_live : ℕ → Text → Session → Bool
is_live now hash s = text_eq s.token_hash hash && ltb now s.expires_at

-- The expiry after a request.
unfoldable pub slide : ℕ → (ℕ → ℕ) → ℕ → ℕ
slide ttl clock expires =
    if ltb 0 ttl && ltb expires (clock 2 + half_window ttl) then clock 1 + ttl * second else expires

abbrev touch : ℕ → ℕ → Session → Session
touch now expires s = record s { last_used_at = now; expires_at = expires }

-- Statement 1; its error is not looked at.
unfoldable pub touch_session : Bool → ℕ → ℕ → ℕ → Db → Db
touch_session fault id now expires db =
    if fault
    then db
    else record db { sessions = update (λ s. s.id == id) (touch now expires) db.sessions }

-- What follows the search for the user.
admit : Option User → ℕ → Text → Access
admit none id token = denied (fail 401 "User not found")
admit (some u) id token =
    if is_active u.status then passed u id token else denied (fail 403 "Account suspended")

abbrev pub find {ℓ} : {A : Type ℓ} → Bool → (A → ℕ) → (A → Bool) → List A → Option A
find fault key p xs = if fault then none else first key p xs

unfoldable pub with_session : Env → ℕ → Text → Db → Option Session → Outcome
unfolding touch_session admit slide
with_session env ttl token db none = record {
  access = denied (fail 401 "Session expired or invalid");
  expires_header = none;
  db = db;
}
with_session env ttl token db (some s) =
    let expires = slide ttl env.clock s.expires_at in
    record {
      access = admit (find (env.fault 2) User.id (λ u. u.id == s.user_id) db.users) s.id token;
      expires_header = some expires;
      db = touch_session (env.fault 1) s.id (env.clock 1) expires db;
    }

-- `Auth`
unfoldable pub auth : Env → ℕ → Text → Db → Outcome
unfolding with_session
auth env ttl token db =
    if is_empty token
    then record { access = denied (fail 401 "Unauthorized"); expires_header = none; db = db }
    else with_session env ttl token db (
        find (env.fault 0) Session.id (is_live (env.clock 0) (hash_token env.sha256 token))
          db.sessions)

-- `RequireAdmin`; `none` lets the request pass.
unfoldable pub require_admin : Mode → User → Option Reply
require_admin personal user = some (fail 403 "Not available in personal mode")
require_admin organization user =
    if is_admin_role user.role then none else some (fail 403 "Admin access required")

-- `RequireMembership`. A count that fails, as that of a missing table does, counts none.
unfoldable pub require_membership : Bool → Mode → User → Db → Option Reply
require_membership fault personal user db = some (fail 403 "Not available in personal mode")
require_membership fault organization user db =
    if not fault && any (λ m. m.user_id == user.id) (rows db.memberships)
    then none
    else some (fail 403 "Shared access required")
