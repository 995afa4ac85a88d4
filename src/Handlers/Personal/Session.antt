-- ===== src/Handlers/Personal/Session.antt =====
-- handlers/session.go. Statement 0 is the first of a handler and 1 the second.
use librelock_server.Common.Sorts.{sort_by}
use librelock_server.Common.{
  ltb, ◌==◌, if◌then◌else◌, filter, ℕ, Bool, not, ◌&&◌, Option, none, some, List, [],
}
use librelock_server.Env.{Env}
use librelock_server.Handlers.Helpers.{find}
use librelock_server.Http.{Reply, reply, fail, message, sessions}
use librelock_server.Models.{User, Session, Db}

-- `last_used_at DESC`: an insertion sort that keeps equal rows in order.
unfoldable pub by_use : List Session → List Session
by_use = sort_by (λ s t. ltb t.last_used_at s.last_used_at)

-- `Index`; an error gives no rows.
unfoldable pub index_sessions : Env → User → Db → Reply
index_sessions env u db = reply 200 (
    sessions (
      if env.fault 0
      then []
      else by_use (filter (λ s. s.user_id == u.id && ltb (env.clock 0) s.expires_at) db.sessions)))

abbrev drop_session : Bool → ℕ → Db → Db
drop_session fault id db =
    if fault then db else record db { sessions = filter (λ s. not (s.id == id)) db.sessions }

abbrev pub ended : Env → Db → Option Session → Reply × Db
ended env db none = (fail 404 "Not found", db)
ended env db (some s) =
    (reply 200 (message "Session destroyed"), drop_session (env.fault 1) s.id db)

-- `Destroy`; the error of the deletion is not looked at.
unfoldable pub destroy_session : Env → User → ℕ → Db → Reply × Db
destroy_session env u id db =
    ended env db (find (env.fault 0) Session.id (λ s. s.id == id && s.user_id == u.id) db.sessions)

-- `DestroyAll`, for the session that the session check kept; the error is not looked at.
unfoldable pub destroy_all : Env → User → (current : ℕ) → Db → Reply × Db
destroy_all env u current db = (
  reply 200 (message "All other sessions destroyed"),
  if env.fault 0 then db else record db {
    sessions = filter (λ s. not (s.user_id == u.id && not (s.id == current))) db.sessions;
  },
)
