-- ===== src/Handlers/Audit.antt =====
-- `ListAuditEvents` of handlers/audit.go.
pub mod Pages
mod Tests
use librelock_server.Common.{
  ltb, leb, ◌==◌, if◌then◌else◌, length, take, drop, Text, is_empty, ℕ, Bool, ◌&&◌, ◌||◌, Option,
  none, some,
}
use librelock_server.Env.{Env}
use librelock_server.Models.{AuditEvent}
use librelock_server.Common.Numbers.{atoi, ℤ}
use librelock_server.Models.{Db, Table}
use librelock_server.Common.Numbers.{pos}
use librelock_server.Http.{Reply}
use librelock_server.Common.Numbers.{negsuc}
use librelock_server.Http.{fail}
use librelock_server.Http.{reply}
use librelock_server.Http.{events}
use librelock_server.Common.Sorts.{sort_by}

-- The limit of a page: from 1 to 500, and 100 where the query names no such number.
limit_of : Option ℤ → ℕ
limit_of (some (pos n)) = if ltb 0 n && leb n 500 then n else 100
limit_of (some (negsuc _)) = 100
limit_of none = 100

unfoldable pub parse_limit : Text → ℕ
unfolding limit_of
parse_limit v = if is_empty v then 100 else limit_of (atoi v)

offset_of : Option ℤ → ℕ
offset_of (some (pos n)) = n
offset_of (some (negsuc _)) = 0
offset_of none = 0

unfoldable pub parse_offset : Text → ℕ
unfolding offset_of
parse_offset v = if is_empty v then 0 else offset_of (atoi v)

-- `created_at desc, id desc`
abbrev pub is_newer : AuditEvent → AuditEvent → Bool
is_newer a b = ltb b.created_at a.created_at || a.created_at == b.created_at && ltb b.id a.id

list_page : Env → ℕ → ℕ → Table AuditEvent → Reply
list_page env limit offset none = fail 500 "Failed to load audit log"
list_page env limit offset (some es) =
    if env.fault 0 || env.fault 1
    then fail 500 "Failed to load audit log"
    else reply 200 (events (take limit (drop offset (sort_by is_newer es))) (length es))

-- `ListAuditEvents`, with the texts of the two query parameters.
unfoldable pub list_audit_events : Env → Text → Text → Db → Reply
unfolding list_page
list_audit_events env limit offset db =
    list_page env (parse_limit limit) (parse_offset offset) db.audit_events
