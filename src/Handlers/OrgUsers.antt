-- ===== src/Handlers/OrgUsers.antt =====
-- handlers/orgusers.go. The actor is the row that the session check loaded; the guard of the
-- routes has let only administrators of an organization through. Statements: 0 finds the target,
-- 1 counts the administrators, 2 writes the account, 3 deletes sessions and 4 is the audit event.
pub mod Laws
pub mod Owners
pub mod Suspension
mod Tests
use librelock_server.Common.Sorts.{sort_by}
use librelock_server.Common.{
  ltb, leb, ◌==◌, if◌then◌else◌, filter, update, ℕ, Bool, not, ◌&&◌, ◌||◌, Option, none, some, List,
  map,
}
use librelock_server.Env.{Env}
use librelock_server.Http.{Reply, reply, fail, user_summary, user_summaries, invalid, empty}
use librelock_server.Models.{
  Role, owner, member, Status, active, suspended, is_admin_role, is_owner, is_active, same_role,
  same_status, User, Action, user_role_changed, owner_added, user_suspended, user_reactivated,
  user_removed, Db, delete_users,
}
use librelock_server.Handlers.Helpers.{find, count_active_admins, user_summary_of, record_audit}
use librelock_server.Handlers.Settings.Account.{set_user}

-- `findUser`: a reply, or the target.
pub data Found : Type 0 where
  missing : Reply → Found
  target : User → Found

abbrev pub found_or_missing : Option User → Found
found_or_missing none = missing (fail 404 "User not found")
found_or_missing (some u) = target u

unfoldable pub find_user : Env → User → ℕ → Db → Found
find_user env actor id db =
    if id == actor.id
    then missing (fail 422 "You cannot modify your own account here")
    else found_or_missing (find (env.fault 0) User.id (λ u. u.id == id) db.users)

-- `guardOwnerTarget`
unfoldable pub guard_owner_target : User → User → Bool
guard_owner_target actor u = not (is_owner u.role) || is_owner actor.role

abbrev pub owner_only : Reply
owner_only = fail 403 "Only an owner can modify another owner"

abbrev audit : Env → Action → User → User → Db → Db
audit env action actor u db =
    record_audit (env.fault 4) (env.uuid 0) (env.clock 0) action actor (some u.id) u.username db

abbrev summary : User → Reply
summary u = reply 200 (user_summary (user_summary_of u))

abbrev pub with_role : Role → User → User
with_role r u = record u { role = r }

abbrev pub with_status : Status → User → User
with_status st u = record u { status = st }

-- `grantOwnership`
unfoldable pub grant_ownership : Env → User → User → Db → Reply × Db
grant_ownership env actor u db =
    if not (is_owner actor.role)
    then (fail 403 "Only an owner can add another owner", db)
    else if is_owner u.role
    then (summary u, db)
    else if not (is_active u.status)
    then (fail 422 "Cannot make a suspended user an owner", db)
    else if env.fault 2
    then (fail 500 "Failed to add owner", db)
    else (
      summary (with_role owner u),
      audit env owner_added actor u (set_user u.id (with_role owner) db),
    )

-- What follows the search for the target, for a role other than owner.
unfoldable pub change_role : Env → User → User → Role → Db → Reply × Db
change_role env actor u r db =
    if not (guard_owner_target actor u)
    then (owner_only, db)
    else if same_role u.role r
    then (summary u, db)
    else if same_role r member
        && is_admin_role u.role
        && leb (count_active_admins (env.fault 1) db) 1
    then (fail 422 "Cannot demote the last admin", db)
    else if env.fault 2
    then (fail 500 "Failed to update role", db)
    else (
      summary (with_role r u),
      audit env user_role_changed actor u (set_user u.id (with_role r) db),
    )

unfoldable pub role_of_found : Env → User → Role → Db → Found → Reply × Db
role_of_found env actor r db (missing why) = (why, db)
role_of_found env actor r db (target u) =
    if is_owner r then grant_ownership env actor u db else change_role env actor u r db

-- `UpdateUserRole`
unfoldable pub update_user_role : Env → User → ℕ → Option Role → Db → Reply × Db
unfolding role_of_found
update_user_role env actor id none db = (reply 422 invalid, db)
update_user_role env actor id (some r) db = role_of_found env actor r db (find_user env actor id db)

abbrev pub drop_sessions : Bool → ℕ → Db → Db
drop_sessions fault id db =
    if fault then db else record db { sessions = filter (λ s. not (s.user_id == id)) db.sessions }

unfoldable pub after_status : Env → User → User → Status → Db → Db
after_status env actor u suspended db =
    audit env user_suspended actor u (drop_sessions (env.fault 3) u.id db)
after_status env actor u active db = audit env user_reactivated actor u db

-- What follows the search for the target.
unfoldable pub change_status : Env → User → User → Status → Db → Reply × Db
unfolding after_status
change_status env actor u st db =
    if not (guard_owner_target actor u)
    then (owner_only, db)
    else if same_status u.status st
    then (summary u, db)
    else if same_status st suspended
        && is_admin_role u.role
        && leb (count_active_admins (env.fault 1) db) 1
    then (fail 422 "Cannot suspend the last admin", db)
    else if env.fault 2
    then (fail 500 "Failed to update status", db)
    else (
      summary (with_status st u),
      after_status env actor u st (set_user u.id (with_status st) db),
    )

unfoldable pub status_of_found : Env → User → Status → Db → Found → Reply × Db
status_of_found env actor st db (missing why) = (why, db)
status_of_found env actor st db (target u) = change_status env actor u st db

-- `UpdateUserStatus`
unfoldable pub update_user_status : Env → User → ℕ → Option Status → Db → Reply × Db
unfolding status_of_found
update_user_status env actor id none db = (reply 422 invalid, db)
update_user_status env actor id (some st) db =
    status_of_found env actor st db (find_user env actor id db)

-- What follows the search for the target.
unfoldable pub remove_found : Env → User → Db → Found → Reply × Db
remove_found env actor db (missing why) = (why, db)
remove_found env actor db (target u) =
    if not (guard_owner_target actor u)
    then (owner_only, db)
    else if is_admin_role u.role && leb (count_active_admins (env.fault 1) db) 1
    then (fail 422 "Cannot remove the last admin", db)
    else if env.fault 2
    then (fail 500 "Failed to remove user", db)
    else (reply 204 empty, audit env user_removed actor u (delete_users (λ v. v.id == u.id) db))

-- `RemoveUser`
unfoldable pub remove_user : Env → User → ℕ → Db → Reply × Db
unfolding remove_found
remove_user env actor id db = remove_found env actor db (find_user env actor id db)

-- `created_at asc`: an insertion sort that keeps equal rows in order.
unfoldable pub by_age : List User → List User
by_age = sort_by (λ u v. ltb u.created_at v.created_at)

-- `ListUsers`
unfoldable pub list_users : Env → Db → Reply
list_users env db =
    if env.fault 0
    then fail 500 "Failed to load users"
    else reply 200 (user_summaries (map user_summary_of (by_age db.users)))

-- The three requests on one account, as main.go routes them.
pub data Manage : Type 0 where
  put_role : Option Role → Manage
  put_status : Option Status → Manage
  delete : Manage

unfoldable pub manage : Env → User → ℕ → Manage → Db → Reply × Db
manage env actor id (put_role r) db = update_user_role env actor id r db
manage env actor id (put_status st) db = update_user_status env actor id st db
manage env actor id delete db = remove_user env actor id db
