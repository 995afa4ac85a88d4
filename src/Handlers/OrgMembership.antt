-- ===== src/Handlers/OrgMembership.antt =====
-- handlers/orgmembership.go. Statement 0 is the search of the account, or the first of a list, 1
-- the write, and 2 the audit event.
pub mod Laws
mod Tests
use librelock_server.Common.{
  ◌==◌, if◌then◌else◌, is_some, length, any, filter, update, Text, is_empty, ℕ, Bool, not, ◌||◌,
  Option, none, some, List, [], ◌∷◌, ◌++◌, map,
}
use librelock_server.Env.{Env}
use librelock_server.Http.{
  Reply, reply, fail, invalid, empty, Member, members, membership, wrapped_key,
}
use librelock_server.Models.{
  User, is_active, is_owner, Membership, shared_access_granted, shared_access_revoked, Db, rows,
  map_table,
}
use librelock_server.Handlers.Helpers.{find, record_audit}
use librelock_server.Handlers.Auth.Requests.{within}
use librelock_server.Handlers.OrgUsers.{by_age}

abbrev pub is_of : ℕ → Membership → Bool
is_of id m = m.user_id == id

-- `MyOrgKey`
unfoldable pub my_org_key : Env → User → Db → Reply
my_org_key env u db =
    elim (find (env.fault 0) Membership.user_id (is_of u.id) (rows db.memberships)) [
      | none ↦ fail 404 "No shared access"
      | some m ↦ reply 200 (wrapped_key m.wrapped_key)
    ]

member_of : List Membership → User → Member
member_of ms u = record {
  user_id = u.id;
  username = u.username;
  role = u.role;
  status = u.status;
  public_key = u.public_key;
  has_access = any (is_of u.id) ms;
}

-- `ListMemberships`; a search of the memberships that fails gives none.
unfoldable pub list_memberships : Env → Db → Reply
unfolding member_of
list_memberships env db =
    if env.fault 0
    then fail 500 "Failed to load users"
    else reply 200 (
        members
          (map (member_of (if env.fault 1 then [] else rows db.memberships)) (by_age db.users)))

pub record GrantRequest : Type 0 where
  pub user_id : ℕ
  pub wrapped_key : Text

abbrev pub new_membership : User → User → Text → Membership
new_membership actor u key = record { user_id = u.id; wrapped_key = key; granted_by = actor.id }

-- The INSERT whose conflict on `user_id` updates the row.
unfoldable pub upsert : Membership → List Membership → List Membership
upsert m ms =
    if any (is_of m.user_id) ms
    then update (is_of m.user_id)
        (λ k. record k { wrapped_key = m.wrapped_key; granted_by = m.granted_by }) ms
    else ms ++ m ∷ []

-- What follows the search of `GrantMembership`. A table that is not there is an error.
unfoldable pub grant_found : Env → User → Text → Db → Option User → Reply × Db
grant_found env actor key db none = (fail 404 "User not found", db)
grant_found env actor key db (some u) =
    if not (is_active u.status)
    then (fail 422 "Cannot grant access to a suspended user", db)
    else if is_empty u.public_key
    then (fail 422 "This user has not set up a sharing key yet", db)
    else if env.fault 1 || not (is_some db.memberships)
    then (fail 500 "Failed to grant access", db)
    else (
      reply 200 (membership u.id),
      record_audit (env.fault 2) (env.uuid 0) (env.clock 0) shared_access_granted actor (some u.id)
          u.username
          (record db {
            memberships = map_table (upsert (new_membership actor u key)) db.memberships;
          }),
    )

-- `GrantMembership`
unfoldable pub grant_membership : Env → User → Option GrantRequest → Db → Reply × Db
grant_membership env actor none db = (reply 422 invalid, db)
grant_membership env actor (some r) db =
    if not (within 1 4096 (length r.wrapped_key))
    then (reply 422 invalid, db)
    else grant_found env actor r.wrapped_key db
        (find (env.fault 0) User.id (λ u. u.id == r.user_id) db.users)

-- What follows the search of `RevokeMembership`.
unfoldable pub revoke_found : Env → User → Db → Option User → Reply × Db
revoke_found env actor db none = (fail 404 "User not found", db)
revoke_found env actor db (some u) =
    if is_owner u.role
    then (fail 403 "An owner cannot lose shared access", db)
    else if env.fault 1 || not (is_some db.memberships)
    then (fail 500 "Failed to revoke access", db)
    else (
      reply 204 empty,
      record_audit (env.fault 2) (env.uuid 0) (env.clock 0) shared_access_revoked actor (some u.id)
          u.username
          (record db { memberships = map_table (filter (λ m. not (is_of u.id m))) db.memberships }),
    )

-- `RevokeMembership`; the id of the path is that of the account found.
unfoldable pub revoke_membership : Env → User → ℕ → Db → Reply × Db
revoke_membership env actor id db =
    revoke_found env actor db (find (env.fault 0) User.id (λ u. u.id == id) db.users)
