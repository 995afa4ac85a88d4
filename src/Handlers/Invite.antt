-- ===== src/Handlers/Invite.antt =====
-- handlers/invite.go, for an administrator of an organization. Statement 0 is the first of a
-- handler, 1 the second, and the last one is the audit event.
pub mod Laws
mod Tests
use librelock_server.Common.Sorts.{sort_by}
use librelock_server.Common.{
  ltb, leb, ◌==◌, if◌then◌else◌, length, any, count, filter, Text, text, text_eq, ℕ, ◌+◌, ◌*◌, Bool,
  not, ◌&&◌, ◌||◌, Option, none, some, List, [], ◌∷◌, ◌++◌, map,
}
use librelock_server.Crypto.Token.{hash_token}
use librelock_server.Env.{hour, Env}
use librelock_server.Handlers.Helpers.{find, record_audit}
use librelock_server.Http.{
  Reply, reply, fail, invalid, empty, invite, invites, deleted, InviteStatus, used, expired,
  pending, InviteSummary,
}
use librelock_server.Models.{
  is_used, is_expired, User, Invite, invite_created, invite_revoked, Db, rows, map_table,
}

-- `inviteStatus`
unfoldable pub invite_status : ℕ → Invite → InviteStatus
invite_status now i = if is_used i then used else if is_expired now i then expired else pending

-- `inviteSummary`
unfoldable pub invite_summary : ℕ → Invite → InviteSummary
invite_summary now i = record {
  id = i.id;
  note = i.note;
  status = invite_status now i;
  created_by = i.created_by;
  expires_at = i.expires_at;
  used_at = i.used_at;
  created_at = i.created_at;
}

-- A request that names no number of days, or 0, has `expires_in_days` 0.
pub record InviteRequest : Type 0 where
  pub note : Text
  pub expires_in_days : ℕ

-- The binding tags of `createInviteRequest`
abbrev pub is_valid_request : InviteRequest → Bool
is_valid_request r = leb (length r.note) 200 && leb r.expires_in_days 90

abbrev default_invite_days : ℕ
default_invite_days = 1

abbrev pub days_of : InviteRequest → ℕ
days_of r = if r.expires_in_days == 0 then default_invite_days else r.expires_in_days

abbrev pub new_invite : Env → User → Text → InviteRequest → Invite
new_invite env admin token r = record {
  id = env.uuid 0;
  token_hash = hash_token env.sha256 token;
  note = r.note;
  created_by = admin.id;
  expires_at = env.clock 0 + days_of r * (24 * hour);
  used_at = none;
  created_at = env.clock 1;
}

-- INSERT INTO invite; `none` is an error, of which a missing table and a token or an id that is
-- there already are kinds.
unfoldable pub insert_invite : Bool → Invite → Db → Option Db
insert_invite fault i db = elim db.invites [
  | none ↦ none
  | some is ↦
      if fault || any (λ j. j.id == i.id || text_eq j.token_hash i.token_hash) is
      then none
      else some (record db { invites = some (is ++ i ∷ []) })
]

minted : Env → User → Text → Invite → Db → Option Db → Reply × Db
minted env admin token i db none = (fail 500 "Failed to create invite", db)
minted env admin token i db (some db') = (
  reply 201 (invite (invite_summary (env.clock 3) i) token),
  record_audit (env.fault 1) (env.uuid 1) (env.clock 2) invite_created admin none i.note db',
)

-- `CreateInvite`, with the token that IssueCode(16) returned
unfoldable pub create_invite : Env → User → Text → Option InviteRequest → Db → Reply × Db
unfolding minted
create_invite env admin token none db = (reply 422 invalid, db)
create_invite env admin token (some r) db =
    if not (is_valid_request r)
    then (reply 422 invalid, db)
    else let i = new_invite env admin token r in
      minted env admin token i db (insert_invite (env.fault 0) i db)

-- `created_at desc`: an insertion sort that keeps equal rows in order.
unfoldable pub newest_first : List Invite → List Invite
newest_first = sort_by (λ i j. ltb j.created_at i.created_at)

-- `ListInvites`; the statuses are all taken at one time.
unfoldable pub list_invites : Env → Db → Reply
list_invites env db = elim (if env.fault 0 then none else db.invites) [
  | none ↦ fail 500 "Failed to load invites"
  | some is ↦ reply 200 (invites (map (invite_summary (env.clock 0)) (newest_first is)))
]

-- The rows that a prune deletes.
unfoldable pub is_pruned : (all : Bool) → ℕ → Invite → Bool
is_pruned all now i = all || (is_used i || ltb i.expires_at now)

pruned : Env → User → Bool → Db → Option (List Invite) → Reply × Db
pruned env actor all db none = (fail 500 "Failed to prune invites", db)
pruned env actor all db (some is) =
    let gone = is_pruned all (env.clock 0) in
    (
      reply 200 (deleted (count gone is)),
      record_audit (env.fault 1) (env.uuid 0) (env.clock 1) invite_revoked actor none []
          (record db { invites = some (filter (λ i. not (gone i)) is) }),
    )

-- `PruneInvites`, where the scope is "all" or any other word
unfoldable pub prune_invites : Env → User → (scope : Text) → Db → Reply × Db
unfolding pruned
prune_invites env actor scope db =
    pruned env actor (text_eq scope (text "all")) db (if env.fault 0 then none else db.invites)

revoked : Env → User → Db → Option Invite → Reply × Db
revoked env actor db none = (fail 404 "Invite not found", db)
revoked env actor db (some i) = if env.fault 1 then (fail 500 "Failed to revoke invite", db) else (
  reply 204 empty,
  record_audit (env.fault 2) (env.uuid 0) (env.clock 0) invite_revoked actor (some i.id) i.note
      (record db { invites = map_table (filter (λ j. not (j.id == i.id))) db.invites }),
)

-- `RevokeInvite`
unfoldable pub revoke_invite : Env → User → ℕ → Db → Reply × Db
unfolding revoked
revoke_invite env actor id db =
    revoked env actor db (find (env.fault 0) Invite.id (λ i. i.id == id) (rows db.invites))
