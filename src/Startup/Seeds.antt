-- ===== src/Startup/Seeds.antt =====
-- `EnsureServerSecret` and `EnsureOrgOwner` of db/db.go, and `PurgeExpiredSessions` of
-- db/sessions.go.
use librelock_server.Common.{
  ltb, leb, if◌then◌else◌, count, filter, Text, is_empty, ℕ, Bool, false, not, Option, none, some,
  List, [], ◌∷◌,
}
use librelock_server.AppMode.{promote}
use librelock_server.Crypto.Token.{issue_token}
use librelock_server.Handlers.Helpers.{first_account}
use librelock_server.Models.{AppState, Db, Mode, is_owner}

abbrev with_secret : Text → AppState → AppState
with_secret secret st = record st { server_secret = secret }

abbrev first_state : Mode → Text → AppState
first_state m secret = record {
  mode = m;
  server_secret = secret;
  allow_registration = false;
  schema_version = 0;
  app_version = [];
}

unfoldable pub secret_of : Bool → Mode → Text → List AppState → Option (Text × List AppState)
secret_of fault m fresh [] = if fault then none else some (fresh, first_state m fresh ∷ [])
secret_of fault m fresh (st ∷ sts) =
    if not (is_empty st.server_secret)
    then some (st.server_secret, st ∷ sts)
    else if fault
    then none
    else some (fresh, with_secret fresh st ∷ sts)

abbrev pub with_states : Db → Option (Text × List AppState) → Option (Text × Db)
with_states db none = none
with_states db (some (secret, sts)) = some (secret, record db { app_state = sts })

-- `EnsureServerSecret`; `none` stops the process.
unfoldable pub ensure_server_secret : (ℕ → Bool) → List ℕ → Mode → Db → Option (Text × Db)
unfolding secret_of
ensure_server_secret fault bytes m db =
    if fault 0
    then none
    else with_states db (secret_of (fault 1) m (issue_token bytes) db.app_state)

-- `EnsureOrgOwner`: a count that fails is 0. First orders by the id after the time of creation.
unfoldable pub ensure_org_owner : (ℕ → Bool) → Db → Db
ensure_org_owner fault db =
    if ltb 0 (if fault 0 then 0 else count (λ u. is_owner u.role) db.users)
    then db
    else elim (first_account (fault 1) db) [
      | none ↦ db
      | some u ↦ if fault 2 then db else promote u.id db
    ]

-- `PurgeExpiredSessions`
unfoldable pub purge_expired_sessions : Bool → ℕ → Db → ℕ × Db
purge_expired_sessions fault now db = if fault then (0, db) else (
  count (λ s. leb s.expires_at now) db.sessions,
  record db { sessions = filter (λ s. not (leb s.expires_at now)) db.sessions },
)
