-- ===== src/Handlers/OrgUsers/Suspension.antt =====
-- What a suspension does to the sessions.
use librelock_server.Common.{
  ◌≢◌, inl, inr, ◌∙◌, sym, Text, ◌==◌, any, filter, ℕ, ◌≡◌, refl, true, false, not, some, List, [],
  ◌∷◌, arith,
}
use librelock_server.Env.{Env}
use librelock_server.Handlers.OrgUsers.{with_status, after_status, drop_sessions, change_status}
use librelock_server.Handlers.OrgUsers.Laws.{record_audit-sessions}
use librelock_server.Handlers.Settings.Account.{set_user}
use librelock_server.Middleware.Auth.{auth, passed}
use librelock_server.Middleware.Auth.Laws.{auth_passes_only}
use librelock_server.Models.{suspended, is_active, User, Session, user_suspended, Db}
use librelock_server.Models.First.{Has}

filtered :
    (id : ℕ) (ss : List Session)
    → any (λ s. s.user_id == id) (filter (λ s. not (s.user_id == id)) ss) ≡ false
filtered id [] = refl
filtered id (s ∷ ss) = ground (arith, filtered id ss)

after_suspension :
    (env : Env) (actor u : User) (db : Db)
    → env.fault 3 ≡ false
    → (after_status env actor u suspended db).sessions
      ≡ filter (λ s. not (s.user_id == u.id)) db.sessions
unfolding after_status
after_suspension env actor u db f = ground (
  arith,
  record_audit-sessions (env.fault 4) (env.uuid 0) (env.clock 0) user_suspended actor (some u.id)
      u.username (drop_sessions (env.fault 3) u.id db),
)

-- A suspension of an active account that answers with success leaves no session of the account,
-- if their deletion does not fail.
pub change_status-ends_sessions :
    (env : Env) (actor u : User) (db : Db)
    → is_active u.status ≡ true
    → env.fault 3 ≡ false
    → let out = change_status env actor u suspended db in
      out.0.status ≡ 200 → any (λ s. s.user_id == u.id) out.1.sessions ≡ false
unfolding change_status
change_status-ends_sessions env actor u db on f ok = ground (
  arith,
  after_suspension env actor u (set_user u.id (with_status suspended) db) f,
  filtered u.id db.sessions,
)

unowned :
    (id : ℕ) (s : Session) (ss : List Session)
    → any (λ r. r.user_id == id) ss ≡ false
    → Has s ss
    → s.user_id ≢ id
unowned id s [] h m e = absurd m
unowned id s (r ∷ rs) h (inl same) e = ground arith
unowned id s (r ∷ rs) h (inr later) e = unowned id s rs (ground arith) later e

-- After a suspension of an active account that answers with success, no token gets past the
-- session check as that account in the database that the suspension leaves, if the deletion of
-- its sessions does not fail.
pub suspension-shuts_out :
    (env check : Env) (actor u v : User) (db : Db) (ttl sid : ℕ) (token tok : Text)
    → is_active u.status ≡ true
    → env.fault 3 ≡ false
    → let out = change_status env actor u suspended db in
      out.0.status ≡ 200 → (auth check ttl token out.1).access ≡ passed v sid tok → v.id ≢ u.id
suspension-shuts_out env check actor u v db ttl sid token tok on f ok e same =
    let out = change_status env actor u suspended db in
    let (s, is_in, i, t) = auth_passes_only check ttl token out.1 v sid tok e in
    unowned u.id s out.1.sessions (change_status-ends_sessions env actor u db on f ok) is_in.session
      (sym is_in.owner ∙ same)
