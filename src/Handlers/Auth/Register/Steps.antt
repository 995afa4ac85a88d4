-- ===== src/Handlers/Auth/Register/Steps.antt =====
-- What the steps after the account leave of the accounts and the invites.
use librelock_server.Common.{
  Text, ℕ, suc, ◌≡◌, refl, ◌∙◌, Bool, Option, none, some, List, [], ◌∷◌, arith,
}
use librelock_server.Env.{Env}
use librelock_server.Handlers.Auth.Register.{
  after_account, burn_invite, add_category, add_categories, open_first_session, audit_registration,
}
use librelock_server.Handlers.Auth.Requests.{RegisterRequest, create_session_for}
use librelock_server.Handlers.Helpers.{record_audit}
use librelock_server.Models.{
  User, Mode, personal, organization, Invite, Db, create_session, create_category,
}

-- The two tables that the later steps of a registration leave alone.
abbrev pub SameAccounts : Db → Db → Type 0
SameAccounts db db' = (db'.users ≡ db.users) × (db'.invites ≡ db.invites)

add_category-SameAccounts :
    (env : Env) (i id : ℕ) (name : Text) (db : Db) → SameAccounts db (add_category env i id name db)
unfolding add_category create_category
add_category-SameAccounts env i id [] db = (refl, refl)
add_category-SameAccounts env i id (c ∷ name) db = (ground arith, ground arith)

add_categories-SameAccounts :
    (env : Env) (i id : ℕ) (names : List Text) (db : Db)
    → SameAccounts db (add_categories env i id names db)
unfolding add_categories
add_categories-SameAccounts env i id [] db = (refl, refl)
add_categories-SameAccounts env i id (name ∷ names) db =
    let (u, v) = add_categories-SameAccounts env (suc i) id names (add_category env i id name db) in
    let (u', v') = add_category-SameAccounts env i id name db in (u ∙ u', v ∙ v')

audit-SameAccounts :
    (env : Env) (mode : Mode) (u : User) (db : Db)
    → SameAccounts db (audit_registration env mode u db)
unfolding record_audit
audit-SameAccounts env personal u db = (refl, refl)
audit-SameAccounts env organization u db = (ground arith, ground arith)

open_first_session-SameAccounts :
    (env : Env) (ttl : ℕ) (u : User) (db : Db)
    → SameAccounts db (open_first_session env ttl u db).db
unfolding create_session_for create_session
open_first_session-SameAccounts env ttl u db = (ground arith, ground arith)

burn_invite-users :
    (fault : Bool) (now : ℕ) (inv : Option Invite) (db : Db)
    → (burn_invite fault now inv db).users ≡ db.users
unfolding burn_invite
burn_invite-users fault now none db = refl
burn_invite-users fault now (some i) db = ground arith

-- After the account is written, its row stays, and the invites change only by the one used.
pub after_account_tables :
    (env : Env) (ttl : ℕ) (mode : Mode) (r : RegisterRequest) (u : User) (inv : Option Invite)
    (db : Db)
    → let db' = (after_account env ttl mode r u inv db).db in
      (db'.users ≡ db.users)
      × (db'.invites ≡ (burn_invite (env.fault 6) (env.clock 2) inv db).invites)
unfolding after_account
after_account_tables env ttl mode r u inv db =
    let db1 = burn_invite (env.fault 6) (env.clock 2) inv db in
    let db2 = audit_registration env mode u db1 in
    let db3 = add_categories env 0 u.id r.categories db2 in
    let (a, b) = open_first_session-SameAccounts env ttl u db3 in
    let (a', b') = add_categories-SameAccounts env 0 u.id r.categories db2 in
    let (a'', b'') = audit-SameAccounts env mode u db1 in
    (a ∙ a' ∙ a'' ∙ burn_invite-users (env.fault 6) (env.clock 2) inv db, b ∙ b' ∙ b'')
