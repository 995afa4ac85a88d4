-- ===== src/Handlers/OrgUsers/Laws.antt =====
-- What a request on one account may change.
use librelock_server.Common.{
  ◌==◌, filter, update, Text, ℕ, ◌≡◌, refl, ◌⊎◌, inl, inr, Bool, true, false, not, Option, some,
  List, arith, ==_iff, Bool-cases, none,
}
use librelock_server.Env.{Env}
use librelock_server.Handlers.Helpers.{record_audit, find}
use librelock_server.Handlers.OrgUsers.{
  missing, target, with_role, with_status, guard_owner_target, after_status, drop_sessions,
  grant_ownership, change_role, change_status, remove_found, owner, find_user, manage,
  found_or_missing, update_user_role, role_of_found, update_user_status, status_of_found,
  remove_user, Manage, delete, put_role, Found, put_status,
}
use librelock_server.Handlers.Settings.Account.{set_user}
use librelock_server.Models.{
  Role, Status, suspended, active, User, Db, delete_users, Action, user_removed, user_role_changed,
  user_suspended, owner_added, user_reactivated, is_owner,
}
use librelock_server.Models.First.{Has, Has-update_keeps, Has-filter_keeps, first-Has}

pub record_audit-users :
    (fault : Bool) (id now : ℕ) (action : Action) (actor : User) (t : Option ℕ) (name : Text)
    (db : Db)
    → (record_audit fault id now action actor t name db).users ≡ db.users
unfolding record_audit
record_audit-users fault id now action actor t name db = ground arith

pub record_audit-sessions :
    (fault : Bool) (id now : ℕ) (action : Action) (actor : User) (t : Option ℕ) (name : Text)
    (db : Db)
    → (record_audit fault id now action actor t name db).sessions ≡ db.sessions
unfolding record_audit
record_audit-sessions fault id now action actor t name db = ground arith

-- The rows of an operation on one account: as they were; or, if the actor may act on the account,
-- with that account changed, or without it.
pub data Changed (actor u : User) (us : List User) : List User → Type 0 where
  same : {us' : List User} → us' ≡ us → Changed actor u us us'
  edited :
      {us' : List User} (f : User → User)
      → guard_owner_target actor u ≡ true
      → us' ≡ update (λ v. v.id == u.id) f us
      → Changed actor u us us'
  removed :
      {us' : List User}
      → guard_owner_target actor u ≡ true
      → us' ≡ filter (λ v. not (v.id == u.id)) us
      → Changed actor u us us'

-- Whoever is not the account stays.
pub Changed-keeps :
    (actor u : User) (us : List User) {us' : List User} (v : User)
    → Changed actor u us us'
    → v.id == u.id ≡ false
    → Has v us
    → Has v us'
Changed-keeps actor u us v (same e) ne h = rw e h
Changed-keeps actor u us v (edited f g e) ne h =
    rw e (Has-update_keeps (λ w. w.id == u.id) f v us ne h)
Changed-keeps actor u us v (removed g e) ne h =
    rw e (Has-filter_keeps (λ w. not (w.id == u.id)) v us (ground arith) h)

Edits : User → User → (User → User) → List User → List User → Type 0
Edits actor u f us us' =
    (us' ≡ us) ⊎ ((guard_owner_target actor u ≡ true) × (us' ≡ update (λ v. v.id == u.id) f us))

Changed-of_Edits :
    (actor u : User) (f : User → User) (us us' : List User)
    → Edits actor u f us us'
    → Changed actor u us us'
unfolding Edits
Changed-of_Edits actor u f us us' (inl e) = same e
Changed-of_Edits actor u f us us' (inr (g, e)) = edited f g e

deleted_users :
    (id : ℕ) (db : Db)
    → (delete_users (λ v. v.id == id) db).users ≡ filter (λ v. not (v.id == id)) db.users
unfolding delete_users
deleted_users id db = refl

grant_ownership-Edits :
    (env : Env) (actor u : User) (db : Db)
    → Edits actor u (with_role owner) db.users (grant_ownership env actor u db).1.users
unfolding grant_ownership Edits guard_owner_target
grant_ownership-Edits env actor u db = ground (
  arith,
  record_audit-users (env.fault 4) (env.uuid 0) (env.clock 0) owner_added actor (some u.id)
      u.username (set_user u.id (with_role owner) db),
)

change_role-Edits :
    (env : Env) (actor u : User) (r : Role) (db : Db)
    → Edits actor u (with_role r) db.users (change_role env actor u r db).1.users
unfolding change_role Edits
change_role-Edits env actor u r db = ground (
  arith,
  record_audit-users (env.fault 4) (env.uuid 0) (env.clock 0) user_role_changed actor (some u.id)
      u.username (set_user u.id (with_role r) db),
)

after_status-users :
    (env : Env) (actor u : User) (st : Status) (db : Db)
    → (after_status env actor u st db).users ≡ db.users
unfolding after_status
after_status-users env actor u suspended db = ground (
  arith,
  record_audit-users (env.fault 4) (env.uuid 0) (env.clock 0) user_suspended actor (some u.id)
      u.username (drop_sessions (env.fault 3) u.id db),
)
after_status-users env actor u active db =
    record_audit-users (env.fault 4) (env.uuid 0) (env.clock 0) user_reactivated actor (some u.id)
      u.username db

change_status-Edits :
    (env : Env) (actor u : User) (st : Status) (db : Db)
    → Edits actor u (with_status st) db.users (change_status env actor u st db).1.users
unfolding change_status Edits
change_status-Edits env actor u st db =
    ground (arith, after_status-users env actor u st (set_user u.id (with_status st) db))

remove_found-Changed :
    (env : Env) (actor u : User) (db : Db)
    → Changed actor u db.users (remove_found env actor db (target u)).1.users
unfolding remove_found
remove_found-Changed env actor u db = elim cases [ inl e ↦ same e | inr (g, e) ↦ removed g e ]
  where
    cases :
        ((remove_found env actor db (target u)).1.users ≡ db.users)
        ⊎ ((guard_owner_target actor u ≡ true)
            × ((remove_found env actor db (target u)).1.users
                ≡ filter (λ v. not (v.id == u.id)) db.users))
    cases = ground (
      arith,
      deleted_users u.id db,
      record_audit-users (env.fault 4) (env.uuid 0) (env.clock 0) user_removed actor (some u.id)
          u.username (delete_users (λ v. v.id == u.id) db),
    )

-- The target of a request is an account other than the actor's.
pub record IsTarget (actor : User) (id : ℕ) (us : List User) (u : User) : Type 0 where
  pub account : Has u us
  pub named : u.id ≡ id
  pub other : actor.id == u.id ≡ false

find_user_sound :
    (env : Env) (actor : User) (id : ℕ) (db : Db) (u : User)
    → find_user env actor id db ≡ target u
    → IsTarget actor id db.users u
unfolding find_user
find_user_sound env actor id db u e = elim (Bool-cases (id == actor.id)) [
  | inl own ↦ absurd (ground arith)
  | inr other ↦ go (env.fault 0) (ground arith) other
]
  where
    go :
        (fault : Bool)
        → found_or_missing (find fault User.id (λ v. v.id == id) db.users) ≡ target u
        → id == actor.id ≡ false
        → IsTarget actor id db.users u
    go true f other = absurd (ground arith)
    go false f other =
        let (m, h) = first-Has User.id (λ v. v.id == id) u db.users (ground arith) in
        let same = (==_iff u.id id).0 h in
        record { account = m; named = same; other = ground arith }

-- What a request on an account does: nothing, or something to the rows of its target.
pub manage-Changed :
    (env : Env) (actor : User) (id : ℕ) (q : Manage) (db : Db)
    → ((manage env actor id q db).1 ≡ db)
      ⊎ ((u : User) × IsTarget actor id db.users u
          × Changed actor u db.users (manage env actor id q db).1.users)
unfolding manage update_user_role role_of_found update_user_status status_of_found remove_user
manage-Changed env actor id (put_role none) db = inl refl
manage-Changed env actor id (put_role (some r)) db = go (find_user env actor id db) refl
  where
    go :
        (f : Found)
        → find_user env actor id db ≡ f
        → ((role_of_found env actor r db f).1 ≡ db)
          ⊎ ((u : User) × IsTarget actor id db.users u
              × Changed actor u db.users (role_of_found env actor r db f).1.users)
    go (missing why) e = inl refl
    go (target u) e = elim (Bool-cases (is_owner r)) [
      | inl grant ↦ inr (
        u,
        find_user_sound env actor id db u e,
        rw grant (
            Changed-of_Edits actor u (with_role owner) db.users _
              (grant_ownership-Edits env actor u db)),
      )
      | inr change ↦ inr (
        u,
        find_user_sound env actor id db u e,
        rw change (
            Changed-of_Edits actor u (with_role r) db.users _ (change_role-Edits env actor u r db)),
      )
    ]
manage-Changed env actor id (put_status none) db = inl refl
manage-Changed env actor id (put_status (some st)) db = go (find_user env actor id db) refl
  where
    go :
        (f : Found)
        → find_user env actor id db ≡ f
        → ((status_of_found env actor st db f).1 ≡ db)
          ⊎ ((u : User) × IsTarget actor id db.users u
              × Changed actor u db.users (status_of_found env actor st db f).1.users)
    go (missing why) e = inl refl
    go (target u) e = inr (
      u,
      find_user_sound env actor id db u e,
      Changed-of_Edits actor u (with_status st) db.users _ (change_status-Edits env actor u st db),
    )
manage-Changed env actor id delete db = go (find_user env actor id db) refl
  where
    go :
        (f : Found)
        → find_user env actor id db ≡ f
        → ((remove_found env actor db f).1 ≡ db)
          ⊎ ((u : User) × IsTarget actor id db.users u
              × Changed actor u db.users (remove_found env actor db f).1.users)
    go (missing why) e = inl (unfold remove_found in refl)
    go (target u) e =
        inr (u, find_user_sound env actor id db u e, remove_found-Changed env actor u db)
