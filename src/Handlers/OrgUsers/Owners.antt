-- ===== src/Handlers/OrgUsers/Owners.antt =====
-- Who stays, whatever an administrator asks for.
use librelock_server.Common.{
  ◌==◌, ==_iff, Bool-cases, ℕ, ◌≡◌, sym, subst, inl, inr, true, false, List, arith,
}
use librelock_server.Env.{Env}
use librelock_server.Models.{is_owner, User, Db}
use librelock_server.Models.First.{Has, any-Has, HasUniqueKeys, same_of_key}
use librelock_server.Handlers.Helpers.{is_active_admin}
use librelock_server.Handlers.Admins.{HasAdmin}
use librelock_server.Handlers.OrgUsers.{Manage, manage, guard_owner_target}
use librelock_server.Handlers.OrgUsers.Laws.{
  Changed, same, edited, removed, Changed-keeps, manage-Changed,
}

-- Whatever an active administrator asks of account management, the administrator's own account
-- stays as it was, so the organization keeps an active administrator.
pub manage-keeps_actor :
    (env : Env) (actor : User) (id : ℕ) (q : Manage) (db : Db)
    → Has actor db.users
    → is_active_admin actor ≡ true
    → let db' = (manage env actor id q db).1 in Has actor db'.users × HasAdmin db'.users
manage-keeps_actor env actor id q db h admin =
    (stays, any-Has User.id is_active_admin actor _ stays admin)
  where
    stays : Has actor (manage env actor id q db).1.users
    stays = elim (manage-Changed env actor id q db) [
      | inl e ↦ subst (λ d. Has actor d.users) (sym e) h
      | inr (u, t, c) ↦ Changed-keeps actor u db.users actor c t.other h
    ]

owner_blocked :
    (actor u v : User) (us : List User)
    → HasUniqueKeys User.id us
    → Has u us
    → Has v us
    → is_owner actor.role ≡ false
    → is_owner v.role ≡ true
    → guard_owner_target actor u ≡ true
    → v.id == u.id ≡ false
unfolding guard_owner_target
owner_blocked actor u v us unique t h plain own g = elim (Bool-cases (v.id == u.id)) [
  | inr other ↦ other
  | inl self ↦ absurd (clash (same_of_key User.id v u us unique h t ((==_iff v.id u.id).0 self)))
]
  where
    clash : v ≡ u → ⊥
    clash e = ground arith

Changed-owner :
    (actor u v : User) (us : List User) {us' : List User}
    → HasUniqueKeys User.id us
    → Has u us
    → Has v us
    → is_owner actor.role ≡ false
    → is_owner v.role ≡ true
    → Changed actor u us us'
    → Has v us'
Changed-owner actor u v us unique t h plain own (same e) = rw e h
Changed-owner actor u v us unique t h plain own (edited f g e) =
    Changed-keeps actor u us v (edited f g e) (owner_blocked actor u v us unique t h plain own g) h
Changed-owner actor u v us unique t h plain own (removed g e) =
    Changed-keeps actor u us v (removed g e) (owner_blocked actor u v us unique t h plain own g) h

-- No request of account management, be it for a role, a status or a removal, by an administrator
-- who is not an owner changes or removes an owner's account, where the accounts' ids are unique.
pub manage-keeps_owners :
    (env : Env) (actor v : User) (id : ℕ) (q : Manage) (db : Db)
    → HasUniqueKeys User.id db.users
    → is_owner actor.role ≡ false
    → is_owner v.role ≡ true
    → Has v db.users
    → Has v (manage env actor id q db).1.users
manage-keeps_owners env actor v id q db unique plain own h =
    elim (manage-Changed env actor id q db) [
      | inl e ↦ subst (λ d. Has v d.users) (sym e) h
      | inr (u, t, c) ↦ Changed-owner actor u v db.users unique t.account h plain own c
    ]
