-- ===== src/Handlers/Settings/Account/LastAdmin.antt =====
-- Leaving, and who is left to administer.
use librelock_server.Common.{
  leb, ◌==◌, ==_iff, Bool-cases, filter, Text, ℕ, ◌≡◌, refl, sym, subst, inl, inr, Bool, true,
  false, not, ◌&&◌, Option, none, some, arith,
}
use librelock_server.Env.{Env}
use librelock_server.Models.{is_admin_role, User, organization, Db, delete_users}
use librelock_server.Models.First.{Has, HasUniqueKeys, same_of_key, All-of_Has}
use librelock_server.Handlers.Helpers.{is_active_admin, count_active_admins}
use librelock_server.Handlers.Admins.{HasAdmin, HasAdmin-filter_many, HasAdmin-filter_other}
use librelock_server.Handlers.Settings.Account.{delete_account}

deleted_users :
    (id : ℕ) (db : Db)
    → (delete_users (λ v. v.id == id) db).users ≡ filter (λ v. not (v.id == id)) db.users
unfolding delete_users
deleted_users id db = refl

not_admin : (u : User) → is_admin_role u.role ≡ false → is_active_admin u ≡ false
not_admin u h = ground arith

-- What the guard lets through can go: somebody else can administer the instance.
unguarded :
    (fault : Bool) (u : User) (db : Db)
    → HasUniqueKeys User.id db.users
    → Has u db.users
    → is_admin_role u.role && leb (count_active_admins fault db) 1 ≡ false
    → HasAdmin db.users
    → HasAdmin (filter (λ v. not (v.id == u.id)) db.users)
unfolding count_active_admins
unguarded fault u db unique here free h = elim (Bool-cases (is_admin_role u.role)) [
  | inl admin ↦ HasAdmin-filter_many u.id db.users unique (ground arith)
  | inr plain ↦
      HasAdmin-filter_other u.id db.users
        (All-of_Has (λ v. v.id == u.id ≡ true → is_active_admin v ≡ false) db.users
          (λ v m e.
            subst (λ w. is_active_admin w ≡ false)
              (same_of_key User.id u v db.users unique here m (sym ((==_iff v.id u.id).0 e)))
              (not_admin u plain)))
        h
]

-- An organization whose accounts have unique ids and that has an active administrator keeps one,
-- whichever of its accounts deletes itself and whatever statement fails.
pub delete_account-HasAdmin :
    (env : Env) (u : User) (request : Option Text) (db : Db)
    → HasUniqueKeys User.id db.users
    → Has u db.users
    → HasAdmin db.users
    → HasAdmin (delete_account env organization u request db).1.users
unfolding delete_account
delete_account-HasAdmin env u none db unique here h = h
delete_account-HasAdmin env u (some credential) db unique here h =
    elim (Bool-cases (is_admin_role u.role && leb (count_active_admins (env.fault 0) db) 1)) [
      | inl last ↦ ground arith
      | inr free ↦
          ground (arith, unguarded (env.fault 0) u db unique here free h, deleted_users u.id db)
    ]
