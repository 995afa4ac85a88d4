-- ===== src/Handlers/Shared/Permissions.antt =====
-- Who may write the shared vault, and what a write may touch.
use librelock_server.Common.{
  head?, Bool-cases, Option-cases, Text, ℕ, ◌≡◌, refl, ◌⊎◌, inl, inr, Bool, true, false, ◌&&◌,
  Option, none, some, List, [], ◌∷◌, arith,
}
use librelock_server.Env.{Env}
use librelock_server.Models.{User, Organization, Db, is_admin_role, rows}
use librelock_server.Models.First.{Has}
use librelock_server.Handlers.Helpers.{permits_shared, find_organization}
use librelock_server.Handlers.Personal.Vault.{StoreVaultRequest, UpdateBody}
use librelock_server.Handlers.Shared.OrgCategory.{
  store_org_category, update_org_category, rename_found, destroy_org_category, drop_found,
  delete_org_category,
}
use librelock_server.Handlers.Shared.OrgVault.{
  store_org_vault, add_org_vault, update_org_vault, update_org_found, edit_org_found,
  destroy_org_vault, destroy_org_found,
}
use librelock_server.Handlers.Shared.Requests.{
  Shared, shared, list_entries, list_filing, get_entry, get_filing, post_entry, put_entry,
  delete_entry, post_filing, put_filing, delete_filing,
}

-- The setting of the organization that a member's request needs: two for a change of categories,
-- and none that would do for a request that only reads.
abbrev pub setting : Shared → Organization → Bool
setting (post_entry r) o = o.member_manage_shared
setting (delete_entry id) o = o.member_manage_shared
setting (put_entry id body) o = o.member_edit_shared
setting (post_filing name) o = o.member_manage_shared && o.member_edit_shared
setting (put_filing id name) o = o.member_manage_shared && o.member_edit_shared
setting (delete_filing id) o = o.member_manage_shared && o.member_edit_shared
setting _ o = false

-- An administrator, or a member whom the settings of the organization let write.
abbrev pub MayWrite : User → Shared → Db → Type 0
MayWrite u q db =
    (is_admin_role u.role ≡ true)
    ⊎ ((o : Organization) × Has o (rows db.organization) × (setting q o ≡ true))

-- Nothing but shared entries and shared categories has changed.
abbrev pub WritesShared : Db → Db → Type 0
WritesShared db db' =
    db' ≡ record db { org_vaults = db'.org_vaults; org_categories = db'.org_categories }

find_organization-Has :
    (fault : Bool) (o : Organization) (db : Db)
    → find_organization fault db ≡ some o
    → Has o (rows db.organization)
find_organization-Has true o db e = cc
find_organization-Has false o db e = head (rows db.organization) e
  where
    head : (os : List Organization) → head? os ≡ some o → Has o os
    head [] e = cc
    head (p ∷ os) e = inl (ground arith)

permitted :
    (fault : Bool) (u : User) (allowed : Organization → Bool) (db : Db)
    → permits_shared fault u db allowed ≡ true
    → (is_admin_role u.role ≡ true)
      ⊎ ((o : Organization) × Has o (rows db.organization) × (allowed o ≡ true))
unfolding permits_shared
permitted fault u allowed db h = elim (Bool-cases (is_admin_role u.role)) [
  | inl admin ↦ inl admin
  | inr plain ↦ elim (Option-cases (find_organization fault db)) [
    | inl missing ↦ absurd (ground arith)
    | inr (o, e) ↦ inr (o, find_organization-Has fault o db e, ground arith)
  ]
]

store_org_vault-WritesShared :
    (env : Env) (u : User) (r : Option StoreVaultRequest) (db : Db)
    → WritesShared db (store_org_vault env u r db).1
unfolding store_org_vault add_org_vault
store_org_vault-WritesShared env u none db = ground arith
store_org_vault-WritesShared env u (some r) db = ground arith

update_org_vault-WritesShared :
    (env : Env) (u : User) (id : ℕ) (body : UpdateBody) (db : Db)
    → WritesShared db (update_org_vault env u id body db).1
unfolding update_org_vault update_org_found edit_org_found
update_org_vault-WritesShared env u id body db = ground arith

destroy_org_vault-WritesShared :
    (env : Env) (u : User) (id : ℕ) (db : Db) → WritesShared db (destroy_org_vault env u id db).1
unfolding destroy_org_vault destroy_org_found
destroy_org_vault-WritesShared env u id db = ground arith

store_org_category-WritesShared :
    (env : Env) (u : User) (name : Option Text) (db : Db)
    → WritesShared db (store_org_category env u name db).1
unfolding store_org_category
store_org_category-WritesShared env u name db = ground arith

update_org_category-WritesShared :
    (env : Env) (u : User) (id : ℕ) (name : Option Text) (db : Db)
    → WritesShared db (update_org_category env u id name db).1
unfolding update_org_category rename_found
update_org_category-WritesShared env u id name db = ground arith

destroy_org_category-WritesShared :
    (env : Env) (u : User) (id : ℕ) (db : Db) → WritesShared db (destroy_org_category env u id db).1
unfolding destroy_org_category drop_found delete_org_category
destroy_org_category-WritesShared env u id db = ground arith

-- A handler that its permission guards.
by_permission :
    (env : Env) (u : User) (q : Shared) (db db' : Db)
    → (permits_shared (env.fault 0) u db (setting q) ≡ false → db' ≡ db)
    → WritesShared db db'
    → (db' ≡ db) ⊎ (MayWrite u q db × WritesShared db db')
by_permission env u q db db' refused writes =
    elim (Bool-cases (permits_shared (env.fault 0) u db (setting q))) [
      | inr shut ↦ inl (refused shut)
      | inl may ↦ inr (permitted (env.fault 0) u (setting q) db may, writes)
    ]

-- A request on the shared vault leaves the database as it was, or else the caller may write,
-- being an administrator or a member whom the organization's settings for that request allow,
-- and nothing but shared entries and shared categories changes.
pub shared-MayWrite :
    (env : Env) (u : User) (q : Shared) (db : Db)
    → ((shared env u q db).1 ≡ db) ⊎ (MayWrite u q db × WritesShared db (shared env u q db).1)
unfolding shared store_org_vault update_org_vault destroy_org_vault store_org_category
    update_org_category destroy_org_category
shared-MayWrite env u list_entries db = inl refl
shared-MayWrite env u list_filing db = inl refl
shared-MayWrite env u (get_entry id) db = inl refl
shared-MayWrite env u (get_filing id) db = inl refl
shared-MayWrite env u (post_entry r) db =
    by_permission env u (post_entry r) db (store_org_vault env u r db).1 (λ refused. ground arith)
      (store_org_vault-WritesShared env u r db)
shared-MayWrite env u (put_entry id body) db =
    by_permission env u (put_entry id body) db (update_org_vault env u id body db).1
      (λ refused. ground arith) (update_org_vault-WritesShared env u id body db)
shared-MayWrite env u (delete_entry id) db =
    by_permission env u (delete_entry id) db (destroy_org_vault env u id db).1
      (λ refused. ground arith) (destroy_org_vault-WritesShared env u id db)
shared-MayWrite env u (post_filing name) db =
    by_permission env u (post_filing name) db (store_org_category env u name db).1
      (λ refused. ground arith) (store_org_category-WritesShared env u name db)
shared-MayWrite env u (put_filing id name) db =
    by_permission env u (put_filing id name) db (update_org_category env u id name db).1
      (λ refused. ground arith) (update_org_category-WritesShared env u id name db)
shared-MayWrite env u (delete_filing id) db =
    by_permission env u (delete_filing id) db (destroy_org_category env u id db).1
      (λ refused. ground arith) (destroy_org_category-WritesShared env u id db)
