-- ===== src/Handlers/Shared/OrgVault.antt =====
-- handlers/orgvault.go. Statement 0 is the search of the organization, or the one of a list, 1 the
-- search of the entry, 2 the count of the category, and 3 the write. A missing table is an error.
use librelock_server.Common.{
  ◌==◌, if◌then◌else◌, is_some, any, filter, update, is_empty, ℕ, Bool, true, false, not, ◌&&◌,
  ◌||◌, Option, none, some, [], ◌∷◌, ◌++◌,
}
use librelock_server.Env.{Env}
use librelock_server.Http.{Reply, reply, fail, fail_field, message, invalid, org_entries, org_entry}
use librelock_server.Models.{User, OrgVault, Db, rows, map_table}
use librelock_server.Handlers.Helpers.{find, permits_shared, can_manage_shared, can_edit_shared}
use librelock_server.Handlers.Personal.Vault.{
  CategoryRef, unknown, known, CategoryChange, set_to, StoreVaultRequest, UpdateVaultRequest,
  UpdateBody, unread, malformed, parsed, is_version, or_version, id_of_given, is_valid_store,
  changed_category,
}

-- `orgCategoryExists`; a count that fails is 0.
unfoldable pub org_category_exists : Bool → CategoryRef → Db → Bool
org_category_exists fault unknown db = false
org_category_exists fault (known k) db = not fault && any (λ c. c.id == k) (rows db.org_categories)

abbrev pub exists_given : Bool → Option CategoryRef → Db → Bool
exists_given fault none db = true
exists_given fault (some r) db = org_category_exists fault r db

abbrev pub exists_change : Bool → CategoryChange → Db → Bool
exists_change fault (set_to r) db = org_category_exists fault r db
exists_change fault _ db = true

-- `Index`: rows stand in the order of their creation, and an error gives none.
unfoldable pub index_org_vaults : Env → Db → Reply
index_org_vaults env db = reply 200 (org_entries (if env.fault 0 then [] else rows db.org_vaults))

abbrev pub find_org_vault : Bool → ℕ → Db → Option OrgVault
find_org_vault fault id db = find fault OrgVault.id (λ v. v.id == id) (rows db.org_vaults)

-- `Show`
unfoldable pub show_org_vault : Env → ℕ → Db → Reply
show_org_vault env id db = elim (find_org_vault (env.fault 0) id db) [
  | none ↦ fail 404 "Not found"
  | some v ↦ reply 200 (org_entry v)
]

abbrev pub new_org_vault : Env → User → StoreVaultRequest → OrgVault
new_org_vault env u r = record {
  id = env.uuid 0;
  created_by = some u.id;
  category_id = id_of_given r.category_id;
  type = r.type;
  encrypted_blob = r.encrypted_blob;
  iv = r.iv;
  version = or_version 1 r.version;
}

-- What follows the binding of `Store`.
unfoldable pub add_org_vault : Env → User → StoreVaultRequest → Db → Reply × Db
add_org_vault env u r db =
    if not (exists_given (env.fault 2) r.category_id db)
    then (fail 422 "Invalid category_id", db)
    else if env.fault 3
        || not (is_some db.org_vaults)
        || any (λ v. v.id == env.uuid 0) (rows db.org_vaults)
    then (fail 500 "Failed to create entry", db)
    else (
      reply 201 (org_entry (new_org_vault env u r)),
      record db { org_vaults = map_table (λ vs. vs ++ new_org_vault env u r ∷ []) db.org_vaults },
    )

-- `Store`
unfoldable pub store_org_vault : Env → User → Option StoreVaultRequest → Db → Reply × Db
store_org_vault env u request db =
    if not (permits_shared (env.fault 0) u db can_manage_shared)
    then (fail 403 "Only admins can add shared entries", db)
    else elim request [
      | none ↦ (reply 422 invalid, db)
      | some r ↦ if is_valid_store r then add_org_vault env u r db else (reply 422 invalid, db)
    ]

abbrev pub edit_org_vault : UpdateVaultRequest → OrgVault → OrgVault
edit_org_vault r v = record v {
  category_id = changed_category r.category v.category_id;
  encrypted_blob = r.encrypted_blob;
  iv = r.iv;
  version = or_version v.version r.version;
}

-- `Update`, from the request on
unfoldable pub edit_org_found : Env → UpdateVaultRequest → OrgVault → Db → Reply × Db
edit_org_found env r v db =
    if is_empty r.encrypted_blob || is_empty r.iv
    then (fail_field "encrypted_blob" "The encrypted_blob field is required.", db)
    else if not (is_version r.version)
    then (fail_field "version" "The version must be at least 1.", db)
    else if not (exists_change (env.fault 2) r.category db)
    then (fail 422 "Invalid category_id", db)
    else if env.fault 3
    then (fail 500 "Failed to update entry", db)
    else (
      reply 200 (org_entry (edit_org_vault r v)),
      record db {
        org_vaults = map_table (update (λ w. w.id == v.id) (λ w. edit_org_vault r v)) db.org_vaults;
      },
    )

-- What follows the search of `Update`.
unfoldable pub update_org_found : Env → UpdateBody → Db → Option OrgVault → Reply × Db
update_org_found env body db none = (fail 404 "Not found", db)
update_org_found env unread db (some v) = (fail 400 "Bad request", db)
update_org_found env malformed db (some v) =
    (fail_field "encrypted_blob" "The encrypted_blob field is required.", db)
update_org_found env (parsed r) db (some v) = edit_org_found env r v db

-- `Update`
unfoldable pub update_org_vault : Env → User → ℕ → UpdateBody → Db → Reply × Db
update_org_vault env u id body db =
    if not (permits_shared (env.fault 0) u db can_edit_shared)
    then (fail 403 "Only admins can edit shared entries", db)
    else update_org_found env body db (find_org_vault (env.fault 1) id db)

-- What follows the search of `Destroy`; the error of the write is not looked at.
unfoldable pub destroy_org_found : Env → Db → Option OrgVault → Reply × Db
destroy_org_found env db none = (fail 404 "Not found", db)
destroy_org_found env db (some v) = (
  reply 200 (message "Deleted"),
  if env.fault 3
      then db
      else record db { org_vaults = map_table (filter (λ w. not (w.id == v.id))) db.org_vaults },
)

-- `Destroy`
unfoldable pub destroy_org_vault : Env → User → ℕ → Db → Reply × Db
destroy_org_vault env u id db =
    if not (permits_shared (env.fault 0) u db can_manage_shared)
    then (fail 403 "Only admins can delete shared entries", db)
    else destroy_org_found env db (find_org_vault (env.fault 1) id db)
