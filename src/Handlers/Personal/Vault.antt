-- ===== src/Handlers/Personal/Vault.antt =====
-- handlers/vault.go. Statement 0 is the search of an entry or a list, 1 the count of the category,
-- and 2 the write.
use librelock_server.Common.{
  leb, ◌==◌, if◌then◌else◌, any, filter, update, Text, is_empty, ℕ, Bool, true, false, not, ◌&&◌,
  ◌||◌, Option, none, some, [],
}
use librelock_server.Env.{Env}
use librelock_server.Http.{Reply, reply, fail, fail_field, message, invalid, entries, entry}
use librelock_server.Models.{User, EntryType, Vault, Db, Write, done, create_vault}
use librelock_server.Handlers.Helpers.{find}
use librelock_server.Handlers.Personal.Category.{owns_category}

-- The text of `category_id`: that of an id, or one that is no category's id as it is stored.
pub data CategoryRef : Type 0 where
  unknown : CategoryRef
  known : ℕ → CategoryRef

pub record StoreVaultRequest : Type 0 where
  pub type : EntryType
  pub encrypted_blob : Text
  pub iv : Text
  pub category_id : Option CategoryRef
  pub version : Option ℕ

-- Whether `category_id` stands in the body, and as what.
pub data CategoryChange : Type 0 where
  absent cleared : CategoryChange
  set_to : CategoryRef → CategoryChange

-- A version below 1 counts as 0.
pub record UpdateVaultRequest : Type 0 where
  pub encrypted_blob : Text
  pub iv : Text
  pub category : CategoryChange
  pub version : Option ℕ

-- The body of `Update`: not read, not JSON of the right shape, or a request.
pub data UpdateBody : Type 0 where
  unread malformed : UpdateBody
  parsed : UpdateVaultRequest → UpdateBody

-- `ownsCategory`; a count that fails is 0.
unfoldable pub owns_category_row : Bool → ℕ → ℕ → Db → Bool
owns_category_row fault user_id id db = not fault && any (owns_category id user_id) db.categories

abbrev pub owns_ref : Bool → ℕ → Db → CategoryRef → Bool
owns_ref fault user_id db unknown = false
owns_ref fault user_id db (known k) = owns_category_row fault user_id k db

abbrev pub is_version : Option ℕ → Bool
is_version none = true
is_version (some n) = leb 1 n

abbrev pub or_version : ℕ → Option ℕ → ℕ
or_version default none = default
or_version default (some n) = n

abbrev invalid_category : Reply
invalid_category = fail 422 "Invalid category_id"

abbrev id_of : CategoryRef → Option ℕ
id_of unknown = none
id_of (known k) = some k

abbrev pub id_of_given : Option CategoryRef → Option ℕ
id_of_given none = none
id_of_given (some r) = id_of r

abbrev pub owns_given : Bool → ℕ → Db → Option CategoryRef → Bool
owns_given fault user_id db none = true
owns_given fault user_id db (some r) = owns_ref fault user_id db r

-- The binding tags of `storeVaultRequest`
abbrev pub is_valid_store : StoreVaultRequest → Bool
is_valid_store r = not (is_empty r.encrypted_blob) && not (is_empty r.iv) && is_version r.version

abbrev pub new_vault : Env → User → StoreVaultRequest → Vault
new_vault env u r = record {
  id = env.uuid 0;
  user_id = u.id;
  category_id = id_of_given r.category_id;
  type = r.type;
  encrypted_blob = r.encrypted_blob;
  iv = r.iv;
  version = or_version 1 r.version;
}

-- `Index`: rows stand in the order of their creation, and an error gives none.
unfoldable pub index_vaults : Env → User → Db → Reply
index_vaults env u db =
    reply 200 (entries (if env.fault 0 then [] else filter (λ v. v.user_id == u.id) db.vaults))

abbrev pub find_vault : Env → User → ℕ → Db → Option Vault
find_vault env u id db =
    find (env.fault 0) Vault.id (λ v. v.id == id && v.user_id == u.id) db.vaults

-- `Show`
unfoldable pub show_vault : Env → User → ℕ → Db → Reply
show_vault env u id db = elim (find_vault env u id db) [
  | none ↦ fail 404 "Not found"
  | some v ↦ reply 200 (entry v)
]

abbrev pub created : Vault → Db → Write → Reply × Db
created v db (done db') = (reply 201 (entry v), db')
created v db _ = (fail 500 "Failed to create entry", db)

-- `Store`
unfoldable pub store_vault : Env → User → Option StoreVaultRequest → Db → Reply × Db
store_vault env u none db = (reply 422 invalid, db)
store_vault env u (some r) db =
    if not (is_valid_store r)
    then (reply 422 invalid, db)
    else if not (owns_given (env.fault 1) u.id db r.category_id)
    then (invalid_category, db)
    else created (new_vault env u r) db (create_vault (env.fault 2) (new_vault env u r) db)

abbrev pub owns_change : Bool → ℕ → Db → CategoryChange → Bool
owns_change fault user_id db (set_to r) = owns_ref fault user_id db r
owns_change fault user_id db _ = true

abbrev pub changed_category : CategoryChange → Option ℕ → Option ℕ
changed_category absent old = old
changed_category cleared old = none
changed_category (set_to r) old = id_of r

abbrev pub edit_vault : UpdateVaultRequest → Vault → Vault
edit_vault r v = record v {
  category_id = changed_category r.category v.category_id;
  encrypted_blob = r.encrypted_blob;
  iv = r.iv;
  version = or_version v.version r.version;
}

-- `Save` writes every column of the row.
abbrev pub save_vault : Vault → Db → Db
save_vault v db = record db { vaults = update (λ w. w.id == v.id) (λ w. v) db.vaults }

-- `Update`, from the request on
unfoldable pub edit_found : Env → User → UpdateVaultRequest → Vault → Db → Reply × Db
edit_found env u r v db =
    if is_empty r.encrypted_blob || is_empty r.iv
    then (fail_field "encrypted_blob" "The encrypted_blob field is required.", db)
    else if not (is_version r.version)
    then (fail_field "version" "The version must be at least 1.", db)
    else if not (owns_change (env.fault 1) u.id db r.category)
    then (invalid_category, db)
    else if env.fault 2
    then (fail 500 "Failed to update entry", db)
    else (reply 200 (entry (edit_vault r v)), save_vault (edit_vault r v) db)

-- What follows the search of `Update`.
unfoldable pub update_vault_found : Env → User → UpdateBody → Db → Option Vault → Reply × Db
update_vault_found env u body db none = (fail 404 "Not found", db)
update_vault_found env u unread db (some v) = (fail 400 "Bad request", db)
update_vault_found env u malformed db (some v) =
    (fail_field "encrypted_blob" "The encrypted_blob field is required.", db)
update_vault_found env u (parsed r) db (some v) = edit_found env u r v db

-- `Update`
unfoldable pub update_vault : Env → User → ℕ → UpdateBody → Db → Reply × Db
update_vault env u id body db = update_vault_found env u body db (find_vault env u id db)

-- What follows the search of `Destroy`; the error of the write is not looked at.
unfoldable pub destroy_vault_found : Env → Db → Option Vault → Reply × Db
destroy_vault_found env db none = (fail 404 "Not found", db)
destroy_vault_found env db (some v) = (
  reply 200 (message "Deleted"),
  if env.fault 2 then db else record db { vaults = filter (λ w. not (w.id == v.id)) db.vaults },
)

-- `Destroy`
unfoldable pub destroy_vault : Env → User → ℕ → Db → Reply × Db
destroy_vault env u id db = destroy_vault_found env db (find_vault env u id db)
