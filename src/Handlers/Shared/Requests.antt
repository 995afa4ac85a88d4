-- ===== src/Handlers/Shared/Requests.antt =====
-- The requests that main.go routes to the handlers of the shared vault.
use librelock_server.Common.{Text, ℕ, Option}
use librelock_server.Env.{Env}
use librelock_server.Http.{Reply}
use librelock_server.Models.{User, Db}
use librelock_server.Handlers.Personal.Vault.{StoreVaultRequest, UpdateBody}
use librelock_server.Handlers.Shared.OrgCategory.{
  index_org_categories, show_org_category, store_org_category, update_org_category,
  destroy_org_category,
}
use librelock_server.Handlers.Shared.OrgVault.{
  index_org_vaults, show_org_vault, store_org_vault, update_org_vault, destroy_org_vault,
}

pub data Shared : Type 0 where
  list_entries list_filing : Shared
  get_entry get_filing : ℕ → Shared
  post_entry : Option StoreVaultRequest → Shared
  put_entry : ℕ → UpdateBody → Shared
  delete_entry : ℕ → Shared
  post_filing : Option Text → Shared
  put_filing : ℕ → Option Text → Shared
  delete_filing : ℕ → Shared

unfoldable pub shared : Env → User → Shared → Db → Reply × Db
shared env u list_entries db = (index_org_vaults env db, db)
shared env u list_filing db = (index_org_categories env db, db)
shared env u (get_entry id) db = (show_org_vault env id db, db)
shared env u (get_filing id) db = (show_org_category env id db, db)
shared env u (post_entry r) db = store_org_vault env u r db
shared env u (put_entry id body) db = update_org_vault env u id body db
shared env u (delete_entry id) db = destroy_org_vault env u id db
shared env u (post_filing name) db = store_org_category env u name db
shared env u (put_filing id name) db = update_org_category env u id name db
shared env u (delete_filing id) db = destroy_org_category env u id db
