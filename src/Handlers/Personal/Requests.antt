-- ===== src/Handlers/Personal/Requests.antt =====
-- The requests that main.go routes to the handlers of the caller's own data.
use librelock_server.Common.{Text, ℕ, Option}
use librelock_server.Env.{Env}
use librelock_server.Http.{Reply}
use librelock_server.Models.{User, Db}
use librelock_server.Handlers.Personal.Category.{
  index_categories, show_category, store_category, update_category, destroy_category,
}
use librelock_server.Handlers.Personal.Session.{index_sessions, destroy_session, destroy_all}
use librelock_server.Handlers.Personal.Vault.{
  StoreVaultRequest, UpdateBody, index_vaults, show_vault, store_vault, update_vault, destroy_vault,
}

pub data Personal : Type 0 where
  list_vaults list_categories list_sessions : Personal
  get_vault get_category : ℕ → Personal
  post_vault : Option StoreVaultRequest → Personal
  put_vault : ℕ → UpdateBody → Personal
  delete_vault : ℕ → Personal
  post_category : Option Text → Personal
  put_category : ℕ → Option Text → Personal
  delete_category : ℕ → Personal
  delete_session : ℕ → Personal
  delete_sessions : Personal

-- `current` is the session of the request.
unfoldable pub personal : Env → User → (current : ℕ) → Personal → Db → Reply × Db
personal env u current list_vaults db = (index_vaults env u db, db)
personal env u current list_categories db = (index_categories env u db, db)
personal env u current list_sessions db = (index_sessions env u db, db)
personal env u current (get_vault id) db = (show_vault env u id db, db)
personal env u current (get_category id) db = (show_category env u id db, db)
personal env u current (post_vault r) db = store_vault env u r db
personal env u current (put_vault id body) db = update_vault env u id body db
personal env u current (delete_vault id) db = destroy_vault env u id db
personal env u current (post_category name) db = store_category env u name db
personal env u current (put_category id name) db = update_category env u id name db
personal env u current (delete_category id) db = destroy_category env u id db
personal env u current (delete_session id) db = destroy_session env u id db
personal env u current delete_sessions db = destroy_all env u current db
