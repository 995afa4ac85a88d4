-- ===== src/Handlers/Personal/Replies.antt =====
-- Whose rows a reply shows.
use librelock_server.Handlers.Searches.{find-some}
use librelock_server.Common.{
  ◌==◌, Bool-cases, Option-cases, Text, is_empty, ℕ, ◌≡◌, refl, inl, inr, ◌&&◌, Option, none, some,
  arith,
}
use librelock_server.Env.{Env}
use librelock_server.Handlers.Personal.Category.{
  update_category, update_found, destroy_category, destroy_found, owns_category, store_category,
  find_category, new_category, stored,
}
use librelock_server.Handlers.Personal.Requests.{
  Personal, personal, list_vaults, list_categories, list_sessions, get_vault, get_category,
  post_vault, put_vault, delete_vault, post_category, put_category, delete_category, delete_session,
  delete_sessions,
}
use librelock_server.Handlers.Personal.Session.{destroy_session, destroy_all, ended}
use librelock_server.Handlers.Personal.Vault.{
  StoreVaultRequest, UpdateVaultRequest, UpdateBody, unread, malformed, parsed, is_valid_store,
  owns_given, store_vault, edit_found, update_vault, update_vault_found, destroy_vault,
  destroy_vault_found, new_vault, find_vault, created,
}
use librelock_server.Models.{User, Db, Vault, Category, Session, Write, done, duplicate, failed}
use librelock_server.Handlers.Personal.Shows.{
  ShowsOwn, lists-ShowOwn, shown, show_vault-ShowsOwn, show_category-ShowsOwn,
}

stored-ShowsOwn :
    (u : User) (c : Category) (db : Db) (w : Write)
    → c.user_id ≡ u.id
    → ShowsOwn u (stored c db w).0.body
stored-ShowsOwn u c db (done db') h = h
stored-ShowsOwn u c db duplicate h = tt
stored-ShowsOwn u c db failed h = tt

store_category-ShowsOwn :
    (env : Env) (u : User) (name : Option Text) (db : Db)
    → ShowsOwn u (store_category env u name db).0.body
unfolding store_category
store_category-ShowsOwn env u none db = tt
store_category-ShowsOwn env u (some name) db = elim (Bool-cases (is_empty name)) [
  | inl blank ↦ rw blank tt
  | inr given ↦ rw given (stored-ShowsOwn u (new_category env u name) db _ refl)
]

created-ShowsOwn :
    (u : User) (v : Vault) (db : Db) (w : Write)
    → v.user_id ≡ u.id
    → ShowsOwn u (created v db w).0.body
created-ShowsOwn u v db (done db') h = h
created-ShowsOwn u v db duplicate h = tt
created-ShowsOwn u v db failed h = tt

store_vault-ShowsOwn :
    (env : Env) (u : User) (r : Option StoreVaultRequest) (db : Db)
    → ShowsOwn u (store_vault env u r db).0.body
unfolding store_vault
store_vault-ShowsOwn env u none db = tt
store_vault-ShowsOwn env u (some r) db = elim (Bool-cases (is_valid_store r)) [
  | inr bad ↦ rw bad tt
  | inl good ↦ elim (Bool-cases (owns_given (env.fault 1) u.id db r.category_id)) [
    | inr foreign ↦ rw (good, foreign) tt
    | inl own ↦ rw (good, own) (created-ShowsOwn u (new_vault env u r) db _ refl)
  ]
]

edit_found-ShowsOwn :
    (env : Env) (u : User) (r : UpdateVaultRequest) (v : Vault) (db : Db)
    → v.user_id ≡ u.id
    → ShowsOwn u (edit_found env u r v db).0.body
unfolding edit_found
edit_found-ShowsOwn env u r v db o = ground arith

update_vault-ShowsOwn :
    (env : Env) (u : User) (id : ℕ) (body : UpdateBody) (db : Db)
    → ShowsOwn u (update_vault env u id body db).0.body
unfolding update_vault update_vault_found
update_vault-ShowsOwn env u id body db = elim (Option-cases (find_vault env u id db)) [
  | inl missing ↦
      shown u (λ o. (update_vault_found env u body db o).0) (find_vault env u id db) none missing
        (none_found body)
  | inr (v, e) ↦
      let (m, owned) =
        find-some (env.fault 0) Vault.id (λ w. w.id == id && w.user_id == u.id) db.vaults v e in
      shown u (λ o. (update_vault_found env u body db o).0) (find_vault env u id db) (some v) e
        (found body v (ground arith))
]
  where
    none_found : (body : UpdateBody) → ShowsOwn u (update_vault_found env u body db none).0.body
    none_found unread = tt
    none_found malformed = tt
    none_found (parsed r) = tt

    found :
        (body : UpdateBody) (v : Vault)
        → v.user_id ≡ u.id
        → ShowsOwn u (update_vault_found env u body db (some v)).0.body
    found unread v o = tt
    found malformed v o = tt
    found (parsed r) v o = edit_found-ShowsOwn env u r v db o

update_category-ShowsOwn :
    (env : Env) (u : User) (id : ℕ) (name : Option Text) (db : Db)
    → ShowsOwn u (update_category env u id name db).0.body
unfolding update_category update_found
update_category-ShowsOwn env u id name db = elim (Option-cases (find_category env u id db)) [
  | inl missing ↦
      shown u (λ o. (update_found env name db o).0) (find_category env u id db) none missing
        (none_found name)
  | inr (c, e) ↦
      let (m, owned) =
        find-some (env.fault 0) Category.id (owns_category id u.id) db.categories c e in
      shown u (λ o. (update_found env name db o).0) (find_category env u id db) (some c) e
        (found name c (ground arith))
]
  where
    none_found : (name : Option Text) → ShowsOwn u (update_found env name db none).0.body
    none_found none = tt
    none_found (some n) = tt

    found :
        (name : Option Text) (c : Category)
        → c.user_id ≡ u.id
        → ShowsOwn u (update_found env name db (some c)).0.body
    found none c o = tt
    found (some n) c o = elim (Bool-cases (is_empty n)) [
      | inl blank ↦ rw blank tt
      | inr given ↦ rw given o
    ]

deletions-ShowOwn :
    (env : Env) (u : User) (id : ℕ) (db : Db)
    → ShowsOwn u (destroy_vault env u id db).0.body
      × ShowsOwn u (destroy_category env u id db).0.body
      × ShowsOwn u (destroy_session env u id db).0.body
unfolding destroy_vault destroy_vault_found destroy_category destroy_found destroy_session
deletions-ShowOwn env u id db =
    (of_vault (find_vault env u id db), of_category (find_category env u id db), of_session _)
  where
    of_vault : (o : Option Vault) → ShowsOwn u (destroy_vault_found env db o).0.body
    of_vault none = tt
    of_vault (some v) = tt

    of_category : (o : Option Category) → ShowsOwn u (destroy_found env db o).0.body
    of_category none = tt
    of_category (some c) = tt

    of_session : (o : Option Session) → ShowsOwn u (ended env db o).0.body
    of_session none = tt
    of_session (some s) = tt

-- Every entry, category and session that a reply to a request on the caller's own data shows
-- belongs to the caller.
pub personal-ShowsOwn :
    (env : Env) (u : User) (current : ℕ) (q : Personal) (db : Db)
    → ShowsOwn u (personal env u current q db).0.body
unfolding personal destroy_all
personal-ShowsOwn env u current list_vaults db = (lists-ShowOwn env u db).0
personal-ShowsOwn env u current list_categories db = (lists-ShowOwn env u db).1
personal-ShowsOwn env u current list_sessions db = (lists-ShowOwn env u db).2
personal-ShowsOwn env u current (get_vault id) db = show_vault-ShowsOwn env u id db
personal-ShowsOwn env u current (get_category id) db = show_category-ShowsOwn env u id db
personal-ShowsOwn env u current (post_vault r) db = store_vault-ShowsOwn env u r db
personal-ShowsOwn env u current (put_vault id body) db = update_vault-ShowsOwn env u id body db
personal-ShowsOwn env u current (delete_vault id) db = (deletions-ShowOwn env u id db).0
personal-ShowsOwn env u current (post_category name) db = store_category-ShowsOwn env u name db
personal-ShowsOwn env u current (put_category id name) db =
    update_category-ShowsOwn env u id name db
personal-ShowsOwn env u current (delete_category id) db = (deletions-ShowOwn env u id db).1
personal-ShowsOwn env u current (delete_session id) db = (deletions-ShowOwn env u id db).2
personal-ShowsOwn env u current delete_sessions db = tt
