-- ===== src/Handlers/Personal/Effects.antt =====
-- What a request on the caller's own data may do to the database.
use librelock_server.Handlers.Searches.{find-some}
use librelock_server.Common.{
  ◌==◌, Bool-cases, Option-cases, ℕ, ◌≡◌, refl, ◌⊎◌, inl, inr, true, ◌&&◌, Option, none, some, [],
  ◌∷◌, ◌++◌, arith,
}
use librelock_server.Env.{Env}
use librelock_server.Models.{User, Session, Vault, Db, create_vault}
use librelock_server.Models.First.{Has}
use librelock_server.Handlers.Helpers.{find}
use librelock_server.Handlers.Personal.Session.{destroy_session, destroy_all}
use librelock_server.Handlers.Personal.Vault.{
  UpdateVaultRequest, UpdateBody, StoreVaultRequest, unknown, known, CategoryChange, absent,
  cleared, set_to, unread, malformed, parsed, store_vault, update_vault, update_vault_found,
  edit_found, edit_vault, destroy_vault, destroy_vault_found, new_vault, find_vault,
  owns_category_row, owns_given, owns_change,
}
use librelock_server.Handlers.Personal.Requests.{
  Personal, personal, list_vaults, list_categories, list_sessions, get_vault, get_category,
  post_vault, put_vault, delete_vault, post_category, put_category, delete_category, delete_session,
  delete_sessions,
}
use librelock_server.Handlers.Personal.Effect.{
  files_own, same, vault_added, vault_saved, vault_dropped, session_dropped, sessions_dropped,
  store_category-Effect, update_category-Effect, destroy_category-Effect, Effect,
}

files_own-new :
    (env : Env) (u : User) (r : StoreVaultRequest) (db : Db)
    → owns_given (env.fault 1) u.id db r.category_id ≡ true
    → files_own db.categories (new_vault env u r) ≡ true
unfolding owns_category_row
files_own-new env u r db h = ground arith

store_vault-Effect :
    (env : Env) (u : User) (r : Option StoreVaultRequest) (db : Db)
    → Effect u db (store_vault env u r db).1
unfolding store_vault create_vault
store_vault-Effect env u none db = same refl
store_vault-Effect env u (some r) db = elim cases [
  | inl e ↦ same e
  | inr (own, e) ↦ vault_added (new_vault env u r) refl (files_own-new env u r db own) e
]
  where
    cases :
        let db' = (store_vault env u (some r) db).1 in
        (db' ≡ db)
        ⊎ ((owns_given (env.fault 1) u.id db r.category_id ≡ true)
            × (db' ≡ record db { vaults = db.vaults ++ new_vault env u r ∷ [] }))
    cases = elim (Bool-cases (owns_given (env.fault 1) u.id db r.category_id)) [
      | inr foreign ↦ inl (ground arith)
      | inl own ↦ elim (Bool-cases ((store_vault env u (some r) db).0.status == 201)) [
        | inl ok ↦ inr (own, ground arith)
        | inr bad ↦ inl (ground arith)
      ]
    ]

files_own-edit :
    (env : Env) (u : User) (r : UpdateVaultRequest) (v : Vault) (db : Db)
    → v.user_id ≡ u.id
    → owns_change (env.fault 1) u.id db r.category ≡ true
    → files_own db.categories v ≡ true
    → files_own db.categories (edit_vault r v) ≡ true
unfolding owns_category_row
files_own-edit env u r v db o own h = go r.category refl
  where
    go : (c : CategoryChange) → r.category ≡ c → files_own db.categories (edit_vault r v) ≡ true
    go absent e = ground arith
    go cleared e = ground arith
    go (set_to unknown) e = ground arith
    go (set_to (known k)) e = ground arith

update_vault-Effect :
    (env : Env) (u : User) (id : ℕ) (body : UpdateBody) (db : Db)
    → Effect u db (update_vault env u id body db).1
unfolding update_vault update_vault_found edit_found
update_vault-Effect env u id body db = elim (Option-cases (find_vault env u id db)) [
  | inl missing ↦ rw missing (none_found body)
  | inr (v, e) ↦
      let (m, owned) =
        find-some (env.fault 0) Vault.id (λ w. w.id == id && w.user_id == u.id) db.vaults v e in
      rw e (found body v m (ground arith))
]
  where
    none_found : (body : UpdateBody) → Effect u db (update_vault_found env u body db none).1
    none_found unread = same refl
    none_found malformed = same refl
    none_found (parsed r) = same refl

    found :
        (body : UpdateBody) (v : Vault)
        → Has v db.vaults
        → v.user_id ≡ u.id
        → Effect u db (update_vault_found env u body db (some v)).1
    found unread v m o = same refl
    found malformed v m o = same refl
    found (parsed r) v m o = elim (Bool-cases (owns_change (env.fault 1) u.id db r.category)) [
      | inr foreign ↦ same (ground arith)
      | inl own ↦ elim (Bool-cases ((edit_found env u r v db).0.status == 200)) [
        | inl ok ↦
            vault_saved v (edit_vault r v) m o (refl, refl) (files_own-edit env u r v db o own)
              (ground arith)
        | inr bad ↦ same (ground arith)
      ]
    ]

destroy_vault-Effect :
    (env : Env) (u : User) (id : ℕ) (db : Db) → Effect u db (destroy_vault env u id db).1
unfolding destroy_vault destroy_vault_found
destroy_vault-Effect env u id db = elim (Option-cases (find_vault env u id db)) [
  | inl missing ↦ rw missing (same refl)
  | inr (v, e) ↦
      let (m, owned) =
        find-some (env.fault 0) Vault.id (λ w. w.id == id && w.user_id == u.id) db.vaults v e in
      elim (Bool-cases (env.fault 2)) [
        | inl broken ↦ rw (e, broken) (same refl)
        | inr ran ↦ rw (e, ran) (vault_dropped v m (ground arith) refl)
      ]
]

destroy_session-Effect :
    (env : Env) (u : User) (id : ℕ) (db : Db) → Effect u db (destroy_session env u id db).1
unfolding destroy_session
destroy_session-Effect env u id db =
    elim (Option-cases
      (find (env.fault 0) Session.id (λ s. s.id == id && s.user_id == u.id) db.sessions)) [
        | inl missing ↦ rw missing (same refl)
        | inr (s, e) ↦
            let (m, owned) =
              find-some (env.fault 0) Session.id (λ r. r.id == id && r.user_id == u.id) db.sessions
                s e in
            elim (Bool-cases (env.fault 1)) [
              | inl broken ↦ rw (e, broken) (same refl)
              | inr ran ↦ rw (e, ran) (session_dropped s m (ground arith) refl)
            ]
      ]

destroy_all-Effect :
    (env : Env) (u : User) (current : ℕ) (db : Db) → Effect u db (destroy_all env u current db).1
unfolding destroy_all
destroy_all-Effect env u current db = elim (Bool-cases (env.fault 0)) [
  | inl broken ↦ rw broken (same refl)
  | inr ran ↦ rw ran (sessions_dropped current refl)
]

-- Each request has one of the effects.
pub personal-Effect :
    (env : Env) (u : User) (current : ℕ) (q : Personal) (db : Db)
    → Effect u db (personal env u current q db).1
unfolding personal
personal-Effect env u current list_vaults db = same refl
personal-Effect env u current list_categories db = same refl
personal-Effect env u current list_sessions db = same refl
personal-Effect env u current (get_vault id) db = same refl
personal-Effect env u current (get_category id) db = same refl
personal-Effect env u current (post_vault r) db = store_vault-Effect env u r db
personal-Effect env u current (put_vault id body) db = update_vault-Effect env u id body db
personal-Effect env u current (delete_vault id) db = destroy_vault-Effect env u id db
personal-Effect env u current (post_category name) db = store_category-Effect env u name db
personal-Effect env u current (put_category id name) db = update_category-Effect env u id name db
personal-Effect env u current (delete_category id) db = destroy_category-Effect env u id db
personal-Effect env u current (delete_session id) db = destroy_session-Effect env u id db
personal-Effect env u current delete_sessions db = destroy_all-Effect env u current db
