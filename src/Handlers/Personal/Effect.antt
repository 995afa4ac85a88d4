-- ===== src/Handlers/Personal/Effect.antt =====
-- The changes that a request on the caller's own data may make, and those on categories.
use librelock_server.Handlers.Searches.{find-some}
use librelock_server.Common.{
  ◌==◌, Bool-cases, Option-cases, any, filter, update, Text, is_empty, ℕ, ◌≡◌, refl, ◌⊎◌, inl, inr,
  Bool, true, not, ◌&&◌, ◌||◌, Option, none, some, List, [], ◌∷◌, ◌++◌, arith,
}
use librelock_server.Env.{Env}
use librelock_server.Models.{
  User, Session, Category, Vault, Db, refers, delete_categories, create_category,
}
use librelock_server.Models.First.{Has}
use librelock_server.Handlers.Personal.Category.{
  owns_category, rename_to, store_category, update_category, update_found, destroy_category,
  destroy_found, find_category, new_category,
}
use librelock_server.Handlers.Personal.Vault.{save_vault}

-- The entry's category, if it has one, is its owner's.
abbrev pub files_own : List Category → Vault → Bool
files_own cs v = refers (λ k. any (owns_category k v.user_id) cs) v.category_id

pub data Effect (u : User) (db : Db) : Db → Type 0 where
  same : {db' : Db} → db' ≡ db → Effect u db db'
  category_added :
      {db' : Db} (c : Category)
      → c.user_id ≡ u.id
      → db' ≡ record db { categories = db.categories ++ c ∷ [] }
      → Effect u db db'
  category_renamed :
      {db' : Db} (c : Category) (name : Text)
      → Has c db.categories
      → c.user_id ≡ u.id
      → db' ≡ record db { categories = update (λ d. d.id == c.id) (rename_to name) db.categories }
      → Effect u db db'
  category_dropped :
      {db' : Db} (c : Category)
      → Has c db.categories
      → c.user_id ≡ u.id
      → db' ≡ delete_categories (λ d. d.id == c.id) db
      → Effect u db db'
  vault_added :
      {db' : Db} (v : Vault)
      → v.user_id ≡ u.id
      → files_own db.categories v ≡ true
      → db' ≡ record db { vaults = db.vaults ++ v ∷ [] }
      → Effect u db db'
  vault_saved :
      {db' : Db} (v v' : Vault)
      → Has v db.vaults
      → v.user_id ≡ u.id
      → (v'.id ≡ v.id) × (v'.user_id ≡ v.user_id)
      → (files_own db.categories v ≡ true → files_own db.categories v' ≡ true)
      → db' ≡ save_vault v' db
      → Effect u db db'
  vault_dropped :
      {db' : Db} (v : Vault)
      → Has v db.vaults
      → v.user_id ≡ u.id
      → db' ≡ record db { vaults = filter (λ w. not (w.id == v.id)) db.vaults }
      → Effect u db db'
  session_dropped :
      {db' : Db} (s : Session)
      → Has s db.sessions
      → s.user_id ≡ u.id
      → db' ≡ record db { sessions = filter (λ r. not (r.id == s.id)) db.sessions }
      → Effect u db db'
  sessions_dropped :
      {db' : Db} (current : ℕ)
      → db' ≡ record db {
        sessions = filter (λ r. not (r.user_id == u.id && not (r.id == current))) db.sessions;
      }
      → Effect u db db'

pub store_category-Effect :
    (env : Env) (u : User) (name : Option Text) (db : Db)
    → Effect u db (store_category env u name db).1
unfolding store_category create_category
store_category-Effect env u none db = same refl
store_category-Effect env u (some name) db = elim cases [
  | inl e ↦ same e
  | inr e ↦ category_added (new_category env u name) refl e
]
  where
    cases :
        let db' = (store_category env u (some name) db).1 in
        (db' ≡ db)
        ⊎ (db' ≡ record db { categories = db.categories ++ new_category env u name ∷ [] })
    cases = ground arith

pub update_category-Effect :
    (env : Env) (u : User) (id : ℕ) (name : Option Text) (db : Db)
    → Effect u db (update_category env u id name db).1
unfolding update_category update_found
update_category-Effect env u id name db = elim (Option-cases (find_category env u id db)) [
  | inl missing ↦ rw missing (none_found name)
  | inr (c, e) ↦
      let (m, owned) =
        find-some (env.fault 0) Category.id (owns_category id u.id) db.categories c e in
      rw e (found name c m (ground arith))
]
  where
    none_found : (name : Option Text) → Effect u db (update_found env name db none).1
    none_found none = same refl
    none_found (some n) = same refl

    found :
        (name : Option Text) (c : Category)
        → Has c db.categories
        → c.user_id ≡ u.id
        → Effect u db (update_found env name db (some c)).1
    found none c m o = same refl
    found (some n) c m o = elim (Bool-cases (is_empty n || env.fault 1)) [
      | inl nothing ↦ same (ground arith)
      | inr renamed ↦ category_renamed c n m o (ground arith)
    ]

pub destroy_category-Effect :
    (env : Env) (u : User) (id : ℕ) (db : Db) → Effect u db (destroy_category env u id db).1
unfolding destroy_category destroy_found
destroy_category-Effect env u id db = elim (Option-cases (find_category env u id db)) [
  | inl missing ↦ rw missing (same refl)
  | inr (c, e) ↦
      let (m, owned) =
        find-some (env.fault 0) Category.id (owns_category id u.id) db.categories c e in
      elim (Bool-cases (env.fault 1)) [
        | inl broken ↦ rw (e, broken) (same refl)
        | inr ran ↦ rw (e, ran) (category_dropped c m (ground arith) refl)
      ]
]
