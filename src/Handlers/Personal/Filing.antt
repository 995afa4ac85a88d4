-- ===== src/Handlers/Personal/Filing.antt =====
-- Under which categories entries are filed.
use librelock_server.Common.{
  ◌==◌, Bool-cases, Option-cases, All, any, filter, update, Text, ℕ, ◌≡◌, refl, inl, inr, true,
  false, not, List, [], ◌∷◌, ◌++◌, arith,
}
use librelock_server.Env.{Env}
use librelock_server.Handlers.Personal.Category.{owns_category, rename_to}
use librelock_server.Handlers.Personal.Effects.{personal-Effect}
use librelock_server.Handlers.Personal.Effect.{
  Effect, same, category_added, category_renamed, category_dropped, vault_added, vault_saved,
  vault_dropped, session_dropped, sessions_dropped, files_own,
}
use librelock_server.Handlers.Personal.Requests.{Personal, personal}
use librelock_server.Models.{User, Db, Vault, Category, in_rows, unlink, delete_categories}
use librelock_server.Models.First.{All-Has}
use librelock_server.Common.Alls.{
  All-append_last, All-filter, All-update_const, All-map, All-update_every,
}

abbrev pub FilesOwn : Db → Type 0
FilesOwn db = All (λ v. files_own db.categories v ≡ true) db.vaults

any-owns_append :
    (k owner : ℕ) (c : Category) (cs : List Category)
    → any (owns_category k owner) cs ≡ true
    → any (owns_category k owner) (cs ++ c ∷ []) ≡ true
any-owns_append k owner c [] h = absurd (ground arith)
any-owns_append k owner c (d ∷ cs) h = ground (arith, any-owns_append k owner c cs)

any-owns_rename :
    (k owner id : ℕ) (name : Text) (cs : List Category)
    → any (owns_category k owner) (update (λ d. d.id == id) (rename_to name) cs)
      ≡ any (owns_category k owner) cs
any-owns_rename k owner id name [] = refl
any-owns_rename k owner id name (d ∷ cs) = ground (arith, any-owns_rename k owner id name cs)

any-owns_drop :
    (k owner id : ℕ) (cs : List Category)
    → k == id ≡ false
    → any (owns_category k owner) (filter (λ d. not (d.id == id)) cs)
      ≡ any (owns_category k owner) cs
any-owns_drop k owner id [] h = refl
any-owns_drop k owner id (d ∷ cs) h = ground (arith, any-owns_drop k owner id cs h)

in_rows-id :
    (k owner id : ℕ) (cs : List Category)
    → any (owns_category k owner) cs ≡ true
    → k == id ≡ true
    → in_rows Category.id (λ d. d.id == id) cs k ≡ true
in_rows-id k owner id [] h e = absurd (ground arith)
in_rows-id k owner id (d ∷ cs) h e = ground (arith, in_rows-id k owner id cs)

files_own-append :
    (c : Category) (cs : List Category) (v : Vault)
    → files_own cs v ≡ true
    → files_own (cs ++ c ∷ []) v ≡ true
files_own-append c cs v h = elim (Option-cases v.category_id) [
  | inl none_given ↦ ground arith
  | inr (k, e) ↦ ground (arith, any-owns_append k v.user_id c cs)
]

files_own-rename :
    (id : ℕ) (name : Text) (cs : List Category) (v : Vault)
    → files_own cs v ≡ true
    → files_own (update (λ d. d.id == id) (rename_to name) cs) v ≡ true
files_own-rename id name cs v h = elim (Option-cases v.category_id) [
  | inl none_given ↦ ground arith
  | inr (k, e) ↦ ground (arith, any-owns_rename k v.user_id id name cs)
]

abbrev pub unfiled : ℕ → List Category → Vault → Vault
unfiled id cs v = record v {
  category_id = unlink (in_rows Category.id (λ d. d.id == id) cs) v.category_id;
}

files_own-drop :
    (id : ℕ) (cs : List Category) (v : Vault)
    → files_own cs v ≡ true
    → files_own (filter (λ d. not (d.id == id)) cs) (unfiled id cs v) ≡ true
files_own-drop id cs v h = elim (Option-cases v.category_id) [
  | inl none_given ↦ ground arith
  | inr (k, e) ↦ elim (Bool-cases (k == id)) [
    | inl gone ↦ ground (arith, in_rows-id k v.user_id id cs)
    | inr kept ↦ elim (Bool-cases (in_rows Category.id (λ d. d.id == id) cs k)) [
      | inl dropped ↦ ground arith
      | inr stays ↦ ground (arith, any-owns_drop k v.user_id id cs)
    ]
  ]
]

Effect-FilesOwn : (u : User) (db : Db) {db' : Db} → FilesOwn db → Effect u db db' → FilesOwn db'
unfolding delete_categories
Effect-FilesOwn u db h (same e) = rw e h
Effect-FilesOwn u db h (category_added c o e) =
    rw e (All-map _ _ (files_own-append c db.categories) db.vaults h)
Effect-FilesOwn u db h (category_renamed c name m o e) =
    rw e (All-map _ _ (files_own-rename c.id name db.categories) db.vaults h)
Effect-FilesOwn u db h (category_dropped c m o e) = rw e (
    All-update_every _ _ (unfiled c.id db.categories) (files_own-drop c.id db.categories) db.vaults
      h)
Effect-FilesOwn u db h (vault_added v o own e) = rw e (All-append_last _ db.vaults v h own)
Effect-FilesOwn u db h (vault_saved v v' m o i own e) =
    rw e (All-update_const _ (λ w. w.id == v'.id) v' db.vaults h (own (All-Has _ v db.vaults h m)))
Effect-FilesOwn u db h (vault_dropped v m o e) =
    rw e (All-filter _ (λ w. not (w.id == v.id)) db.vaults h)
Effect-FilesOwn u db h (session_dropped s m o e) = rw e h
Effect-FilesOwn u db h (sessions_dropped current e) = rw e h

-- Every request on the caller's own data keeps every entry filed under a category of its own
-- owner or under none.
pub personal-FilesOwn :
    (env : Env) (u : User) (current : ℕ) (q : Personal) (db : Db)
    → FilesOwn db
    → FilesOwn (personal env u current q db).1
personal-FilesOwn env u current q db h = Effect-FilesOwn u db h (personal-Effect env u current q db)
