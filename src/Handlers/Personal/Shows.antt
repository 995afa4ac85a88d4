-- ===== src/Handlers/Personal/Shows.antt =====
-- Whose rows the replies of the lists and of the searches show.
use librelock_server.Handlers.Searches.{find-some}
use librelock_server.Common.Sorts.{All-sort_by}
use librelock_server.Common.{
  ◌==◌, ==_iff, Bool-cases, Option-cases, All, filter, ℕ, ◌≡◌, sym, subst, inl, inr, Bool, true,
  ◌&&◌, Option, none, some, List, [], ◌∷◌, arith,
}
use librelock_server.Env.{Env}
use librelock_server.Handlers.Personal.Category.{
  owns_category, index_categories, show_category, find_category,
}
use librelock_server.Handlers.Personal.Session.{index_sessions, by_use}
use librelock_server.Handlers.Personal.Vault.{index_vaults, show_vault, find_vault}
use librelock_server.Http.{reply, fail, Body, entries, entry, categories, category, sessions, Reply}
use librelock_server.Models.{User, Db, Vault, Category, Session}

-- Every row that the body shows is the account's.
abbrev pub ShowsOwn : User → Body → Type 0
ShowsOwn u (entries vs) = All (λ v. v.user_id ≡ u.id) vs
ShowsOwn u (entry v) = v.user_id ≡ u.id
ShowsOwn u (categories cs) = All (λ c. c.user_id ≡ u.id) cs
ShowsOwn u (category c) = c.user_id ≡ u.id
ShowsOwn u (sessions ss) = All (λ s. s.user_id ≡ u.id) ss
ShowsOwn u _ = Unit

All-filter_own :
    {A : Type 0} (owner : A → ℕ) (id : ℕ) (p : A → Bool) (xs : List A)
    → ((x : A) → p x ≡ true → owner x ≡ id)
    → All (λ x. owner x ≡ id) (filter p xs)
All-filter_own owner id p [] h = tt
All-filter_own owner id p (x ∷ xs) h = elim (Bool-cases (p x)) [
  | inl kept ↦ rw kept (h x kept, All-filter_own owner id p xs h)
  | inr dropped ↦ rw dropped (All-filter_own owner id p xs h)
]

pub lists-ShowOwn :
    (env : Env) (u : User) (db : Db)
    → ShowsOwn u (index_vaults env u db).body
      × ShowsOwn u (index_categories env u db).body
      × ShowsOwn u (index_sessions env u db).body
unfolding index_vaults index_categories index_sessions by_use
lists-ShowOwn env u db = elim (Bool-cases (env.fault 0)) [
  | inl broken ↦ rw broken (tt, tt, tt)
  | inr ran ↦ rw ran (
    All-filter_own Vault.user_id u.id _ db.vaults (λ v h. (==_iff v.user_id u.id).0 h),
    All-filter_own Category.user_id u.id _ db.categories (λ c h. (==_iff c.user_id u.id).0 h),
    All-sort_by _ _ _ (All-filter_own Session.user_id u.id _ db.sessions (λ s h. ground arith)),
  )
]

-- By the reply that a search leads to.
pub shown :
    {A : Type 0} (u : User) (f : Option A → Reply) (found o : Option A)
    → found ≡ o
    → ShowsOwn u (f o).body
    → ShowsOwn u (f found).body
shown u f found o e = subst (λ q. ShowsOwn u (f q).body) (sym e)

abbrev show_row : {A : Type 0} → (A → Body) → Option A → Reply
show_row body none = fail 404 "Not found"
show_row body (some x) = reply 200 (body x)

pub show_vault-ShowsOwn :
    (env : Env) (u : User) (id : ℕ) (db : Db) → ShowsOwn u (show_vault env u id db).body
unfolding show_vault
show_vault-ShowsOwn env u id db = elim (Option-cases (find_vault env u id db)) [
  | inl missing ↦ shown u (show_row entry) (find_vault env u id db) none missing tt
  | inr (v, e) ↦
      let (m, owned) =
        find-some (env.fault 0) Vault.id (λ w. w.id == id && w.user_id == u.id) db.vaults v e in
      shown u (show_row entry) (find_vault env u id db) (some v) e
        ((==_iff v.user_id u.id).0 (ground arith))
]

pub show_category-ShowsOwn :
    (env : Env) (u : User) (id : ℕ) (db : Db) → ShowsOwn u (show_category env u id db).body
unfolding show_category
show_category-ShowsOwn env u id db = elim (Option-cases (find_category env u id db)) [
  | inl missing ↦ shown u (show_row category) (find_category env u id db) none missing tt
  | inr (c, e) ↦
      let (m, owned) =
        find-some (env.fault 0) Category.id (owns_category id u.id) db.categories c e in
      shown u (show_row category) (find_category env u id db) (some c) e
        ((==_iff c.user_id u.id).0 (ground arith))
]
