-- ===== src/Handlers/Personal/Isolation.antt =====
-- The rows of other accounts under the caller's requests.
use mathlib.Core.Path.{ap₂}
use librelock_server.Common.{
  ◌==◌, ==_iff, Bool-cases, Option-cases, All, any, filter, update, ℕ, ◌≡◌, refl, sym, ap, ◌∙◌, inl,
  inr, Bool, true, false, not, ◌&&◌, List, [], ◌∷◌, ◌++◌, arith,
}
use librelock_server.Env.{Env}
use librelock_server.Handlers.Personal.Category.{rename_to, owns_category}
use librelock_server.Handlers.Personal.Effects.{personal-Effect}
use librelock_server.Handlers.Personal.Effect.{
  Effect, same, category_added, category_renamed, category_dropped, vault_added, vault_saved,
  vault_dropped, session_dropped, sessions_dropped, files_own,
}
use librelock_server.Handlers.Personal.Filing.{FilesOwn, unfiled}
use librelock_server.Handlers.Personal.Requests.{Personal, personal}
use librelock_server.Models.{unlink, User, Db, Vault, Category, Session, in_rows, delete_categories}
use librelock_server.Models.First.{All-Has, Has, HasUniqueKeys, same_of_key, All-of_Has}

module _ {A : Type 0} (owner : A → ℕ) (id : ℕ) where
  -- The rows of other owners.
  abbrev pub others : List A → List A
  others xs = filter (λ x. not (owner x == id)) xs

  others-append : (y : A) (xs : List A) → owner y ≡ id → others (xs ++ y ∷ []) ≡ others xs
  others-append y [] e = ground arith
  others-append y (x ∷ xs) e = ground (arith, others-append y xs e)

  others-update :
      (t : A → Bool) (f : A → A) (xs : List A)
      → All (λ x. t x ≡ true → (owner x ≡ id) × (owner (f x) ≡ id)) xs
      → others (update t f xs) ≡ others xs
  others-update t f [] a = refl
  others-update t f (x ∷ xs) (p, ps) = elim (Bool-cases (t x)) [
    | inl hit ↦ let (o, o') = p hit in ground (arith, others-update t f xs ps)
    | inr miss ↦ ground (arith, others-update t f xs ps)
  ]

  others-filter :
      (t : A → Bool) (xs : List A)
      → All (λ x. t x ≡ true → owner x ≡ id) xs
      → others (filter (λ x. not (t x)) xs) ≡ others xs
  others-filter t [] a = refl
  others-filter t (x ∷ xs) (p, ps) = elim (Bool-cases (t x)) [
    | inl hit ↦ let o = p hit in ground (arith, others-filter t xs ps)
    | inr miss ↦ ground (arith, others-filter t xs ps)
  ]

  -- With unique keys, the rows of one key have the owner of that key's row.
  mine :
      (key : A → ℕ) (x : A) (xs : List A)
      → HasUniqueKeys key xs
      → Has x xs
      → owner x ≡ id
      → All (λ y. key y == key x ≡ true → owner y ≡ id) xs
  mine key x xs unique m o =
      All-of_Has _ xs
        (λ y my e. ap owner (same_of_key key y x xs unique my m ((==_iff (key y) (key x)).0 e)) ∙ o)

-- Everybody else's entries, categories and sessions, and every other table, are as they were.
abbrev pub KeepsOthers : ℕ → Db → Db → Type 0
KeepsOthers id db db' =
    (db' ≡ record db { categories = db'.categories; vaults = db'.vaults; sessions = db'.sessions })
    × (others Vault.user_id id db'.vaults ≡ others Vault.user_id id db.vaults)
    × (others Category.user_id id db'.categories ≡ others Category.user_id id db.categories)
    × (others Session.user_id id db'.sessions ≡ others Session.user_id id db.sessions)

-- No two rows of a table have the same id.
abbrev pub HasUniqueIds : Db → Type 0
HasUniqueIds db =
    HasUniqueKeys Vault.id db.vaults
    × HasUniqueKeys Category.id db.categories
    × HasUniqueKeys Session.id db.sessions

owner_of :
    (k owner : ℕ) (cs : List Category)
    → any (owns_category k owner) cs ≡ true
    → (c : Category) × Has c cs × (c.id ≡ k) × (c.user_id ≡ owner)
owner_of k owner [] h = absurd (ground arith)
owner_of k owner (c ∷ cs) h = elim (Bool-cases (owns_category k owner c)) [
  | inl here ↦ (c, inl refl, ground arith, ground arith)
  | inr later ↦ let (d, m, a, b) = owner_of k owner cs (ground arith) in (d, inr m, a, b)
]

in_rows_only :
    (id k : ℕ) (cs : List Category) → in_rows Category.id (λ d. d.id == id) cs k ≡ true → k ≡ id
in_rows_only id k [] h = absurd (ground arith)
in_rows_only id k (c ∷ cs) h = ground (arith, in_rows_only id k cs)

-- An entry of another owner is not filed under the category that goes.
stays_filed :
    (u : User) (c : Category) (db : Db) (v : Vault)
    → HasUniqueKeys Category.id db.categories
    → Has c db.categories
    → c.user_id ≡ u.id
    → files_own db.categories v ≡ true
    → v.user_id == u.id ≡ false
    → unfiled c.id db.categories v ≡ v
stays_filed u c db v unique m o own other = ap (λ k. record v { category_id = k }) kept
  where
    kept :
        unlink (in_rows Category.id (λ d. d.id == c.id) db.categories) v.category_id ≡ v.category_id
    kept = elim (Option-cases v.category_id) [
      | inl none_given ↦ ground arith
      | inr (k, e) ↦ elim (Bool-cases (in_rows Category.id (λ d. d.id == c.id) db.categories k)) [
        | inr stays ↦ ground arith
        | inl gone ↦
            let (d, md, a, b) = owner_of k v.user_id db.categories (ground arith) in
            let e' = in_rows_only c.id k db.categories gone in
            let twin = same_of_key Category.id d c db.categories unique md m (a ∙ e') in
            absurd (ground (arith, sym b ∙ ap Category.user_id twin ∙ o))
      ]
    ]

others-unfiled :
    (id gone : ℕ) (cs : List Category) (vs : List Vault)
    → All (λ v. v.user_id == id ≡ false → unfiled gone cs v ≡ v) vs
    → others Vault.user_id id (update (λ v. true) (unfiled gone cs) vs) ≡ others Vault.user_id id vs
others-unfiled id gone cs [] a = refl
others-unfiled id gone cs (v ∷ vs) (p, ps) = elim (Bool-cases (v.user_id == id)) [
  | inl own ↦ ground (arith, others-unfiled id gone cs vs ps)
  | inr other ↦ rw other (ap₂ (λ x xs. x ∷ xs) (p other) (others-unfiled id gone cs vs ps))
]

Effect-KeepsOthers :
    (u : User) (db : Db) {db' : Db}
    → HasUniqueIds db
    → FilesOwn db
    → Effect u db db'
    → KeepsOthers u.id db db'
unfolding delete_categories
Effect-KeepsOthers u db unique own (same e) = rw e (refl, refl, refl, refl)
Effect-KeepsOthers u db unique own (category_added c o e) =
    rw e (refl, refl, others-append Category.user_id u.id c db.categories o, refl)
Effect-KeepsOthers u db (uv, uc, us) own (category_renamed c name m o e) = rw e (
  refl,
  refl,
  others-update Category.user_id u.id (λ d. d.id == c.id) (rename_to name) db.categories
      (All-of_Has _ db.categories (λ d md h.
        let owned =
          All-Has _ d db.categories (mine Category.user_id u.id Category.id c db.categories uc m o)
            md h in
        (owned, owned))),
  refl,
)
Effect-KeepsOthers u db (uv, uc, us) own (category_dropped c m o e) = rw e (
  refl,
  others-unfiled u.id c.id db.categories db.vaults (
      All-of_Has _ db.vaults
        (λ v mv other. stays_filed u c db v uc m o (All-Has _ v db.vaults own mv) other)),
  others-filter Category.user_id u.id (λ d. d.id == c.id) db.categories
      (mine Category.user_id u.id Category.id c db.categories uc m o),
  refl,
)
Effect-KeepsOthers u db unique own (vault_added v o f e) =
    rw e (refl, others-append Vault.user_id u.id v db.vaults o, refl, refl)
Effect-KeepsOthers u db (uv, uc, us) own (vault_saved v v' m o (i, i') f e) = rw e (
  refl,
  others-update Vault.user_id u.id (λ w. w.id == v'.id) (λ w. v') db.vaults
      (All-of_Has _ db.vaults (λ w mw h. (
        All-Has _ w db.vaults (mine Vault.user_id u.id Vault.id v db.vaults uv m o) mw (rw i at h),
        i' ∙ o,
      ))),
  refl,
  refl,
)
Effect-KeepsOthers u db (uv, uc, us) own (vault_dropped v m o e) = rw e (
  refl,
  others-filter Vault.user_id u.id (λ w. w.id == v.id) db.vaults
      (mine Vault.user_id u.id Vault.id v db.vaults uv m o),
  refl,
  refl,
)
Effect-KeepsOthers u db (uv, uc, us) own (session_dropped s m o e) = rw e (
  refl,
  refl,
  refl,
  others-filter Session.user_id u.id (λ r. r.id == s.id) db.sessions
      (mine Session.user_id u.id Session.id s db.sessions us m o),
)
Effect-KeepsOthers u db unique own (sessions_dropped current e) = rw e (
  refl,
  refl,
  refl,
  others-filter Session.user_id u.id (λ r. r.user_id == u.id && not (r.id == current)) db.sessions
      (All-of_Has _ db.sessions (λ r mr h. (==_iff r.user_id u.id).0 (ground arith))),
)

-- No request on the caller's own data touches anybody else's: every entry, category and session
-- of another account, and every other table, stays as it was, where the rows' ids are unique and
-- every entry is filed under a category of its own owner or under none.
pub personal-KeepsOthers :
    (env : Env) (u : User) (current : ℕ) (q : Personal) (db : Db)
    → HasUniqueIds db
    → FilesOwn db
    → KeepsOthers u.id db (personal env u current q db).1
personal-KeepsOthers env u current q db unique own =
    Effect-KeepsOthers u db unique own (personal-Effect env u current q db)
