-- ===== src/Models/Database.antt =====
-- The database, with what SQLite enforces of the models' tags: primary keys, the unique username
-- and invite token, and the foreign keys with their ON DELETE actions.
use librelock_server.Common.{
  ℕ, Bool, true, not, ◌&&◌, ◌||◌, Option, none, some, List, [], ◌∷◌, ◌++◌, text_eq, ◌==◌,
  if◌then◌else◌, any, filter, update, least, ltb,
}
use librelock_server.Models.Accounts.{User}
use librelock_server.Models.Records.{Session, Category, Vault, AppState}
use librelock_server.Models.OrgTables.{
  Organization, Invite, AuditEvent, Membership, OrgCategory, OrgVault,
}

-- A table that only organization mode creates: `none` where it does not exist.
abbrev pub Table {ℓ} : Type ℓ → Type ℓ
Table A = Option (List A)

abbrev pub rows {ℓ} : {A : Type ℓ} → Table A → List A
rows none = []
rows (some r) = r

pub record Db : Type 0 where
  pub users : List User
  pub categories : List Category
  pub vaults : List Vault
  pub sessions : List Session
  pub app_state : List AppState
  pub organization : Table Organization
  pub invites : Table Invite
  pub audit_events : Table AuditEvent
  pub memberships : Table Membership
  pub org_categories : Table OrgCategory
  pub org_vaults : Table OrgVault

-- How a statement that writes ends.
pub data Write : Type 0 where
  done : Db → Write
  duplicate failed : Write

module _ {ℓ} {A : Type ℓ} (key : A → ℕ) where
  -- gorm's First: the matching row with the least primary key.
  unfoldable pub first : (A → Bool) → List A → Option A
  first p xs = least (λ a b. ltb (key a) (key b)) (filter p xs)

  abbrev pub has_key : ℕ → List A → Bool
  has_key k xs = any (λ x. key x == k) xs

-- INSERT INTO user
unfoldable pub create_user : Bool → User → Db → Write
create_user fault u db =
    if fault
    then failed
    else if has_key User.id u.id db.users || any (λ x. text_eq x.username u.username) db.users
    then duplicate
    else done (record db { users = db.users ++ u ∷ [] })

unfoldable pub create_session : Bool → Session → Db → Write
create_session fault s db =
    if fault || not (has_key User.id s.user_id db.users)
    then failed
    else if has_key Session.id s.id db.sessions
    then duplicate
    else done (record db { sessions = db.sessions ++ s ∷ [] })

unfoldable pub create_category : Bool → Category → Db → Write
create_category fault c db =
    if fault || not (has_key User.id c.user_id db.users)
    then failed
    else if has_key Category.id c.id db.categories
    then duplicate
    else done (record db { categories = db.categories ++ c ∷ [] })

abbrev pub refers : (ℕ → Bool) → Option ℕ → Bool
refers known none = true
refers known (some k) = known k

unfoldable pub create_vault : Bool → Vault → Db → Write
create_vault fault v db =
    if fault
      || not (
          has_key User.id v.user_id db.users
          && refers (λ k. has_key Category.id k db.categories) v.category_id)
    then failed
    else if has_key Vault.id v.id db.vaults
    then duplicate
    else done (record db { vaults = db.vaults ++ v ∷ [] })

abbrev pub in_rows {ℓ} : {A : Type ℓ} → (A → ℕ) → (A → Bool) → List A → ℕ → Bool
in_rows key p xs k = any (λ x. p x && key x == k) xs

abbrev pub unlink : (ℕ → Bool) → Option ℕ → Option ℕ
unlink gone none = none
unlink gone (some k) = if gone k then none else some k

abbrev pub map_table {ℓ} : {A : Type ℓ} → (List A → List A) → Table A → Table A
map_table f none = none
map_table f (some r) = some (f r)

-- DELETE FROM category: the entries filed under a deleted one lose their category.
unfoldable pub delete_categories : (Category → Bool) → Db → Db
delete_categories p db = record db {
  categories = filter (λ c. not (p c)) db.categories;
  vaults =
      update (λ v. true)
        (λ v. record v { category_id = unlink (in_rows Category.id p db.categories) v.category_id })
        db.vaults;
}

-- DELETE FROM user: sessions, entries, categories and memberships go with their user.
unfoldable pub delete_users : (User → Bool) → Db → Db
unfolding delete_categories
delete_users p db =
    let gone = in_rows User.id p db.users in
    let db' = delete_categories (λ c. gone c.user_id) db in
    record db' {
      users = filter (λ u. not (p u)) db.users;
      vaults = filter (λ v. not (gone v.user_id)) db'.vaults;
      sessions = filter (λ s. not (gone s.user_id)) db.sessions;
      memberships = map_table (filter (λ m. not (gone m.user_id))) db.memberships;
    }
