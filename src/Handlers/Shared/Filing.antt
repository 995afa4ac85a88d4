-- ===== src/Handlers/Shared/Filing.antt =====
-- Under which shared categories shared entries are filed.
use librelock_server.Common.{
  ◌==◌, Bool-cases, Option-cases, any, filter, update, Text, ℕ, ◌≡◌, refl, inl, inr, true, false,
  not, ◌||◌, Option, none, some, List, [], ◌∷◌, ◌++◌, is_some, is_empty, Bool, arith, if◌then◌else◌,
}
use librelock_server.Common.Alls.{All-map, All-update_every}
use librelock_server.Env.{Env}
use librelock_server.Handlers.Helpers.{
  permits_shared, can_manage_shared, can_edit_shared, can_curate_shared,
}
use librelock_server.Handlers.Personal.Vault.{is_valid_store}
use librelock_server.Handlers.Shared.OrgCategory.{
  store_org_category, update_org_category, rename_found, destroy_org_category, drop_found,
  delete_org_category, unfile, find_org_category, not_curator,
}
use librelock_server.Handlers.Shared.OrgVault.{
  store_org_vault, add_org_vault, update_org_vault, update_org_found, destroy_org_vault,
  destroy_org_found, find_org_vault,
}
use librelock_server.Handlers.Shared.Requests.{
  Shared, shared, list_entries, list_filing, get_entry, get_filing, post_entry, put_entry,
  delete_entry, post_filing, put_filing, delete_filing,
}
use librelock_server.Http.{Reply, fail, reply, invalid}
use librelock_server.Models.{User, Db, OrgVault, OrgCategory, Table, rows, map_table}
use librelock_server.Handlers.Shared.Filed.{
  is_filed, IsFiled, All-map_table, add_org_vault-IsFiled, update_org_found-IsFiled,
  destroy_org_found-IsFiled,
}

-- The categories change to `cs`, under which whatever was filed still is.
IsFiled-categories :
    (db : Db) (cs : Table OrgCategory)
    → ((k : ℕ)
        → any (λ c. c.id == k) (rows db.org_categories) ≡ true
        → any (λ c. c.id == k) (rows cs) ≡ true)
    → IsFiled db
    → IsFiled (record db { org_categories = cs })
IsFiled-categories db cs more h =
    All-map _ _
      (λ v filed. elim (Option-cases v.category_id) [
        | inl none_given ↦ ground arith
        | inr (k, e) ↦ ground (arith, more k)
      ])
      (rows db.org_vaults) h

any_table :
    {A : Type 0} (p : A → Bool) (f : List A → List A)
    → ((xs : List A) → any p xs ≡ true → any p (f xs) ≡ true)
    → (t : Table A) → any p (rows t) ≡ true
    → any p (rows (map_table f t)) ≡ true
any_table p f keeps none h = h
any_table p f keeps (some xs) h = keeps xs h

any-append :
    {A : Type 0} (p : A → Bool) (x : A) (xs : List A)
    → any p xs ≡ true
    → any p (xs ++ x ∷ []) ≡ true
any-append p x [] h = absurd (ground arith)
any-append p x (y ∷ xs) h = ground (arith, any-append p x xs)

any-rename :
    (k id : ℕ) (name : Text) (cs : List OrgCategory)
    → any (λ c. c.id == k) cs ≡ true
    → any (λ c. c.id == k) (update (λ d. d.id == id) (λ d. record d { name = name }) cs) ≡ true
any-rename k id name [] h = h
any-rename k id name (c ∷ cs) h = ground (arith, any-rename k id name cs)

any-drop :
    (k id : ℕ) (cs : List OrgCategory)
    → k == id ≡ false
    → any (λ c. c.id == k) cs ≡ true
    → any (λ c. c.id == k) (filter (λ d. not (d.id == id)) cs) ≡ true
any-drop k id [] other h = h
any-drop k id (c ∷ cs) other h = ground (arith, any-drop k id cs)

abbrev made : Env → Text → OrgCategory
made env name = record { id = env.uuid 0; name = name }

-- A caller who may not write leaves the database alone.
guarded :
    (may : Bool) (why : Reply) (db : Db) (out : Reply × Db)
    → IsFiled db
    → IsFiled out.1
    → IsFiled (if not may then (why, db) else out).1
guarded true why db out h h' = h'
guarded false why db out h h' = h

store_org_category-IsFiled :
    (env : Env) (u : User) (name : Option Text) (db : Db)
    → IsFiled db
    → IsFiled (store_org_category env u name db).1
unfolding store_org_category
store_org_category-IsFiled env u none db h =
    guarded (permits_shared (env.fault 0) u db can_curate_shared) not_curator db
      (reply 422 invalid, db) h h
store_org_category-IsFiled env u (some n) db h =
    elim (Bool-cases (permits_shared (env.fault 0) u db can_curate_shared)) [
      | inr refused ↦ rw refused h
      | inl may ↦ elim (Bool-cases (is_empty n)) [
        | inl lacking ↦ rw (may, lacking) h
        | inr given ↦
            elim (Bool-cases (
              env.fault 2
              || not (is_some db.org_categories)
              || any (λ c. c.id == env.uuid 0) (rows db.org_categories))) [
                | inl failed ↦ rw (may, given, failed) h
                | inr stored ↦
                    rw (may, given, stored)
                      (IsFiled-categories db
                        (map_table (λ cs. cs ++ made env n ∷ []) db.org_categories)
                        (λ k.
                          any_table (λ c. c.id == k) _ (any-append (λ c. c.id == k) (made env n))
                            db.org_categories)
                        h)
              ]
      ]
    ]

rename_found-IsFiled :
    (env : Env) (name : Option Text) (db : Db) (o : Option OrgCategory)
    → IsFiled db
    → IsFiled (rename_found env name db o).1
unfolding rename_found
rename_found-IsFiled env name db none h = h
rename_found-IsFiled env none db (some c) h = h
rename_found-IsFiled env (some n) db (some c) h = elim (Bool-cases (is_empty n)) [
  | inl lacking ↦ rw lacking h
  | inr given ↦ elim (Bool-cases (env.fault 2)) [
    | inl failed ↦ rw (given, failed) h
    | inr ran ↦
        rw (given, ran)
          (IsFiled-categories db
            (map_table (update (λ d. d.id == c.id) (λ d. record d { name = n })) db.org_categories)
            (λ k. any_table (λ d. d.id == k) _ (any-rename k c.id n) db.org_categories) h)
  ]
]

is_filed-drop :
    (id : ℕ) (t : Table OrgCategory) (v : OrgVault)
    → is_filed (rows t) v ≡ true
    → is_filed (rows (map_table (filter (λ d. not (d.id == id))) t)) (unfile id v) ≡ true
is_filed-drop id t v filed = elim (Option-cases v.category_id) [
  | inl none_given ↦ ground arith
  | inr (k, e) ↦ elim (Bool-cases (k == id)) [
    | inl gone ↦ ground arith
    | inr kept ↦ ground (arith, any_table (λ c. c.id == k) _ (λ cs. any-drop k id cs kept) t)
  ]
]

drop_found-IsFiled :
    (env : Env) (db : Db) (o : Option OrgCategory) → IsFiled db → IsFiled (drop_found env db o).1
unfolding drop_found delete_org_category
drop_found-IsFiled env db none h = h
drop_found-IsFiled env db (some c) h = elim (Bool-cases (env.fault 2)) [
  | inl failed ↦ rw failed h
  | inr ran ↦ rw ran (
      All-map_table _ _ _
        (All-update_every _ _ (unfile c.id) (is_filed-drop c.id db.org_categories)) db.org_vaults h)
]

-- Every request on the shared vault, whoever makes it and whatever statement fails, keeps every
-- shared entry filed under a shared category that exists or under none.
pub shared-IsFiled :
    (env : Env) (u : User) (q : Shared) (db : Db) → IsFiled db → IsFiled (shared env u q db).1
unfolding shared store_org_vault update_org_vault destroy_org_vault update_org_category
    destroy_org_category
shared-IsFiled env u list_entries db h = h
shared-IsFiled env u list_filing db h = h
shared-IsFiled env u (get_entry id) db h = h
shared-IsFiled env u (get_filing id) db h = h
shared-IsFiled env u (post_entry none) db h =
    guarded (permits_shared (env.fault 0) u db can_manage_shared)
      (fail 403 "Only admins can add shared entries") db (reply 422 invalid, db) h h
shared-IsFiled env u (post_entry (some r)) db h =
    guarded (permits_shared (env.fault 0) u db can_manage_shared)
      (fail 403 "Only admins can add shared entries") db
      (if is_valid_store r then add_org_vault env u r db else (reply 422 invalid, db)) h
      (elim (Bool-cases (is_valid_store r)) [
        | inl valid ↦ rw valid (add_org_vault-IsFiled env u r db h)
        | inr malformed_request ↦ rw malformed_request h
      ])
shared-IsFiled env u (put_entry id body) db h =
    guarded (permits_shared (env.fault 0) u db can_edit_shared)
      (fail 403 "Only admins can edit shared entries") db
      (update_org_found env body db (find_org_vault (env.fault 1) id db)) h
      (update_org_found-IsFiled env id body db _ refl h)
shared-IsFiled env u (delete_entry id) db h =
    guarded (permits_shared (env.fault 0) u db can_manage_shared)
      (fail 403 "Only admins can delete shared entries") db
      (destroy_org_found env db (find_org_vault (env.fault 1) id db)) h
      (destroy_org_found-IsFiled env db (find_org_vault (env.fault 1) id db) h)
shared-IsFiled env u (post_filing name) db h = store_org_category-IsFiled env u name db h
shared-IsFiled env u (put_filing id name) db h =
    guarded (permits_shared (env.fault 0) u db can_curate_shared) not_curator db
      (rename_found env name db (find_org_category (env.fault 1) id db)) h
      (rename_found-IsFiled env name db (find_org_category (env.fault 1) id db) h)
shared-IsFiled env u (delete_filing id) db h =
    guarded (permits_shared (env.fault 0) u db can_curate_shared) not_curator db
      (drop_found env db (find_org_category (env.fault 1) id db)) h
      (drop_found-IsFiled env db (find_org_category (env.fault 1) id db) h)
