-- ===== src/Handlers/Shared/OrgCategory.antt =====
-- handlers/orgcategory.go. Statement 0 is the search of the organization, or the one of a list, 1
-- the search of the category, and 2 the write. A missing table is an error.
use librelock_server.Common.{
  ◌==◌, if◌then◌else◌, is_some, any, filter, update, Text, is_empty, ℕ, Bool, true, not, ◌||◌,
  Option, none, some, [], ◌∷◌, ◌++◌,
}
use librelock_server.Env.{Env}
use librelock_server.Http.{Reply, reply, fail, message, invalid, org_categories, org_category}
use librelock_server.Models.{User, OrgCategory, OrgVault, Db, rows, map_table, unlink}
use librelock_server.Handlers.Helpers.{find, permits_shared, can_curate_shared}

abbrev pub not_curator : Reply
not_curator = fail 403 "Only admins can manage shared categories"

-- `Index`; an error gives no rows.
unfoldable pub index_org_categories : Env → Db → Reply
index_org_categories env db =
    reply 200 (org_categories (if env.fault 0 then [] else rows db.org_categories))

abbrev pub find_org_category : Bool → ℕ → Db → Option OrgCategory
find_org_category fault id db = find fault OrgCategory.id (λ c. c.id == id) (rows db.org_categories)

-- `Show`
unfoldable pub show_org_category : Env → ℕ → Db → Reply
show_org_category env id db = elim (find_org_category (env.fault 0) id db) [
  | none ↦ fail 404 "Not found"
  | some c ↦ reply 200 (org_category c)
]

-- `Store`, on the name of the request
unfoldable pub store_org_category : Env → User → Option Text → Db → Reply × Db
store_org_category env u name db =
    if not (permits_shared (env.fault 0) u db can_curate_shared)
    then (not_curator, db)
    else elim name [
      | none ↦ (reply 422 invalid, db)
      | some n ↦
          if is_empty n
          then (reply 422 invalid, db)
          else if env.fault 2
              || not (is_some db.org_categories)
              || any (λ c. c.id == env.uuid 0) (rows db.org_categories)
          then (fail 500 "Failed to create category", db)
          else (
            reply 201 (org_category (record { id = env.uuid 0; name = n })),
            record db {
              org_categories =
                  map_table (λ cs. cs ++ record { id = env.uuid 0; name = n } ∷ [])
                    db.org_categories;
            },
          )
    ]

-- What follows the search of `Update`; the error of the write is not looked at.
unfoldable pub rename_found : Env → Option Text → Db → Option OrgCategory → Reply × Db
rename_found env name db none = (fail 404 "Not found", db)
rename_found env none db (some c) = (reply 422 invalid, db)
rename_found env (some n) db (some c) = if is_empty n then (reply 422 invalid, db) else (
  reply 200 (org_category (record c { name = n })),
  if env.fault 2 then db else record db {
    org_categories =
        map_table (update (λ d. d.id == c.id) (λ d. record d { name = n })) db.org_categories;
  },
)

-- `Update`
unfoldable pub update_org_category : Env → User → ℕ → Option Text → Db → Reply × Db
update_org_category env u id name db =
    if not (permits_shared (env.fault 0) u db can_curate_shared)
    then (not_curator, db)
    else rename_found env name db (find_org_category (env.fault 1) id db)

abbrev pub unfile : ℕ → OrgVault → OrgVault
unfile id v = record v { category_id = unlink (λ k. k == id) v.category_id }

-- DELETE FROM org_category: the entries filed under it lose their category.
unfoldable pub delete_org_category : ℕ → Db → Db
delete_org_category id db = record db {
  org_categories = map_table (filter (λ d. not (d.id == id))) db.org_categories;
  org_vaults = map_table (update (λ v. true) (unfile id)) db.org_vaults;
}

-- What follows the search of `Destroy`; the error of the write is not looked at.
unfoldable pub drop_found : Env → Db → Option OrgCategory → Reply × Db
drop_found env db none = (fail 404 "Not found", db)
drop_found env db (some c) =
    (reply 200 (message "Deleted"), if env.fault 2 then db else delete_org_category c.id db)

-- `Destroy`
unfoldable pub destroy_org_category : Env → User → ℕ → Db → Reply × Db
destroy_org_category env u id db =
    if not (permits_shared (env.fault 0) u db can_curate_shared)
    then (not_curator, db)
    else drop_found env db (find_org_category (env.fault 1) id db)
