-- ===== src/Handlers/Personal/Category.antt =====
-- handlers/category.go. Statement 0 is the search of the category, or the one of a list or of a
-- new row, and statement 1 the write.
use librelock_server.Common.{
  ◌==◌, if◌then◌else◌, filter, update, Text, is_empty, ℕ, Bool, ◌&&◌, Option, none, some, [],
}
use librelock_server.Env.{Env}
use librelock_server.Http.{Reply, reply, fail, message, invalid, categories, category}
use librelock_server.Models.{User, Category, Db, Write, done, delete_categories, create_category}
use librelock_server.Handlers.Helpers.{find}

abbrev pub owns_category : ℕ → ℕ → Category → Bool
owns_category id user_id c = c.id == id && c.user_id == user_id

abbrev pub rename_to : Text → Category → Category
rename_to name c = record c { name = name }

-- `Index`; the order is the database's, and an error gives no rows.
unfoldable pub index_categories : Env → User → Db → Reply
index_categories env u db =
    reply 200
      (categories (if env.fault 0 then [] else filter (λ c. c.user_id == u.id) db.categories))

abbrev pub find_category : Env → User → ℕ → Db → Option Category
find_category env u id db = find (env.fault 0) Category.id (owns_category id u.id) db.categories

-- `Show`
unfoldable pub show_category : Env → User → ℕ → Db → Reply
show_category env u id db = elim (find_category env u id db) [
  | none ↦ fail 404 "Not found"
  | some c ↦ reply 200 (category c)
]

abbrev pub new_category : Env → User → Text → Category
new_category env u name = record { id = env.uuid 0; user_id = u.id; name = name }

abbrev pub stored : Category → Db → Write → Reply × Db
stored c db (done db') = (reply 201 (category c), db')
stored c db _ = (fail 500 "Failed to create category", db)

-- `Store`, on the name of the request
unfoldable pub store_category : Env → User → Option Text → Db → Reply × Db
store_category env u none db = (reply 422 invalid, db)
store_category env u (some name) db =
    if is_empty name
    then (reply 422 invalid, db)
    else stored (new_category env u name) db
        (create_category (env.fault 0) (new_category env u name) db)

abbrev pub save_category : Bool → Category → Text → Db → Db
save_category fault c name db =
    if fault
    then db
    else record db { categories = update (λ d. d.id == c.id) (rename_to name) db.categories }

-- What follows the search of `Update`; the error of the write is not looked at.
unfoldable pub update_found : Env → Option Text → Db → Option Category → Reply × Db
update_found env request db none = (fail 404 "Not found", db)
update_found env none db (some c) = (reply 422 invalid, db)
update_found env (some name) db (some c) =
    if is_empty name
    then (reply 422 invalid, db)
    else (reply 200 (category (rename_to name c)), save_category (env.fault 1) c name db)

-- `Update`
unfoldable pub update_category : Env → User → ℕ → Option Text → Db → Reply × Db
update_category env u id request db = update_found env request db (find_category env u id db)

-- What follows the search of `Destroy`; the error of the write is not looked at.
unfoldable pub destroy_found : Env → Db → Option Category → Reply × Db
destroy_found env db none = (fail 404 "Not found", db)
destroy_found env db (some c) = (
  reply 200 (message "Deleted"),
  if env.fault 1 then db else delete_categories (λ d. d.id == c.id) db,
)

-- `Destroy`
unfoldable pub destroy_category : Env → User → ℕ → Db → Reply × Db
destroy_category env u id db = destroy_found env db (find_category env u id db)
