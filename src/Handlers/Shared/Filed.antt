-- ===== src/Handlers/Shared/Filed.antt =====
-- Requests on shared entries, and the categories under which these are filed.
use librelock_server.Common.{
  ◌==◌, Bool-cases, All, any, ℕ, ◌≡◌, inl, inr, true, not, ◌||◌, Option, none, some, List, is_some,
  is_empty, Bool, arith,
}
use librelock_server.Common.Alls.{All-append_last, All-filter, All-update_const}
use librelock_server.Env.{Env}
use librelock_server.Handlers.Personal.Vault.{
  StoreVaultRequest, UpdateVaultRequest, UpdateBody, unread, malformed, parsed, is_version,
}
use librelock_server.Handlers.Searches.{find-some}
use librelock_server.Handlers.Shared.OrgVault.{
  add_org_vault, update_org_found, edit_org_found, destroy_org_found, org_category_exists,
  exists_given, exists_change, new_org_vault, edit_org_vault, find_org_vault,
}
use librelock_server.Models.{User, Db, OrgVault, OrgCategory, Table, refers, rows, map_table}
use librelock_server.Models.First.{Has, All-Has}

-- The entry's category, if it has one, is there.
abbrev pub is_filed : List OrgCategory → OrgVault → Bool
is_filed cs v = refers (λ k. any (λ c. c.id == k) cs) v.category_id

abbrev pub IsFiled : Db → Type 0
IsFiled db = All (λ v. is_filed (rows db.org_categories) v ≡ true) (rows db.org_vaults)

-- A statement on a table, on what holds of its rows.
pub All-map_table :
    {A : Type 0} (P Q : A → Type 0) (f : List A → List A)
    → ((xs : List A) → All P xs → All Q (f xs))
    → (t : Table A) → All P (rows t)
    → All Q (rows (map_table f t))
All-map_table P Q f keeps none a = tt
All-map_table P Q f keeps (some xs) a = keeps xs a

is_filed-new :
    (env : Env) (u : User) (r : StoreVaultRequest) (db : Db)
    → exists_given (env.fault 2) r.category_id db ≡ true
    → is_filed (rows db.org_categories) (new_org_vault env u r) ≡ true
unfolding org_category_exists
is_filed-new env u r db h = ground arith

pub add_org_vault-IsFiled :
    (env : Env) (u : User) (r : StoreVaultRequest) (db : Db)
    → IsFiled db
    → IsFiled (add_org_vault env u r db).1
unfolding add_org_vault
add_org_vault-IsFiled env u r db h =
    elim (Bool-cases (exists_given (env.fault 2) r.category_id db)) [
      | inr unknown_id ↦ rw unknown_id h
      | inl exists ↦
          elim (Bool-cases (
            env.fault 3
            || not (is_some db.org_vaults)
            || any (λ v. v.id == env.uuid 0) (rows db.org_vaults))) [
              | inl failed ↦ rw (exists, failed) h
              | inr stored ↦
                  rw (exists, stored)
                    (All-map_table _ _ _
                      (λ vs a.
                        All-append_last _ vs (new_org_vault env u r) a
                          (is_filed-new env u r db exists))
                      db.org_vaults h)
            ]
    ]

is_filed-edit :
    (fault : Bool) (r : UpdateVaultRequest) (v : OrgVault) (db : Db)
    → exists_change fault r.category db ≡ true
    → is_filed (rows db.org_categories) v ≡ true
    → is_filed (rows db.org_categories) (edit_org_vault r v) ≡ true
unfolding org_category_exists
is_filed-edit fault r v db h filed = ground arith

edit_org_found-IsFiled :
    (env : Env) (r : UpdateVaultRequest) (v : OrgVault) (db : Db)
    → Has v (rows db.org_vaults)
    → IsFiled db
    → IsFiled (edit_org_found env r v db).1
unfolding edit_org_found
edit_org_found-IsFiled env r v db m h =
    elim (Bool-cases (is_empty r.encrypted_blob || is_empty r.iv)) [
      | inl lacking ↦ rw lacking h
      | inr full ↦ elim (Bool-cases (is_version r.version)) [
        | inr low ↦ rw (full, low) h
        | inl fine ↦ elim (Bool-cases (exists_change (env.fault 2) r.category db)) [
          | inr unknown_id ↦ rw (full, fine, unknown_id) h
          | inl exists ↦ elim (Bool-cases (env.fault 3)) [
            | inl failed ↦ rw (full, fine, exists, failed) h
            | inr ran ↦
                rw (full, fine, exists, ran)
                  (All-map_table _ _ _
                    (λ vs a.
                      All-update_const _ (λ w. w.id == v.id) (edit_org_vault r v) vs a
                        (is_filed-edit (env.fault 2) r v db exists
                          (All-Has _ v (rows db.org_vaults) h m)))
                    db.org_vaults h)
          ]
        ]
      ]
    ]

pub update_org_found-IsFiled :
    (env : Env) (id : ℕ) (body : UpdateBody) (db : Db) (o : Option OrgVault)
    → find_org_vault (env.fault 1) id db ≡ o
    → IsFiled db
    → IsFiled (update_org_found env body db o).1
unfolding update_org_found
update_org_found-IsFiled env id body db none e h = h
update_org_found-IsFiled env id unread db (some v) e h = h
update_org_found-IsFiled env id malformed db (some v) e h = h
update_org_found-IsFiled env id (parsed r) db (some v) e h =
    edit_org_found-IsFiled env r v db
      (find-some (env.fault 1) OrgVault.id (λ w. w.id == id) (rows db.org_vaults) v e).0 h

pub destroy_org_found-IsFiled :
    (env : Env) (db : Db) (o : Option OrgVault)
    → IsFiled db
    → IsFiled (destroy_org_found env db o).1
unfolding destroy_org_found
destroy_org_found-IsFiled env db none h = h
destroy_org_found-IsFiled env db (some v) h = elim (Bool-cases (env.fault 3)) [
  | inl failed ↦ rw failed h
  | inr ran ↦ rw ran (All-map_table _ _ _ (All-filter _ (λ w. not (w.id == v.id))) db.org_vaults h)
]
