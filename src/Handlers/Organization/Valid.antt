-- ===== src/Handlers/Organization/Valid.antt =====
-- The well-formed branding row.
use librelock_server.Common.{
  ltb, leb, Bool-cases, All, length, Text, is_empty, trim_space, ℕ, ◌≡◌, refl, ◌⊎◌, inl, inr, true,
  false, Option, none, some, List, [], ◌∷◌, arith,
}
use librelock_server.AppMode.{default_branding, Provider}
use librelock_server.Env.{Env}
use librelock_server.Handlers.Organization.DataUrl.{parse_data_url}
use librelock_server.Handlers.Organization.Effects.{
  Touched, Frame, change-Touched, Loaded, loaded-Touched, saved_loaded-Touched,
}
use librelock_server.Handlers.Organization.Logo.{
  delete_logo, upload_logo, upload_parts, max_logo_bytes, store_logo, with_logo, is_allowed_mime,
}
use librelock_server.Handlers.Organization.Policy.{
  policy_loaded, update_policy, update_shared_settings, set_shared, SharedSettings,
  set_registration, has_setting,
}
use librelock_server.Handlers.Organization.Requests.{
  run_branding, Branding, put_branding, put_logo, put_registration, put_settings,
  delete_branding_logo,
}
use librelock_server.Handlers.Organization.Row.{get_or_create}
use librelock_server.Handlers.Organization.Update.{
  update_organization, edit_organization, UpdateRequest, is_valid_update, name_or_default,
  name_given,
}
use librelock_server.Models.{
  Db, Organization, User, rows, Registration, org_updated, org_logo_removed, same_registration,
  org_logo_updated, shared_settings_changed, registration_changed,
}

-- A name, and a logo of an allowed type that is not too large.
abbrev pub IsBranding : Organization → Type 0
IsBranding o =
    (is_empty o.name ≡ false)
    × (leb (length o.logo_data) max_logo_bytes ≡ true)
    × ((is_allowed_mime o.logo_mime_type ≡ true) ⊎ (o.logo_data ≡ []))

-- At most one row, which is well-formed.
abbrev pub IsBranded : Db → Type 0
IsBranded db =
    (leb (length (rows db.organization)) 1 ≡ true) × All IsBranding (rows db.organization)

-- What a request does to the row keeps it well-formed.
abbrev Keeps : (Organization → Organization) → Type 0
Keeps f = (o : Organization) → IsBranding o → IsBranding (f o)

abbrev Effect : Env → Db → Db → Type 0
Effect env db db' = (f : Organization → Organization) × Keeps f × Touched env f db db'

default_branding-IsBranding : (now : ℕ) → IsBranding (default_branding now)
default_branding-IsBranding now = (refl, refl, inr refl)

unchanged : (env : Env) (db : Db) → Effect env db db
unchanged env db = (λ o. o, λ o h. h, inl refl)

name_or_default-is_empty : (name : Text) → is_empty (name_or_default name) ≡ false
name_or_default-is_empty [] = refl
name_or_default-is_empty (c ∷ s) = refl

name_given-is_empty :
    (name : Option Text) (old : Text)
    → is_empty old ≡ false
    → is_empty (name_given name old) ≡ false
name_given-is_empty none old h = h
name_given-is_empty (some s) old h = name_or_default-is_empty (trim_space s)

update-Effect :
    (env : Env) (u : User) (p : Provider) (r : Option UpdateRequest) (db : Db)
    → Effect env db (update_organization env u p r db).1
unfolding update_organization edit_organization
update-Effect env u p none db = unchanged env db
update-Effect env u p (some r) db = elim (Bool-cases (is_valid_update r)) [
  | inr wrong ↦ rw wrong (unchanged env db)
  | inl right ↦ rw right (
    edit_organization r (env.clock 1),
    λ o h. (name_given-is_empty r.name o.name h.0, h.1, h.2),
    change-Touched env u p "Failed to update organization" org_updated
        (edit_organization r (env.clock 1)) db,
  )
]

store_logo-Effect :
    (env : Env) (u : User) (p : Provider) (mime : Text) (bytes : List ℕ) (db : Db)
    → Effect env db (store_logo env u p mime bytes db).1
unfolding store_logo
store_logo-Effect env u p mime bytes db = elim (Bool-cases (is_allowed_mime mime)) [
  | inr wrong ↦ rw wrong (unchanged env db)
  | inl right ↦ elim (Bool-cases (ltb max_logo_bytes (length bytes))) [
    | inl large ↦ rw (right, large) (unchanged env db)
    | inr small ↦
        rw (right, small)
          (
            with_logo mime bytes (env.clock 1),
            λ o h. (h.0, ground arith, inl right),
            change-Touched env u p "Failed to save logo" org_logo_updated
                (with_logo mime bytes (env.clock 1)) db,
          )
  ]
]

parsed-Effect :
    (env : Env) (u : User) (p : Provider) (parts : Option (Text × List ℕ)) (db : Db)
    → Effect env db (upload_parts env u p parts db).1
unfolding upload_parts
parsed-Effect env u p none db = unchanged env db
parsed-Effect env u p (some parts) db = store_logo-Effect env u p parts.0 parts.1 db

upload-Effect :
    (env : Env) (u : User) (p : Provider) (r : Option Text) (db : Db)
    → Effect env db (upload_logo env u p r db).1
unfolding upload_logo
upload-Effect env u p none db = unchanged env db
upload-Effect env u p (some []) db = unchanged env db
upload-Effect env u p (some (c ∷ s)) db = parsed-Effect env u p (parse_data_url (c ∷ s)) db

delete-Effect :
    (env : Env) (u : User) (p : Provider) (db : Db) → Effect env db (delete_logo env u p db).1
unfolding delete_logo
delete-Effect env u p db = (
  with_logo [] [] (env.clock 1),
  λ o h. (h.0, refl, inr refl),
  change-Touched env u p "Failed to remove logo" org_logo_removed (with_logo [] [] (env.clock 1))
      db,
)

policy_loaded-Touched :
    (env : Env) (u : User) (p : Provider) (policy : Registration) (db : Db)
    (loaded : Option (Organization × Db))
    → get_or_create env db ≡ loaded
    → Touched env (set_registration policy) db (policy_loaded env u p policy db loaded).1
unfolding policy_loaded
policy_loaded-Touched env u p policy db none e = inl refl
policy_loaded-Touched env u p policy db (some found) e =
    elim (Bool-cases (same_registration found.0.registration policy)) [
      | inl same ↦ rw same (loaded-Touched env (set_registration policy) db found e)
      | inr other ↦ rw other (
          saved_loaded-Touched env u p "Failed to update registration" registration_changed
            (set_registration policy) db found e)
    ]

policy-Effect :
    (env : Env) (u : User) (p : Provider) (r : Option Registration) (db : Db)
    → Effect env db (update_policy env u p r db).1
unfolding update_policy set_registration
policy-Effect env u p none db = unchanged env db
policy-Effect env u p (some policy) db = (
  set_registration policy,
  λ o h. h,
  policy_loaded-Touched env u p policy db (get_or_create env db) refl,
)

settings-Effect :
    (env : Env) (u : User) (p : Provider) (r : Option SharedSettings) (db : Db)
    → Effect env db (update_shared_settings env u p r db).1
unfolding update_shared_settings set_shared
settings-Effect env u p none db = unchanged env db
settings-Effect env u p (some r) db = elim (Bool-cases (has_setting r)) [
  | inr nothing ↦ rw nothing (unchanged env db)
  | inl given ↦ rw given (
    set_shared r,
    λ o h. h,
    change-Touched env u p "Failed to update settings" shared_settings_changed (set_shared r) db,
  )
]

branding-Effect :
    (env : Env) (u : User) (p : Provider) (r : Branding) (db : Db)
    → Effect env db (run_branding env u p r db).1
unfolding run_branding
branding-Effect env u p (put_branding r) db = update-Effect env u p r db
branding-Effect env u p (put_logo r) db = upload-Effect env u p r db
branding-Effect env u p delete_branding_logo db = delete-Effect env u p db
branding-Effect env u p (put_registration r) db = policy-Effect env u p r db
branding-Effect env u p (put_settings r) db = settings-Effect env u p r db

Loaded-IsBranding :
    (env : Env) (db : Db) (o : Organization) (os : List Organization)
    → Loaded env db o os
    → IsBranded db
    → (leb (length (o ∷ os)) 1 ≡ true) × All IsBranding (o ∷ os)
Loaded-IsBranding env db o os (inl e) h = rw e at h
Loaded-IsBranding env db o os (inr (e, eo, eos)) h =
    rw (eo, eos) (refl, (default_branding-IsBranding (env.clock 0), tt))

Touched-Keeps :
    (env : Env) (f : Organization → Organization) (db db' : Db)
    → Keeps f
    → Touched env f db db'
    → IsBranded db
    → IsBranded db'
Touched-Keeps env f db db' k (inl e) h = rw e h
Touched-Keeps env f db db' k (inr (o, os, l, written, frame)) h =
    let (n, (b, bs)) = Loaded-IsBranding env db o os l h in
    elim written [ inl same ↦ rw same (n, (b, bs)) | inr new ↦ rw new (n, (k o b, bs)) ]

Touched-Frame :
    (env : Env) (f : Organization → Organization) (db db' : Db)
    → Touched env f db db'
    → Frame db db'
Touched-Frame env f db db' (inl e) = rw e refl
Touched-Frame env f db db' (inr (o, os, l, written, frame)) = frame

-- A request of an administrator on the branding changes nothing but the branding row and the
-- audit log, and keeps the row well-formed: there is at most one, its name is not empty, its
-- logo has at most 512 KiB and is of an allowed type or empty.
pub branding-safe :
    (env : Env) (u : User) (p : Provider) (r : Branding) (db : Db)
    → let db' = (run_branding env u p r db).1 in Frame db db' × (IsBranded db → IsBranded db')
branding-safe env u p r db =
    let (f, k, t) = branding-Effect env u p r db in
    (Touched-Frame env f db _ t, λ h. Touched-Keeps env f db _ k t h)
