-- ===== src/Handlers/Organization/Logo.antt =====
-- `UploadLogo` and `DeleteLogo` of handlers/organization.go.
use librelock_server.Common.{
  ltb, if◌then◌else◌, length, Text, text, text_eq, is_empty, ℕ, ◌*◌, Bool, not, Option, none, some,
  List, [], any, ◌∷◌,
}
use librelock_server.AppMode.{Provider}
use librelock_server.Env.{Env}
use librelock_server.Handlers.Organization.DataUrl.{parse_data_url}
use librelock_server.Handlers.Organization.Row.{change}
use librelock_server.Http.{Reply, fail_field, reply, invalid}
use librelock_server.Models.{Organization, User, Db, org_logo_removed, org_logo_updated}

-- `maxLogoBytes` and `allowedLogoMimes`
abbrev pub max_logo_bytes : ℕ
max_logo_bytes = 512 * 1024

abbrev pub allowed_logo_mimes : List Text
allowed_logo_mimes =
    text "image/png"
    ∷ text "image/jpeg"
    ∷ text "image/svg+xml"
    ∷ text "image/webp"
    ∷ text "image/gif"
    ∷ []

unfoldable pub is_allowed_mime : Text → Bool
is_allowed_mime mime = any (text_eq mime) allowed_logo_mimes

abbrev pub with_logo : Text → List ℕ → ℕ → Organization → Organization
with_logo mime bytes now o = record o { logo_data = bytes; logo_mime_type = mime; updated_at = now }

unfoldable pub store_logo : Env → User → Provider → Text → List ℕ → Db → Reply × Db
store_logo env u p mime bytes db =
    if not (is_allowed_mime mime)
    then (fail_field "data" "Logo must be a PNG, JPEG, SVG, WebP or GIF data URL.", db)
    else if ltb max_logo_bytes (length bytes)
    then (fail_field "data" "Logo must be 512 KiB or smaller.", db)
    else change env u p "Failed to save logo" org_logo_updated (with_logo mime bytes (env.clock 1))
        db

unfoldable pub upload_parts : Env → User → Provider → Option (Text × List ℕ) → Db → Reply × Db
unfolding store_logo
upload_parts env u p none db =
    (fail_field "data" "Logo must be a PNG, JPEG, SVG, WebP or GIF data URL.", db)
upload_parts env u p (some parts) db = store_logo env u p parts.0 parts.1 db

-- `UploadLogo`
unfoldable pub upload_logo : Env → User → Provider → Option Text → Db → Reply × Db
unfolding upload_parts
upload_logo env u p none db = (reply 422 invalid, db)
upload_logo env u p (some url) db =
    if is_empty url then (reply 422 invalid, db) else upload_parts env u p (parse_data_url url) db

-- `DeleteLogo`; Updates sets the time of the update.
unfoldable pub delete_logo : Env → User → Provider → Db → Reply × Db
delete_logo env u p db =
    change env u p "Failed to remove logo" org_logo_removed (with_logo [] [] (env.clock 1)) db
