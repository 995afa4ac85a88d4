-- ===== src/Handlers/Organization/Tests.antt =====
-- The branding row of the sample.
use librelock_server.Common.{
  Text, text, text_eq, is_space, trim_space, ℕ, ◌+◌, ◌*◌, ◌≡◌, refl, true, false, none, some, List,
  [], ◌∷◌, arith, Bool, ◌&&◌,
}
use librelock_server.AppMode.{Provider}
use librelock_server.Env.{second}
use librelock_server.Handlers.Helpers.{can_manage_shared, can_edit_shared, can_curate_shared}
use librelock_server.Handlers.Organization.DataUrl.{parse_data_url}
use librelock_server.Handlers.Organization.Effects.{Frame, Loaded}
use librelock_server.Handlers.Organization.Logo.{is_allowed_mime, upload_logo}
use librelock_server.Handlers.Organization.Logos.{data_url, upload-serves}
use librelock_server.Handlers.Organization.Permits.{settings-permits, MemberMay}
use librelock_server.Handlers.Organization.Policy.{SharedSettings, update_shared_settings}
use librelock_server.Handlers.Organization.Public.{show_logo}
use librelock_server.Handlers.Organization.Requests.{run_branding, put_logo}
use librelock_server.Handlers.Organization.Update.{update_organization}
use librelock_server.Handlers.Organization.Valid.{IsBranded, branding-safe}
use librelock_server.Http.{reply, logo}
use librelock_server.Models.{organization, Organization}
use librelock_server.Samples.{acme, calm, ann, branding, bob}

abbrev at_work : Provider
at_work = record { mode = organization; open_reg = false }

abbrev png : Text
png = text "image/png"

abbrev pixels : List ℕ
pixels = 1 ∷ 2 ∷ 3 ∷ 250 ∷ []

read_url :
    parse_data_url (text "data: image/gif;x;base64,TWE=") ≡ some (text "image/gif", 77 ∷ 97 ∷ [])
unfolding parse_data_url librelock_server.Crypto.Base64.Padded.base64_decode_padded trim_space
    is_space
read_url = refl

no_comma : parse_data_url (text "data:image/gif;base64") ≡ none
unfolding parse_data_url
no_comma = refl

bad_padding : parse_data_url (text "data:image/gif;base64,TWE=TWE=") ≡ none
unfolding parse_data_url librelock_server.Crypto.Base64.Padded.base64_decode_padded
bad_padding = refl

blank_name :
    (update_organization calm ann at_work
      (some (record {
        name = some (text "  ");
        support_email = none;
        support_url = none;
        login_message = none;
      }))
      acme).1.organization
    ≡ some (record branding { name = text "LibreLock"; updated_at = 100 * second + 1 } ∷ [])
unfolding update_organization librelock_server.Handlers.Organization.Update.is_valid_update
    librelock_server.Handlers.Organization.Row.change
    librelock_server.Handlers.Organization.Row.get_or_create
    librelock_server.Handlers.Organization.Row.save_organization
    librelock_server.Handlers.Helpers.record_audit
    librelock_server.Handlers.Organization.Update.edit_organization trim_space is_space
blank_name = refl

png_allowed : is_allowed_mime png ≡ true
unfolding is_allowed_mime text_eq
png_allowed = refl

upload-serves_example :
    let out = upload_logo calm ann at_work (some (data_url png pixels)) acme in
    (out.0.status ≡ 200) × ((show_logo calm at_work out.1).0 ≡ reply 200 (logo png pixels))
upload-serves_example =
    upload-serves calm calm ann at_work png pixels acme png_allowed
      (omega arith, (omega arith, (omega arith, (omega arith, tt)))) (omega arith) (omega arith)
      (λ i. refl) refl refl refl

branding-safe_example :
    let db' = (run_branding calm ann at_work (put_logo (some (data_url png pixels))) acme).1 in
    Frame acme db' × (IsBranded acme → IsBranded db')
branding-safe_example = branding-safe calm ann at_work (put_logo (some (data_url png pixels))) acme

abbrev wanted : SharedSettings
wanted = record {
  auto_grant_shared = none;
  member_manage_shared = some false;
  member_edit_shared = none;
}

wanted_ok : (update_shared_settings calm ann at_work (some wanted) acme).0.status ≡ 200
unfolding update_shared_settings librelock_server.Handlers.Organization.Row.change
    librelock_server.Handlers.Organization.Row.get_or_create
    librelock_server.Handlers.Organization.Row.save_organization
wanted_ok = refl

settings-permits_example :
    let out = update_shared_settings calm ann at_work (some wanted) acme in
    (o : Organization) × (os : List Organization) × Loaded calm acme o os
    × (manage : Bool) × (edit : Bool) × (manage ≡ false)
    × (edit ≡ o.member_edit_shared)
    × MemberMay bob out.1 can_manage_shared manage
    × MemberMay bob out.1 can_edit_shared edit
    × MemberMay bob out.1 can_curate_shared (manage && edit)
settings-permits_example = settings-permits calm ann bob at_work wanted acme refl wanted_ok
