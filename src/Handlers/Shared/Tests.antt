-- ===== src/Handlers/Shared/Tests.antt =====
-- Requests on the shared vault of the sample organization.
use librelock_server.Common.{text, refl, ◌≡◌, ◌⊎◌, some, none, [], ◌∷◌}
use librelock_server.Models.{Db, OrgCategory, OrgVault, note, rows}
use librelock_server.Handlers.Shared.Requests.{shared, post_filing, delete_filing}
use librelock_server.Handlers.Shared.Filed.{IsFiled}
use librelock_server.Handlers.Shared.Filing.{shared-IsFiled}
use librelock_server.Handlers.Shared.Permissions.{MayWrite, WritesShared, shared-MayWrite}
use librelock_server.Samples.{calm, acme, ann, bob}

shared-MayWrite_example :
    ((shared calm bob (post_filing (some (text "team"))) acme).1 ≡ acme)
    ⊎ (MayWrite bob (post_filing (some (text "team"))) acme
        × WritesShared acme (shared calm bob (post_filing (some (text "team"))) acme).1)
shared-MayWrite_example = shared-MayWrite calm bob (post_filing (some (text "team"))) acme

abbrev team : OrgCategory
team = record { id = 5; name = text "team" }

abbrev filed_entry : OrgVault
filed_entry = record {
  id = 8;
  created_by = none;
  category_id = some 5;
  type = note;
  encrypted_blob = text "b";
  iv = text "i";
  version = 1;
}

abbrev filing : Db
filing = record acme { org_categories = some (team ∷ []); org_vaults = some (filed_entry ∷ []) }

-- The deletion of the category takes the entry out of it.
unfiled_test :
    rows (shared calm ann (delete_filing 5) filing).1.org_vaults
    ≡ record filed_entry { category_id = none } ∷ []
unfolding shared librelock_server.Handlers.Shared.OrgCategory.destroy_org_category
    librelock_server.Handlers.Helpers.permits_shared
    librelock_server.Handlers.Shared.OrgCategory.drop_found librelock_server.Models.first
    librelock_server.Common.least librelock_server.Handlers.Shared.OrgCategory.delete_org_category
unfiled_test = refl

shared-IsFiled_example : IsFiled (shared calm ann (delete_filing 5) filing).1
shared-IsFiled_example = shared-IsFiled calm ann (delete_filing 5) filing (refl, tt)
