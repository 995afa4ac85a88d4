-- ===== src/Handlers/OrgMembership/Tests.antt =====
-- Shared access on the sample instance.
use librelock_server.Common.{least, text, ◌≡◌, refl, false, none, some}
use librelock_server.Http.{reply, wrapped_key}
use librelock_server.Middleware.Auth.{require_membership}
use librelock_server.Models.{organization}
use librelock_server.Handlers.OrgMembership.{my_org_key, GrantRequest, grant_membership}
use librelock_server.Handlers.OrgMembership.Laws.{my_org_key-grant_membership}
use librelock_server.Samples.{calm, acme, ann, bob}

abbrev for_bob : GrantRequest
for_bob = record { user_id = 2; wrapped_key = text "w2" }

granted_ok : (grant_membership calm ann (some for_bob) acme).0.status ≡ 200
unfolding grant_membership librelock_server.Handlers.OrgMembership.grant_found
    librelock_server.Models.first least
granted_ok = refl

my_org_key-grant_membership_example :
    let db' = (grant_membership calm ann (some for_bob) acme).1 in
    (my_org_key calm bob db' ≡ reply 200 (wrapped_key (text "w2")))
    × (require_membership false organization bob db' ≡ none)
my_org_key-grant_membership_example =
    my_org_key-grant_membership calm calm ann bob for_bob acme granted_ok refl refl
