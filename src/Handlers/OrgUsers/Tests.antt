-- ===== src/Handlers/OrgUsers/Tests.antt =====
-- Account management on the sample instance.
use librelock_server.Common.{◌≢◌, text, ◌≡◌, refl, inl, some}
use librelock_server.Handlers.Admins.{HasAdmin}
use librelock_server.Handlers.OrgUsers.{manage, put_role, delete, change_status, guard_owner_target}
use librelock_server.Handlers.OrgUsers.Owners.{manage-keeps_actor, manage-keeps_owners}
use librelock_server.Handlers.OrgUsers.Suspension.{suspension-shuts_out}
use librelock_server.Middleware.Auth.{auth, passed}
use librelock_server.Models.{member, suspended, Db}
use librelock_server.Models.First.{Has}
use librelock_server.Samples.{calm, acme, ann, bob, cid}

manage-keeps_actor_example :
    let db' = (manage calm ann 2 delete acme).1 in Has ann db'.users × HasAdmin db'.users
manage-keeps_actor_example = manage-keeps_actor calm ann 2 delete acme (inl refl) refl

manage-keeps_owners_example : Has ann (manage calm cid 1 (put_role (some member)) acme).1.users
manage-keeps_owners_example =
    manage-keeps_owners calm cid ann 1 (put_role (some member)) acme (refl, (refl, (refl, tt))) refl
      refl (inl refl)

abbrev suspending : Db
suspending = (change_status calm ann bob suspended acme).1

ann_still_in : (auth calm 3600 (text "t1") suspending).access ≡ passed ann 11 (text "t1")
unfolding auth librelock_server.Models.first librelock_server.Common.least change_status
    guard_owner_target librelock_server.Handlers.Helpers.record_audit
    librelock_server.Common.text_eq librelock_server.Crypto.Token.hash_token
    librelock_server.Crypto.Hex.hex_encode
ann_still_in = refl

suspended_ok : (change_status calm ann bob suspended acme).0.status ≡ 200
unfolding change_status guard_owner_target
suspended_ok = refl

suspension-shuts_out_example : ann.id ≢ bob.id
suspension-shuts_out_example =
    suspension-shuts_out calm calm ann bob ann acme 3600 11 (text "t1") (text "t1") refl refl
      suspended_ok ann_still_in
