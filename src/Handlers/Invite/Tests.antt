-- ===== src/Handlers/Invite/Tests.antt =====
-- Invites on the sample instance.
use librelock_server.Common.{filter, text, text_eq, ◌*◌, ◌≡◌, refl, some, arith}
use librelock_server.Env.{second}
use librelock_server.Crypto.Token.{hash_token}
use librelock_server.Models.{is_valid_invite, rows}
use librelock_server.Handlers.Auth.Register.{find_valid_invite}
use librelock_server.Handlers.Invite.{InviteRequest, new_invite, create_invite, prune_invites}
use librelock_server.Handlers.Invite.Laws.{prune_invites-pending, find_valid_invite-create_invite}
use librelock_server.Samples.{calm, acme, ann, invites}

pruned_ok : (prune_invites calm ann (text "spent") acme).0.status ≡ 200
unfolding prune_invites
pruned_ok = refl

prune_invites-pending_example :
    rows (prune_invites calm ann (text "spent") acme).1.invites
    ≡ filter (is_valid_invite (100 * second)) invites
unfolding text_eq
prune_invites-pending_example = prune_invites-pending calm ann (text "spent") acme refl pruned_ok

abbrev week : InviteRequest
week = record { note = text "for dan"; expires_in_days = 7 }

created_ok : (create_invite calm ann (text "i9") (some week) acme).0.status ≡ 201
unfolding create_invite librelock_server.Handlers.Invite.insert_invite text_eq hash_token
    librelock_server.Crypto.Hex.hex_encode
created_ok = refl

find_valid_invite-create_invite_example :
    find_valid_invite calm (text "i9") (create_invite calm ann (text "i9") (some week) acme).1
    ≡ some (new_invite calm ann (text "i9") week)
find_valid_invite-create_invite_example =
    find_valid_invite-create_invite calm calm ann (text "i9") week acme created_ok refl refl refl
      (omega arith)
