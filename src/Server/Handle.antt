-- ===== src/Server/Handle.antt =====
-- The handler that each route of main.go has, by the groups that need a session.
use librelock_server.Common.{Text, ℕ}
use librelock_server.Env.{Env}
use librelock_server.Handlers.Audit.{list_audit_events}
use librelock_server.Handlers.Auth.Login.{logout}
use librelock_server.Handlers.Helpers.{public_user}
use librelock_server.Handlers.Invite.{list_invites, create_invite, prune_invites, revoke_invite}
use librelock_server.Handlers.OrgMembership.{
  list_memberships, grant_membership, revoke_membership, my_org_key,
}
use librelock_server.Handlers.OrgUsers.{list_users, manage}
use librelock_server.Handlers.Organization.Requests.{run_branding}
use librelock_server.Handlers.Personal.Requests.{personal}
use librelock_server.Handlers.Settings.Account.{
  update_username, update_theme, update_master_password, upload_keypair, delete_account,
}
use librelock_server.Handlers.Settings.Instance.{switch_mode, show_instance, update_registration}
use librelock_server.Handlers.Shared.Requests.{shared}
use librelock_server.Http.{reply, user}
use librelock_server.Models.{User}
use librelock_server.Server.Requests.{
  Admin, change_branding, Protected, Settings, put_username, put_theme, put_password, manage_user,
  put_keypair, post_invite, delete_own_account, delete_invites, put_mode, delete_invite, get_audit,
  put_sign_up, post_member, get_instance, delete_member, get_users, get_invites, get_members, own,
  settings, shared_vault, administer, log_out, get_me, get_shared_key,
}
use librelock_server.Server.State.{Server, Response, cleared, Config, replied, read_only, answered}

unfoldable pub serve_settings : Config → Env → User → Text → Settings → Server → Response × Server
unfolding cleared
serve_settings c env u token (put_username r) s = replied s (update_username env u r s.db)
serve_settings c env u token (put_theme r) s = replied s (update_theme env u r s.db)
serve_settings c env u token (put_password r) s =
    replied s (update_master_password env u token r s.db)
serve_settings c env u token (put_keypair r) s = replied s (upload_keypair env u r s.db)
serve_settings c env u token (delete_own_account r) s =
    cleared c (replied s (delete_account env s.provider.mode u r s.db))
serve_settings c env u token (put_mode r) s = answered s (switch_mode env u r s.provider s.db)
serve_settings c env u token get_instance s = read_only s (show_instance env u s.provider s.db)
serve_settings c env u token (put_sign_up r) s =
    answered s (update_registration env u r s.provider s.db)

unfoldable pub serve_admin : Env → User → Admin → Server → Response × Server
serve_admin env u (change_branding r) s = replied s (run_branding env u s.provider r s.db)
serve_admin env u get_users s = read_only s (list_users env s.db)
serve_admin env u get_invites s = read_only s (list_invites env s.db)
serve_admin env u get_members s = read_only s (list_memberships env s.db)
serve_admin env u (manage_user id r) s = replied s (manage env u id r s.db)
serve_admin env u (post_invite token r) s = replied s (create_invite env u token r s.db)
serve_admin env u (delete_invites scope) s = replied s (prune_invites env u scope s.db)
serve_admin env u (delete_invite id) s = replied s (revoke_invite env u id s.db)
serve_admin env u (get_audit limit offset) s = read_only s (list_audit_events env limit offset s.db)
serve_admin env u (post_member r) s = replied s (grant_membership env u r s.db)
serve_admin env u (delete_member id) s = replied s (revoke_membership env u id s.db)

-- The handler, after every guard.
unfoldable pub handle : Config → Env → User → ℕ → Text → Protected → Server → Response × Server
unfolding cleared serve_settings serve_admin
handle c env u sid token log_out s = cleared c (replied s (logout env token s.db))
handle c env u sid token get_me s = read_only s (reply 200 (user (public_user u)))
handle c env u sid token get_shared_key s = read_only s (my_org_key env u s.db)
handle c env u sid token (own r) s = replied s (personal env u sid r s.db)
handle c env u sid token (settings r) s = serve_settings c env u token r s
handle c env u sid token (shared_vault r) s = replied s (shared env u r s.db)
handle c env u sid token (administer r) s = serve_admin env u r s
