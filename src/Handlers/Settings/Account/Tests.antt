-- ===== src/Handlers/Settings/Account/Tests.antt =====
-- The settings of an account on the sample instance.
use librelock_server.Common.{filter, text, text_eq, ◌≡◌, refl, ◌≢◌, ◌⊎◌, inl, some, [], ◌∷◌}
use librelock_server.Crypto.Password.{hash_password, verify_password}
use librelock_server.Models.{organization, User, Db}
use librelock_server.Handlers.Admins.{HasAdmin}
use librelock_server.Handlers.Settings.Account.{
  KeypairRequest, PasswordRequest, update_master_password, delete_account,
}
use librelock_server.Handlers.Settings.Account.Laws.{survives, update_master_password_sessions}
use librelock_server.Handlers.Settings.Account.LastAdmin.{delete_account-HasAdmin}
use librelock_server.Samples.{calm, acme, ann, bob, eve, eves, secret}

abbrev new_password : PasswordRequest
new_password = record {
  current_auth_credential = secret;
  new_auth_credential = text "another credential of some forty letters";
  new_protected_key = text "a protected key of more than thirty-two letters";
  new_kdf_salt = text "a salt that has sixty-four characters or more of them to be valid";
  new_kdf_iter = 4;
  new_kdf_memory = 65536;
  new_kdf_parallelism = 4;
  new_encrypted_private_key = [];
}

update_master_password_sessions_example :
    let out = update_master_password calm eve (text "t4") (some new_password) eves in
    ((out.0.status ≡ 200) × (out.1.sessions ≡ filter (survives calm eve (text "t4")) eves.sessions))
    ⊎ ((out.0.status ≢ 200) × (out.1 ≡ eves))
update_master_password_sessions_example =
    update_master_password_sessions calm eve (text "t4") (some new_password) eves

abbrev newcomer : User
newcomer = record bob { public_key = [] }

abbrev keypair : KeypairRequest
keypair = record { public_key = text "pub"; encrypted_private_key = text "priv" }

abbrev unset : Db
unset = record acme { users = ann ∷ newcomer ∷ [] }

-- The only administrator is refused.
last_admin_test : (delete_account calm organization eve (some secret) eves).0.status ≡ 422
unfolding delete_account verify_password hash_password librelock_server.Common.split_on
    librelock_server.Crypto.Base64.base64_encode text_eq
    librelock_server.Crypto.Password.verify_parts librelock_server.Crypto.Password.scan_params
    librelock_server.Crypto.Base64.base64_decode
    librelock_server.Handlers.Helpers.count_active_admins
last_admin_test = refl

delete_account-HasAdmin_example :
    HasAdmin (delete_account calm organization eve (some secret) eves).1.users
delete_account-HasAdmin_example =
    delete_account-HasAdmin calm eve (some secret) eves (refl, (refl, tt)) (inl refl) refl
