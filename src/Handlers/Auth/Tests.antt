-- ===== src/Handlers/Auth/Tests.antt =====
-- Signing in and signing up on the sample instance.
use librelock_server.Common.{
  ◌==◌, least, Text, text, text_eq, is_space, trim_space, ℕ, zero, suc, ◌*◌, ◌≡◌, refl, sym, ◌∙◌,
  ◌⊎◌, inl, inr, true, false, none, some, List, [], ◌∷◌, arith, ◌++◌,
}
use librelock_server.Crypto.Password.{verify_password}
use librelock_server.Crypto.Token.{hash_token, issue_token}
use librelock_server.Env.{second, Env}
use librelock_server.Handlers.Auth.Login.{login, is_named, is_match}
use librelock_server.Handlers.Auth.Login.Laws.{
  CanLogIn, Opens, login_only, login_no_oracle, auth-login,
}
use librelock_server.Handlers.Auth.Register.{registration_policy, register, sign_up_gate}
use librelock_server.Handlers.Auth.Register.Invites.{HasUniqueHashes, invite_once}
use librelock_server.Handlers.Auth.Register.Laws.{MayRegister, IsWellFormed, register_only}
use librelock_server.Handlers.Auth.Register.Miscount.{register-miscounted}
use librelock_server.Handlers.Auth.Requests.{
  RegisterRequest, LoginRequest, refuse, is_valid_register, normalize_username,
}
use librelock_server.Http.{fail, fail_field}
use librelock_server.Middleware.Auth.{auth, passed}
use librelock_server.Models.{is_owner, is_open, organization, User, Session, Db, rows}
use librelock_server.Models.First.{Has}
use librelock_server.Samples.{invite_of, calm, toy_env, acme, eves, secret, sessions}

-- Tokens of 32 bytes.
abbrev zeros : ℕ → List ℕ
zeros zero = []
zeros (suc n) = 0 ∷ zeros n

abbrev long : Env
long = record calm { random = λ i. zeros 32 }

abbrev eve_login : LoginRequest
eve_login = record { username = text " eve "; auth_credential = secret }

eve_in : (login long 600 (some eve_login) eves).reply.status ≡ 200
unfolding login librelock_server.Models.first least text_eq trim_space is_space verify_password
    librelock_server.Common.split_on librelock_server.Crypto.Password.hash_password
    librelock_server.Crypto.Base64.base64_encode librelock_server.Crypto.Password.verify_parts
    librelock_server.Crypto.Password.scan_params librelock_server.Crypto.Base64.base64_decode
    librelock_server.Handlers.Auth.Requests.create_session_for
    librelock_server.Models.create_session
eve_in = refl

login_only_example :
    (u : User) × CanLogIn long eve_login eves u
    × Opens long 600 u eves (login long 600 (some eve_login) eves)
login_only_example = login_only long 600 eve_login eves eve_in

abbrev stranger : LoginRequest
stranger = record { username = text "zoe"; auth_credential = secret }

nobody :
    (u : User)
    → Has u eves.users
    → is_named (normalize_username stranger.username) u ≡ true
    → is_match (verify_password calm.id_key secret u.auth_hash) ≡ false
unfolding text_eq trim_space is_space
nobody u (inl e) h = ground arith
nobody u (inr (inl e)) h = ground arith
nobody u (inr (inr e)) h = absurd e

login_no_oracle_example :
    login calm 600 (some stranger) eves ≡ refuse (fail 401 "Invalid credentials") eves
login_no_oracle_example = login_no_oracle calm 600 stranger eves refl nobody

fresh :
    (s : Session)
    → Has s sessions
    → text_eq s.token_hash (hash_token calm.sha256 (issue_token (zeros 32))) ≡ false
unfolding hash_token text_eq issue_token librelock_server.Crypto.Hex.hex_encode
fresh s (inl e) = ground arith
fresh s (inr (inl e)) = ground arith
fresh s (inr (inr (inl e))) = ground arith
fresh s (inr (inr (inr (inl e)))) = ground arith
fresh s (inr (inr (inr (inr e)))) = absurd e

auth-login_example :
    (u : User) × (sid : ℕ) × CanLogIn long eve_login eves u
    × ((auth long 600 (issue_token (zeros 32)) (login long 600 (some eve_login) eves).db).access
        ≡ passed u sid (issue_token (zeros 32)))
auth-login_example =
    auth-login long long 600 eve_login eves eve_in (refl, (refl, tt)) refl fresh refl (refl, refl)
      (omega arith)

abbrev newcomer : Text → RegisterRequest
newcomer name = record {
  username = name;
  auth_credential = secret;
  protected_key = text "a protected key of more than thirty-two letters";
  kdf_salt = text "a salt that has sixty-four characters or more of them to be valid";
  kdf_iter = 4;
  kdf_memory = 65536;
  kdf_parallelism = 4;
  categories = text "home" ∷ [];
  invite_token = text "i2";
  theme = [];
  public_key = [];
  encrypted_private_key = [];
}

well : IsWellFormed (newcomer (text "dan"))
unfolding is_valid_register
well = (refl, refl)

register_only_example :
    MayRegister calm organization true (text "i2") acme
    ⊎ (((register calm 600 organization true (some (newcomer (text "dan"))) acme).db ≡ acme)
        × ((register calm 600 organization true (some (newcomer (text "dan"))) acme).cookie ≡ none))
register_only_example = register_only calm 600 organization true (newcomer (text "dan")) acme refl

abbrev miscounting : Env
miscounting = toy_env (λ i. i == 0)

second_owner :
    (register miscounting 600 organization false (some (newcomer (text "dan"))) acme).reply.status
    ≡ 201
unfolding register is_valid_register librelock_server.Handlers.Auth.Register.create_account
    sign_up_gate librelock_server.Handlers.Auth.Register.count_users
    librelock_server.Handlers.Auth.Register.registration_policy
    librelock_server.Handlers.Auth.Register.find_valid_invite librelock_server.Models.first least
    text_eq hash_token librelock_server.Crypto.Hex.hex_encode trim_space is_space
    librelock_server.Models.create_user librelock_server.Handlers.Auth.Register.after_account
    librelock_server.Handlers.Auth.Requests.create_session_for
    librelock_server.Models.create_session librelock_server.Handlers.Auth.Register.add_categories
    librelock_server.Handlers.Auth.Register.add_category
    librelock_server.Handlers.Auth.Register.burn_invite
    librelock_server.Handlers.Auth.Register.is_taken librelock_server.Handlers.Helpers.record_audit
    librelock_server.Models.create_category
second_owner = refl

register-miscounted_example :
    let out = register miscounting 600 organization false (some (newcomer (text "dan"))) acme in
    (u : User) × (out.db.users ≡ acme.users ++ u ∷ [])
    × (u.username ≡ normalize_username (text "dan"))
    × (is_owner u.role ≡ true)
    × (out.db.invites ≡ acme.invites)
register-miscounted_example =
    register-miscounted miscounting 600 false (newcomer (text "dan")) acme well refl second_owner

well_too : IsWellFormed (newcomer (text "dave"))
unfolding is_valid_register
well_too = (refl, refl)

abbrev one_invite : Db
one_invite = record acme { invites = some (invite_of 42 (text "i2") (200 * second) none ∷ []) }

dan_up :
    (register calm 600 organization false (some (newcomer (text "dan"))) one_invite).reply.status
    ≡ 201
unfolding register is_valid_register librelock_server.Handlers.Auth.Register.create_account
    sign_up_gate librelock_server.Handlers.Auth.Register.count_users
    librelock_server.Handlers.Auth.Register.registration_policy
    librelock_server.Handlers.Auth.Register.find_valid_invite librelock_server.Models.first least
    text_eq hash_token librelock_server.Crypto.Hex.hex_encode trim_space is_space
    librelock_server.Models.create_user librelock_server.Handlers.Auth.Register.after_account
    librelock_server.Handlers.Auth.Requests.create_session_for
    librelock_server.Models.create_session librelock_server.Handlers.Auth.Register.add_categories
    librelock_server.Handlers.Auth.Register.add_category
    librelock_server.Handlers.Auth.Register.burn_invite
    librelock_server.Handlers.Auth.Register.is_taken librelock_server.Handlers.Helpers.record_audit
    librelock_server.Models.create_category
dan_up = refl

unique_invites : HasUniqueHashes (rows one_invite.invites)
unique_invites i j (inl a) (inl b) h = a ∙ sym b
unique_invites i j (inr a) mj h = absurd a
unique_invites i j (inl a) (inr b) h = absurd b

closed_after :
    is_open (
      registration_policy false
        (register calm 600 organization false (some (newcomer (text "dan"))) one_invite).db)
    ≡ false
unfolding register is_valid_register librelock_server.Handlers.Auth.Register.create_account
    sign_up_gate librelock_server.Handlers.Auth.Register.count_users
    librelock_server.Handlers.Auth.Register.registration_policy
    librelock_server.Handlers.Auth.Register.find_valid_invite librelock_server.Models.first least
    text_eq hash_token librelock_server.Crypto.Hex.hex_encode trim_space is_space
    librelock_server.Models.create_user librelock_server.Handlers.Auth.Register.after_account
    librelock_server.Handlers.Auth.Requests.create_session_for
    librelock_server.Models.create_session librelock_server.Handlers.Auth.Register.add_categories
    librelock_server.Handlers.Auth.Register.add_category
    librelock_server.Handlers.Auth.Register.burn_invite
    librelock_server.Handlers.Auth.Register.is_taken librelock_server.Handlers.Helpers.record_audit
    librelock_server.Models.create_category
closed_after = refl

closed_before : is_open (registration_policy false one_invite) ≡ false
unfolding registration_policy
closed_before = refl

invite_once_example :
    let db' = (register calm 600 organization false (some (newcomer (text "dan"))) one_invite).db in
    register calm 600 organization false (some (newcomer (text "dave"))) db'
    ≡ refuse (fail_field "invite_token" "This invite is invalid, expired, or already used.") db'
invite_once_example =
    invite_once calm calm 600 false (newcomer (text "dan")) (newcomer (text "dave")) one_invite well
      (refl, refl) (omega arith) closed_before dan_up unique_invites well_too refl refl refl
      closed_after
