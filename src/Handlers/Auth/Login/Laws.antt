-- ===== src/Handlers/Auth/Login/Laws.antt =====
-- Who can log in, what a refusal says, and that the session which a login opens is accepted.
use librelock_server.Handlers.Searches.{find-some}
use librelock_server.Common.{
  Bool-cases, Option-cases, length, Text, text_eq, text_eq_refl, is_empty, ℕ, ◌+◌, ◌*◌, ◌<◌, ◌≡◌,
  refl, ap, inl, inr, Bool, true, false, Option, none, some, List, [], ◌∷◌, ◌++◌, arith,
}
use librelock_server.Crypto.Token.{hash_token, issue_token}
use librelock_server.Crypto.Hex.{length-hex_encode}
use librelock_server.Crypto.Password.{verify_password}
use librelock_server.Env.{Env, second}
use librelock_server.Http.{fail}
use librelock_server.Models.{User, is_active, Session, Db, create_session}
use librelock_server.Models.First.{Has, HasUniqueKeys, Has_last, Has-append_last}
use librelock_server.Middleware.Auth.{auth, passed}
use librelock_server.Middleware.Auth.Laws.{IsSignedIn, auth_passes}
use librelock_server.Handlers.Helpers.{find}
use librelock_server.Handlers.Auth.Requests.{
  LoginRequest, is_valid_login, SignIn, refuse, normalize_username, create_session_for, new_session,
}
use librelock_server.Handlers.Auth.Login.{is_named, is_match, signed_in, sign_in, login}

-- The account may log in with the credential.
pub record CanLogIn (env : Env) (r : LoginRequest) (db : Db) (u : User) : Type 0 where
  pub account : Has u db.users
  pub named : text_eq u.username (normalize_username r.username) ≡ true
  pub verified : verify_password env.id_key r.auth_credential u.auth_hash ≡ some true
  pub active : is_active u.status ≡ true

is_match-true : (o : Option Bool) → is_match o ≡ true → o ≡ some true
is_match-true (some true) h = refl
is_match-true (some false) h = cc
is_match-true none h = cc

-- The session of a successful login is added to the others, and its token is the cookie's.
abbrev pub Opens : Env → ℕ → User → Db → SignIn → Type 0
Opens env ttl u db out =
    let token = issue_token (env.random 0) in
    (out.cookie ≡ some token)
    × (out.db ≡ record db {
      sessions = db.sessions ++ new_session env (env.uuid 0) (env.clock 0) ttl u token ∷ [];
    })

signed_in-Opens :
    (env : Env) (ttl : ℕ) (u : User) (db : Db)
    → let token = issue_token (env.random 0) in
      let out =
        signed_in 200 u token db
          (create_session_for env (env.fault 1) (env.uuid 0) (env.clock 0) ttl u token db) in
      out.reply.status ≡ 200 → Opens env ttl u db out
unfolding create_session_for create_session
signed_in-Opens env ttl u db ok = (ground arith, ground arith)

sign_in_only :
    (env : Env) (ttl : ℕ) (r : LoginRequest) (db : Db) (o : Option User)
    → ((u : User)
        → o ≡ some u
        → Has u db.users × (is_named (normalize_username r.username) u ≡ true))
    → (sign_in env ttl r.auth_credential db o).reply.status ≡ 200
    → (u : User) × CanLogIn env r db u × Opens env ttl u db (sign_in env ttl r.auth_credential db o)
unfolding sign_in
sign_in_only env ttl r db none found ok = absurd (omega arith)
sign_in_only env ttl r db (some u) found ok =
    let (m, named) = found u refl in
    elim (Bool-cases (is_match (verify_password env.id_key r.auth_credential u.auth_hash))) [
      | inr wrong ↦ absurd (ground arith)
      | inl right ↦ elim (Bool-cases (is_active u.status)) [
        | inr suspended ↦ absurd (ground arith)
        | inl active ↦ (
          u,
          record { account = m; named = named; verified = is_match-true _ right; active = active },
          rw (right, active) (signed_in-Opens env ttl u db (rw (right, active) at ok)),
        )
      ]
    ]

-- A login succeeds only for an account of the name that was given, whose stored hash accepts the
-- credential and that is not suspended; it adds one session, of that account, and the cookie
-- carries its token.
pub login_only :
    (env : Env) (ttl : ℕ) (r : LoginRequest) (db : Db)
    → (login env ttl (some r) db).reply.status ≡ 200
    → (u : User) × CanLogIn env r db u × Opens env ttl u db (login env ttl (some r) db)
unfolding login
login_only env ttl r db ok = elim (Bool-cases (is_valid_login r)) [
  | inr bad ↦ absurd (ground arith)
  | inl good ↦ rw good (
      sign_in_only env ttl r db
        (find (env.fault 0) User.id (is_named (normalize_username r.username)) db.users)
        (λ u e. find-some (env.fault 0) User.id _ db.users u e) (rw good at ok))
]

-- A well-formed login whose credential no account of that name accepts gets one and the same
-- answer, whether or not there is such an account and whether or not it is suspended, and
-- nothing is written.
pub login_no_oracle :
    (env : Env) (ttl : ℕ) (r : LoginRequest) (db : Db)
    → is_valid_login r ≡ true
    → ((u : User)
        → Has u db.users
        → is_named (normalize_username r.username) u ≡ true
        → is_match (verify_password env.id_key r.auth_credential u.auth_hash) ≡ false)
    → login env ttl (some r) db ≡ refuse (fail 401 "Invalid credentials") db
unfolding login sign_in
login_no_oracle env ttl r db good wrong =
    let found = find (env.fault 0) User.id (is_named (normalize_username r.username)) db.users in
    elim (Option-cases found) [
      | inl missing ↦ rw (good, missing) refl
      | inr (u, e) ↦
          let (m, named) = find-some (env.fault 0) User.id _ db.users u e in
          rw (good, e, wrong u m named) refl
    ]

length-issue_token : (bytes : List ℕ) → length (issue_token bytes) ≡ 2 * length bytes
unfolding issue_token
length-issue_token bytes = length-hex_encode bytes

not_empty : (s : Text) → 0 < length s → is_empty s ≡ false
not_empty [] h = absurd (omega arith)
not_empty (c ∷ s) h = refl

-- The cookie that a successful login sets lets an account that may log in through the session
-- check, at any time before the window ends, if the accounts' ids are unique, the token is 32
-- bytes whose hash no session has yet, the digest is the same, and the check's searches do not
-- fail.
pub auth-login :
    (env later : Env) (ttl : ℕ) (r : LoginRequest) (db : Db)
    → (login env ttl (some r) db).reply.status ≡ 200
    → HasUniqueKeys User.id db.users
    → length (env.random 0) ≡ 32
    → ((s : Session)
        → Has s db.sessions
        → text_eq s.token_hash (hash_token env.sha256 (issue_token (env.random 0))) ≡ false)
    → later.sha256 ≡ env.sha256
    → (later.fault 0 ≡ false) × (later.fault 2 ≡ false)
    → later.clock 0 < env.clock 0 + ttl * second
    → (u : User) × (sid : ℕ) × CanLogIn env r db u
      × ((auth later ttl (issue_token (env.random 0)) (login env ttl (some r) db).db).access
          ≡ passed u sid (issue_token (env.random 0)))
auth-login env later ttl r db ok unique len fresh same calm early =
    let token = issue_token (env.random 0) in
    let (u, can, opened) = login_only env ttl r db ok in
    let s = new_session env (env.uuid 0) (env.clock 0) ttl u token in
    let db' = record db { sessions = db.sessions ++ s ∷ [] } in
    let signed_in : IsSignedIn later token db' u s = record {
      session = Has_last s db.sessions;
      hash = rw same (text_eq_refl _);
      unexpired = early;
      account = can.account;
      owner = refl;
      active = can.active;
    } in
    let own : (q : Session)
        → Has q db'.sessions
        → text_eq q.token_hash (hash_token later.sha256 token) ≡ true
        → q.user_id ≡ u.id =
      λ q m h. elim (Has-append_last q s db.sessions m) [
        | inl old ↦ absurd (ground (arith, fresh q old, same))
        | inr e ↦ ap Session.user_id e
      ] in
    let (sid, through) =
      auth_passes later ttl token db' u s calm
        (not_empty token (omega (arith, length-issue_token (env.random 0), len))) unique signed_in
        own in
    (u, sid, can, rw opened.1 through)
