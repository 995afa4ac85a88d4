-- ===== src/Middleware/Auth/Laws.antt =====
-- Who passes the session check, and what it does to the sessions.
use librelock_server.Common.{
  ◌==◌, Bool-cases, any, Text, text_eq, is_empty, ℕ, ◌<◌, ◌≡◌, refl, sym, inl, inr, Bool, true,
  false, Option, none, some, List, arith,
}
use librelock_server.Crypto.Token.{hash_token}
use librelock_server.Env.{Env}
use librelock_server.Models.{is_active, User, Session, Db, first}
use librelock_server.Models.First.{
  Has, first-Has, first_exists, first_by_key, any-Has, HasUniqueKeys,
}
use librelock_server.Middleware.Auth.{passed, is_live, admit, find, with_session, auth}

-- A live session of the token, and the active account that it belongs to.
pub record IsSignedIn (env : Env) (token : Text) (db : Db) (u : User) (s : Session) : Type 0 where
  pub session : Has s db.sessions
  pub hash : text_eq s.token_hash (hash_token env.sha256 token) ≡ true
  pub unexpired : env.clock 0 < s.expires_at
  pub account : Has u db.users
  pub owner : u.id ≡ s.user_id
  pub active : is_active u.status ≡ true

admit_sound :
    (o : Option User) (id sid : ℕ) (token tok : Text) (u : User)
    → admit o id token ≡ passed u sid tok
    → (o ≡ some u) × (id ≡ sid) × (token ≡ tok) × (is_active u.status ≡ true)
unfolding admit
admit_sound none id sid token tok u e = cc
admit_sound (some v) id sid token tok u e = ground arith

find-some :
    {A : Type 0} (fault : Bool) (key : A → ℕ) (p : A → Bool) (xs : List A) (x : A)
    → find fault key p xs ≡ some x
    → Has x xs × (p x ≡ true)
find-some true key p xs x e = cc
find-some false key p xs x e = first-Has key p x xs e

with_session_sound :
    (env : Env) (ttl : ℕ) (token : Text) (db : Db) (u : User) (sid : ℕ) (tok : Text)
    (o : Option Session)
    → ((s : Session)
        → o ≡ some s
        → Has s db.sessions × (is_live (env.clock 0) (hash_token env.sha256 token) s ≡ true))
    → (with_session env ttl token db o).access ≡ passed u sid tok
    → (s : Session) × IsSignedIn env token db u s × (sid ≡ s.id) × (tok ≡ token)
unfolding with_session
with_session_sound env ttl token db u sid tok none live e = cc
with_session_sound env ttl token db u sid tok (some s) live e =
    let (h, l) = live s refl in
    let (found, same, t, a) = admit_sound _ s.id sid token tok u e in
    let (m, i) = find-some (env.fault 2) User.id (λ v. v.id == s.user_id) db.users u found in
    (
      s,
      record {
        session = h;
        hash = ground arith;
        unexpired = ground arith;
        account = m;
        owner = ground arith;
        active = a;
      },
      sym same,
      sym t,
    )

-- A request passes the session check only with a token whose stored hash belongs to a session
-- that has not expired, of an account that exists and is not suspended; the context gets that
-- account, that session's id and that token.
pub auth_passes_only :
    (env : Env) (ttl : ℕ) (token : Text) (db : Db) (u : User) (sid : ℕ) (tok : Text)
    → (auth env ttl token db).access ≡ passed u sid tok
    → (s : Session) × IsSignedIn env token db u s × (sid ≡ s.id) × (tok ≡ token)
unfolding auth
auth_passes_only env ttl token db u sid tok e = elim (Bool-cases (is_empty token)) [
  | inl none_given ↦ absurd (ground arith)
  | inr given ↦
      with_session_sound env ttl token db u sid tok
        (find (env.fault 0) Session.id (is_live (env.clock 0) (hash_token env.sha256 token))
          db.sessions)
        (λ s found. find-some (env.fault 0) Session.id _ db.sessions s found) (ground arith)
]

find_exists :
    {A : Type 0} (key : A → ℕ) (p : A → Bool) (xs : List A)
    → any p xs ≡ true
    → (x : A) × (find false key p xs ≡ some x)
find_exists key p xs h = first_exists key p xs h

-- If the searches do not fail, the token is not empty, the accounts' ids are unique and every
-- session of the token's hash is of one account that is not suspended, one of those sessions
-- being unexpired, then that account passes the session check.
pub auth_passes :
    (env : Env) (ttl : ℕ) (token : Text) (db : Db) (u : User) (s : Session)
    → (env.fault 0 ≡ false) × (env.fault 2 ≡ false)
    → is_empty token ≡ false
    → HasUniqueKeys User.id db.users
    → IsSignedIn env token db u s
    → ((r : Session)
        → Has r db.sessions
        → text_eq r.token_hash (hash_token env.sha256 token) ≡ true
        → r.user_id ≡ u.id)
    → (sid : ℕ) × ((auth env ttl token db).access ≡ passed u sid token)
unfolding auth with_session admit
auth_passes env ttl token db u s (f0, f2) given unique i own =
    let live = is_live (env.clock 0) (hash_token env.sha256 token) in
    let (r, found) =
      find_exists Session.id live db.sessions
        (any-Has Session.id live s db.sessions i.session (ground (arith, i.hash, i.unexpired))) in
    let (h, l) = first-Has Session.id live r db.sessions found in
    let same : r.user_id ≡ u.id = own r h (ground arith) in
    let account : first User.id (λ v. v.id == r.user_id) db.users ≡ some u =
      rw same (first_by_key User.id u db.users unique i.account) in
    (r.id, ground (arith, i.active))
