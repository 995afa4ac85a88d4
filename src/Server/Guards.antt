-- ===== src/Server/Guards.antt =====
-- Whose requests reach the handlers behind the session check.
use librelock_server.Common.{
  ◌==◌, Bool-cases, any, Text, ℕ, ◌≡◌, refl, ◌⊎◌, inl, inr, Bool, true, Option, none, some, arith,
}
use librelock_server.Env.{Env}
use librelock_server.Http.{Reply}
use librelock_server.Middleware.Auth.{
  require_admin, require_membership, Access, extract_token, passed, auth, denied,
}
use librelock_server.Middleware.Auth.Laws.{IsSignedIn, auth_passes_only}
use librelock_server.Middleware.RateLimit.{allowed, refused, Limiter, Verdict}
use librelock_server.Models.{personal, organization, Mode, User, Db, is_admin_role, rows, Session}
use librelock_server.Server.Requests.{
  protected, Protected, administer, shared_vault, own, settings, log_out, get_me, get_shared_key,
}
use librelock_server.Server.Serve.{
  after_auth, after_group, after_limit, guard_group, serve_api, serve_protected,
}
use librelock_server.Server.State.{Server, Config, Caller, with_db}

-- What the group of a route asks of the caller.
abbrev pub MayCall : Protected → User → Server → Type 0
MayCall (administer _) u s = (is_admin_role u.role ≡ true) × (s.provider.mode ≡ organization)
MayCall (shared_vault _) u s =
    (s.provider.mode ≡ organization) × (any (λ m. m.user_id == u.id) (rows s.db.memberships) ≡ true)
MayCall _ u s = Unit

-- The database and the mode are as they were.
abbrev pub Kept : Server → Server → Type 0
Kept s s' = (s'.db ≡ s.db) × (s'.provider ≡ s.provider)

admin_passes :
    (m : Mode) (u : User)
    → require_admin m u ≡ none
    → (is_admin_role u.role ≡ true) × (m ≡ organization)
unfolding require_admin
admin_passes personal u e = cc
admin_passes organization u e = elim (Bool-cases (is_admin_role u.role)) [
  | inl may ↦ (may, refl)
  | inr may_not ↦ absurd (ground arith)
]

member_passes :
    (fault : Bool) (m : Mode) (u : User) (db : Db)
    → require_membership fault m u db ≡ none
    → (m ≡ organization) × (any (λ r. r.user_id == u.id) (rows db.memberships) ≡ true)
unfolding require_membership
member_passes fault personal u db e = cc
member_passes fault organization u db e =
    elim (Bool-cases (any (λ r. r.user_id == u.id) (rows db.memberships))) [
      | inl is_in ↦ (refl, is_in)
      | inr is_out ↦ absurd (ground arith)
    ]

guard_group-MayCall :
    (check : Env) (u : User) (q : Protected) (s : Server)
    → guard_group check u q s ≡ none
    → MayCall q u s
unfolding guard_group
guard_group-MayCall check u (administer r) s e = admin_passes s.provider.mode u e
guard_group-MayCall check u (shared_vault r) s e =
    member_passes (check.fault 3) s.provider.mode u s.db e
guard_group-MayCall check u log_out s e = tt
guard_group-MayCall check u get_me s e = tt
guard_group-MayCall check u get_shared_key s e = tt
guard_group-MayCall check u (own r) s e = tt
guard_group-MayCall check u (settings r) s e = tt

after_group-MayCall :
    (c : Config) (check env : Env) (u : User) (sid : ℕ) (token : Text) (q : Protected) (s : Server)
    (o : Option Reply)
    → guard_group check u q s ≡ o
    → Kept s (after_group c env u sid token q s o).1 ⊎ MayCall q u s
unfolding after_group
after_group-MayCall c check env u sid token q s (some why) e = inl (refl, refl)
after_group-MayCall c check env u sid token q s none e = inr (guard_group-MayCall check u q s e)

-- The limiter is nothing that a group looks at.
MayCall-limiter :
    (q : Protected) (u : User) (s : Server) (l : Limiter)
    → MayCall q u (record s { reauth_limiter = l })
    → MayCall q u s
MayCall-limiter (administer r) u s l h = h
MayCall-limiter (shared_vault r) u s l h = h
MayCall-limiter log_out u s l h = tt
MayCall-limiter get_me u s l h = tt
MayCall-limiter get_shared_key u s l h = tt
MayCall-limiter (own r) u s l h = tt
MayCall-limiter (settings r) u s l h = tt

after_limit-MayCall :
    (c : Config) (check env : Env) (u : User) (sid : ℕ) (token : Text) (q : Protected) (s : Server)
    (v : Verdict × Limiter)
    → Kept s (after_limit c check env u sid token q s v).1 ⊎ MayCall q u s
unfolding after_limit
after_limit-MayCall c check env u sid token q s (refused wait, l) = inl (refl, refl)
after_limit-MayCall c check env u sid token q s (allowed, l) =
    let s' = record s { reauth_limiter = l } in
    elim (after_group-MayCall c check env u sid token q s' (guard_group check u q s') refl) [
      | inl kept ↦ inl kept
      | inr may ↦ inr (MayCall-limiter q u s l may)
    ]

after_auth-MayCall :
    (c : Config) (check env : Env) (caller : Caller) (q : Protected) (s : Server) (a : Access)
    → Kept s (after_auth c check env caller q s a).1
      ⊎ ((u : User) × (sid : ℕ) × (token : Text) × (a ≡ passed u sid token) × MayCall q u s)
unfolding after_auth
after_auth-MayCall c check env caller q s (denied why) = inl (refl, refl)
after_auth-MayCall c check env caller q s (passed u sid token) =
    elim (after_limit-MayCall c check env u sid token q s _) [
      | inl kept ↦ inl kept
      | inr may ↦ inr (u, sid, token, refl, may)
    ]

-- A request on a route that needs a session leaves the database as the session check leaves it,
-- and the mode as it was, unless the token that it brings is that of an unexpired session of an
-- active account, and that account is an administrator of an organization where the route is one
-- of the administrators', or holds the shared key in an organization where the route is one of
-- the shared vault's.
pub protected-MayCall :
    (c : Config) (check env : Env) (caller : Caller) (q : Protected) (s : Server)
    → let given = extract_token caller.cookie caller.authorization in
      let checked = with_db (auth check c.ttl given s.db).db s in
      Kept checked (serve_api c check env caller (protected q) s).1
      ⊎ ((u : User) × (r : Session) × IsSignedIn check given s.db u r × MayCall q u checked)
unfolding serve_api serve_protected
protected-MayCall c check env caller q s =
    let given = extract_token caller.cookie caller.authorization in
    let out = auth check c.ttl given s.db in
    elim (after_auth-MayCall c check env caller q (with_db out.db s) out.access) [
      | inl kept ↦ inl kept
      | inr (u, sid, token, e, may) ↦
          let (r, is_in, same, tokens) = auth_passes_only check c.ttl given s.db u sid token e in
          inr (u, r, is_in, may)
    ]
