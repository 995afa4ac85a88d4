-- ===== src/Startup/Sweep.antt =====
-- The sweep of the sessions beside the session check.
use librelock_server.Common.{
  leb, Bool-cases, filter, Text, text_eq, is_empty, ℕ, ◌≤◌, ◌≡◌, refl, inl, inr, Bool, true, false,
  not, Option, none, some, List, [], ◌∷◌, arith,
}
use librelock_server.Crypto.Token.{hash_token}
use librelock_server.Env.{Env}
use librelock_server.Middleware.Auth.{auth, find, is_live, with_session}
use librelock_server.Models.{Session, first, Db}
use librelock_server.Startup.Seeds.{purge_expired_sessions}

swept_is_dead :
    (swept now : ℕ) (hash : Text) (s : Session)
    → swept ≤ now
    → leb s.expires_at swept ≡ true
    → is_live now hash s ≡ false
swept_is_dead swept now hash s h gone = elim (Bool-cases (text_eq s.token_hash hash)) [
  | inl same ↦ rw same (ground arith)
  | inr other ↦ rw other refl
]

live_unexpired :
    (swept now : ℕ) (hash : Text) (ss : List Session)
    → swept ≤ now
    → filter (is_live now hash) (filter (λ s. not (leb s.expires_at swept)) ss)
      ≡ filter (is_live now hash) ss
live_unexpired swept now hash [] h = refl
live_unexpired swept now hash (s ∷ ss) h = elim (Bool-cases (leb s.expires_at swept)) [
  | inl gone ↦ rw (gone, swept_is_dead swept now hash s h gone) (live_unexpired swept now hash ss h)
  | inr kept ↦ elim (Bool-cases (is_live now hash s)) [
    | inl live ↦ rw (kept, live, live_unexpired swept now hash ss h) refl
    | inr dead ↦ rw (kept, dead, live_unexpired swept now hash ss h) refl
  ]
]

find_live :
    (fault : Bool) (swept now : ℕ) (hash : Text) (ss : List Session)
    → swept ≤ now
    → find fault Session.id (is_live now hash) (filter (λ s. not (leb s.expires_at swept)) ss)
      ≡ find fault Session.id (is_live now hash) ss
unfolding first
find_live fault swept now hash ss h = rw (live_unexpired swept now hash ss h) refl

same_access :
    (env : Env) (ttl : ℕ) (token : Text) (db db' : Db) (o : Option Session)
    → db'.users ≡ db.users
    → ((with_session env ttl token db' o).access ≡ (with_session env ttl token db o).access)
      × ((with_session env ttl token db' o).expires_header
          ≡ (with_session env ttl token db o).expires_header)
unfolding with_session
same_access env ttl token db db' none e = (refl, refl)
same_access env ttl token db db' (some s) e = (rw e refl, refl)

-- The sweep of expired sessions changes no verdict of the session check: at any time from the
-- sweep's on, the check lets the same tokens through, for the same account and with the same
-- expiry, as without it.
pub auth-purge_expired_sessions :
    (env : Env) (ttl : ℕ) (token : Text) (fault : Bool) (swept : ℕ) (db : Db)
    → swept ≤ env.clock 0
    → let db' = (purge_expired_sessions fault swept db).1 in
      ((auth env ttl token db').access ≡ (auth env ttl token db).access)
      × ((auth env ttl token db').expires_header ≡ (auth env ttl token db).expires_header)
unfolding auth purge_expired_sessions
auth-purge_expired_sessions env ttl token true swept db h = (refl, refl)
auth-purge_expired_sessions env ttl token false swept db h = elim (Bool-cases (is_empty token)) [
  | inl blank ↦ rw blank (refl, refl)
  | inr given ↦
      rw
        (
          given,
          find_live (env.fault 0) swept (env.clock 0) (hash_token env.sha256 token) db.sessions h,
        )
        (same_access env ttl token db _ _ refl)
]
