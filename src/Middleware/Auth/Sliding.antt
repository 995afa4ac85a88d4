-- ===== src/Middleware/Auth/Sliding.antt =====
-- The sliding expiry, and what the session check leaves as it was.
use librelock_server.Common.{
  ltb, ◌==◌, Bool-cases, update, Text, is_empty, ℕ, ◌+◌, ◌*◌, ◌≤◌, ◌<◌, ◌≡◌, refl, sym, subst, ◌⊎◌,
  inl, inr, Bool, true, false, Option, none, some, List, [], ◌∷◌, arith,
}
use librelock_server.Crypto.Token.{hash_token}
use librelock_server.Env.{Env, second}
use librelock_server.Models.{Session, Db}
use librelock_server.Models.First.{Has, first-Has, same_of_key, HasUniqueKeys}
use librelock_server.Middleware.Auth.{
  half_window, is_live, slide, touch, touch_session, find, with_session, auth,
}

-- The clock moves on, by no more than half the window between two readings.
abbrev pub IsSteady : ℕ → (ℕ → ℕ) → Type 0
IsSteady ttl clock = (clock 1 ≤ clock 2) × (clock 2 ≤ clock 1 + half_window ttl)

-- If the TTL is positive and the clock moves on by at most half the window between its two
-- readings, the expiry after a check is no earlier than before, is the old one or a whole
-- window from now, and is at least half a window from now.
pub slide_bounds :
    (ttl expires : ℕ) (clock : ℕ → ℕ)
    → 0 < ttl
    → IsSteady ttl clock
    → (expires ≤ slide ttl clock expires)
      × ((slide ttl clock expires ≡ expires) ⊎ (slide ttl clock expires ≡ clock 1 + ttl * second))
      × (clock 1 + half_window ttl ≤ slide ttl clock expires)
unfolding slide
slide_bounds ttl expires clock pos steady =
    elim (Bool-cases (ltb expires (clock 2 + half_window ttl))) [
      | inl late ↦ (ground arith, inr (ground arith), ground arith)
      | inr early ↦ (ground arith, inl (ground arith), ground arith)
    ]

-- The same session, with an expiry that is no earlier.
abbrev pub Extends : Session → Session → Type 0
Extends s s' =
    (s'.id ≡ s.id)
    × (s'.user_id ≡ s.user_id)
    × (s'.token_hash ≡ s.token_hash)
    × (s.expires_at ≤ s'.expires_at)

abbrev pub ExtendsAll : List Session → List Session → Type 0
ExtendsAll [] [] = Unit
ExtendsAll (s ∷ ss) (s' ∷ ss') = Extends s s' × ExtendsAll ss ss'
ExtendsAll _ _ = ⊥

ExtendsAll-refl : (ss : List Session) → ExtendsAll ss ss
ExtendsAll-refl [] = tt
ExtendsAll-refl (s ∷ ss) = ((refl, refl, refl, omega arith), ExtendsAll-refl ss)

ExtendsAll-update :
    (id now expires : ℕ) (ss : List Session)
    → ((s : Session) → Has s ss → s.id ≡ id → s.expires_at ≤ expires)
    → ExtendsAll ss (update (λ s. s.id == id) (touch now expires) ss)
ExtendsAll-update id now expires [] h = tt
ExtendsAll-update id now expires (s ∷ ss) h =
    (ground (arith, h s (inl refl)), ExtendsAll-update id now expires ss (λ r m e. h r (inr m) e))

with_session_extends :
    (env : Env) (ttl : ℕ) (token : Text) (db : Db) (o : Option Session)
    → 0 < ttl
    → IsSteady ttl env.clock
    → HasUniqueKeys Session.id db.sessions
    → ((s : Session) → o ≡ some s → Has s db.sessions)
    → let db' = (with_session env ttl token db o).db in
      (db' ≡ record db { sessions = db'.sessions }) × ExtendsAll db.sessions db'.sessions
unfolding with_session touch_session
with_session_extends env ttl token db none pos steady u h = (refl, ExtendsAll-refl db.sessions)
with_session_extends env ttl token db (some s) pos steady u h = elim (Bool-cases (env.fault 1)) [
  | inl failed ↦ rw failed (refl, ExtendsAll-refl db.sessions)
  | inr ran ↦
      let later = slide ttl env.clock s.expires_at in
      rw ran (
        refl,
        ExtendsAll-update s.id (env.clock 1) later db.sessions (λ r m e.
            subst (λ q. q.expires_at ≤ later)
              (same_of_key Session.id s r db.sessions u (h s refl) m (sym e))
              (slide_bounds ttl s.expires_at env.clock pos steady).0),
      )
]

-- The session check, whether it lets a request through or not, changes no table but the
-- sessions, drops no session and adds none, and brings no session's expiry forward, if the TTL
-- is positive, the sessions' ids are unique, and the clock moves on by at most half the window
-- between its two readings.
pub auth_extends :
    (env : Env) (ttl : ℕ) (token : Text) (db : Db)
    → 0 < ttl
    → IsSteady ttl env.clock
    → HasUniqueKeys Session.id db.sessions
    → let db' = (auth env ttl token db).db in
      (db' ≡ record db { sessions = db'.sessions }) × ExtendsAll db.sessions db'.sessions
unfolding auth
auth_extends env ttl token db pos steady u = elim (Bool-cases (is_empty token)) [
  | inl none_given ↦ rw none_given (refl, ExtendsAll-refl db.sessions)
  | inr given ↦
      rw given
        (with_session_extends env ttl token db _ pos steady u (λ s e. found (env.fault 0) s e))
]
  where
    found :
        (fault : Bool) (s : Session)
        → find fault Session.id (is_live (env.clock 0) (hash_token env.sha256 token)) db.sessions
          ≡ some s
        → Has s db.sessions
    found true s e = cc
    found false s e = (first-Has Session.id _ s db.sessions e).0
