-- ===== src/Startup/Seeded.antt =====
-- What a boot makes sure of: a secret that later boots find again, and an owner.
use librelock_server.Common.{
  ltb, ◌==◌, Bool-cases, any, count, update, Text, is_empty, ℕ, ◌≡◌, refl, sym, ap, subst, inl, inr,
  Bool, true, false, Option, none, some, List, [], ◌∷◌, arith, some_injective,
}
use librelock_server.AppMode.{promote, set_role}
use librelock_server.Crypto.Hex.{hex_encode}
use librelock_server.Crypto.Token.{issue_token}
use librelock_server.Handlers.Helpers.{first_account, is_older}
use librelock_server.Models.{AppState, Db, Mode, User, is_owner, owner}
use librelock_server.Models.First.{Has, least_exists, least-Has}
use librelock_server.Startup.Seeds.{ensure_org_owner, ensure_server_secret, secret_of, with_states}

issue_token_nonempty : (b : ℕ) (bytes : List ℕ) → is_empty (issue_token (b ∷ bytes)) ≡ false
unfolding issue_token hex_encode
issue_token_nonempty b bytes = refl

-- The secret that a boot returns is stored, and there is one.
unfoldable pub IsStoredSecret : Text → List AppState → Type 0
IsStoredSecret secret [] = ⊥
IsStoredSecret secret (st ∷ _) = (st.server_secret ≡ secret) × (is_empty secret ≡ false)

secret_of-stored :
    (fault : Bool) (m : Mode) (fresh secret : Text) (sts sts' : List AppState)
    → is_empty fresh ≡ false
    → secret_of fault m fresh sts ≡ some (secret, sts')
    → IsStoredSecret secret sts'
unfolding secret_of IsStoredSecret
secret_of-stored true m fresh secret [] sts' n e = cc
secret_of-stored false m fresh secret [] sts' n e =
    subst (λ x. IsStoredSecret x.0 x.1) (some_injective e) (refl, n)
secret_of-stored fault m fresh secret (st ∷ sts) sts' n e =
    elim (Bool-cases (is_empty st.server_secret)) [
      | inr there ↦
          subst (λ x. IsStoredSecret x.0 x.1) (some_injective (rw there at e)) (refl, there)
      | inl blank ↦ elim (Bool-cases fault) [
        | inl failed ↦ absurd (ground arith)
        | inr fine ↦
            subst (λ x. IsStoredSecret x.0 x.1) (some_injective (rw (blank, fine) at e)) (refl, n)
      ]
    ]

pub secret_of-again :
    (fault : Bool) (m : Mode) (fresh secret : Text) (sts : List AppState)
    → IsStoredSecret secret sts
    → secret_of fault m fresh sts ≡ some (secret, sts)
unfolding secret_of IsStoredSecret
secret_of-again fault m fresh secret [] h = absurd h
secret_of-again fault m fresh secret (st ∷ sts) (same, n) = rw (same, n) refl

stored-with_states :
    (db : Db) (o : Option (Text × List AppState)) (secret : Text) (db' : Db)
    → with_states db o ≡ some (secret, db')
    → o ≡ some (secret, db'.app_state)
stored-with_states db none secret db' e = cc
stored-with_states db (some (found, sts)) secret db' e =
    ap (λ x. some (x.0, x.1.app_state)) (some_injective e)

-- A secret that is got is stored.
pub ensure_server_secret-stored :
    (fault : ℕ → Bool) (bytes : List ℕ) (m : Mode) (db db' : Db) (secret : Text)
    → is_empty (issue_token bytes) ≡ false
    → ensure_server_secret fault bytes m db ≡ some (secret, db')
    → IsStoredSecret secret db'.app_state
unfolding ensure_server_secret
ensure_server_secret-stored fault bytes m db db' secret n e = elim (Bool-cases (fault 0)) [
  | inl failed ↦ absurd (ground arith)
  | inr ran ↦ secret_of-stored (fault 1) m (issue_token bytes) secret db.app_state db'.app_state n (
      stored-with_states db (secret_of (fault 1) m (issue_token bytes) db.app_state) secret db'
        (rw ran at e))
]

-- A secret that was got once is got again, if the search does not fail, in any mode and with
-- nothing more written.
pub ensure_server_secret_stable :
    (fault later : ℕ → Bool) (b : ℕ) (bytes more : List ℕ) (m m' : Mode) (db db' : Db)
    (secret : Text)
    → ensure_server_secret fault (b ∷ bytes) m db ≡ some (secret, db')
    → later 0 ≡ false
    → ensure_server_secret later more m' db' ≡ some (secret, db')
unfolding ensure_server_secret
ensure_server_secret_stable fault later b bytes more m m' db db' secret e l =
    let kept =
      ensure_server_secret-stored fault (b ∷ bytes) m db db' secret (issue_token_nonempty b bytes)
        e in
    rw (l, secret_of-again (later 1) m' (issue_token more) secret db'.app_state kept) refl

any-of_count : (p : User → Bool) (us : List User) → ltb 0 (count p us) ≡ true → any p us ≡ true
any-of_count p [] h = ground arith
any-of_count p (u ∷ us) h = elim (Bool-cases (p u)) [
  | inl it ↦ rw it refl
  | inr other ↦ rw other (any-of_count p us (rw other at h))
]

promoted :
    (u : User) (us : List User)
    → Has u us
    → any (λ v. is_owner v.role) (update (λ v. v.id == u.id) (set_role owner) us) ≡ true
promoted u [] h = absurd h
promoted u (v ∷ vs) h = elim (Bool-cases (v.id == u.id)) [
  | inl it ↦ rw it refl
  | inr other ↦ elim h [
    | inl same ↦ absurd (ground arith)
    | inr later ↦ ground (arith, promoted u vs later)
  ]
]

-- The account that came first becomes the owner where there is none.
pub ensure_org_owner-HasOwner :
    (fault : ℕ → Bool) (u : User) (us : List User) (db : Db)
    → ((i : ℕ) → fault i ≡ false)
    → db.users ≡ u ∷ us
    → any (λ v. is_owner v.role) (ensure_org_owner fault db).users ≡ true
unfolding ensure_org_owner first_account promote
ensure_org_owner-HasOwner fault u us db calm e =
    elim (Bool-cases (ltb 0 (count (λ v. is_owner v.role) db.users))) [
      | inl some_owner ↦
          rw (calm 0, some_owner) (any-of_count (λ v. is_owner v.role) db.users some_owner)
      | inr nobody_owns ↦
          let (x, found) = least_exists is_older u us in
          let there = least-Has is_older x (u ∷ us) found in
          rw (calm 0, nobody_owns, calm 1, e, found, calm 2)
            (promoted x db.users (subst (Has x) (sym e) there))
    ]
