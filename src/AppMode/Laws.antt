-- ===== src/AppMode/Laws.antt =====
-- The mode that the provider holds, the mode that is stored, and the owner of an organization.
use librelock_server.Common.{
  ◌≡◌, true, false, none, arith, ℕ, List, any, ◌==◌, All, update, ◌∷◌, not, ◌∙◌, ◌&&◌, [], refl,
}
use librelock_server.AppMode.{
  Provider, new_provider, revert_to_personal, crown, enable_organization, finish_enable,
  migrate_org, persist, promote, seed_branding, demote_others, owner,
}
use librelock_server.Env.{Env}
use librelock_server.Models.{personal, organization, Db, User, is_owner, admin}

-- A restart reads back the provider that runs, and writes nothing.
abbrev pub IsStored : Provider → Db → Type 0
IsStored p db = (env : Env) → env.fault 0 ≡ false → new_provider env db ≡ (p, db)

-- No table of organization mode exists.
abbrev pub HasNoOrgTables : Db → Type 0
HasNoOrgTables db =
    (db.organization ≡ none)
    × (db.invites ≡ none)
    × (db.audit_events ≡ none)
    × (db.memberships ≡ none)
    × (db.org_categories ≡ none)
    × (db.org_vaults ≡ none)

-- A revert of an organization that succeeds leaves the provider in personal mode with sign-up
-- closed, no table of the organization, and a stored state from which a restart whose search
-- does not fail makes the same provider and writes nothing.
pub revert_succeeds :
    (env : Env) (p : Provider) (db : Db)
    → p.mode ≡ organization
    → let c = revert_to_personal env p db in
      c.ok ≡ true
      → (c.provider ≡ record { mode = personal; open_reg = false })
        × HasNoOrgTables c.db
        × IsStored c.provider c.db
unfolding revert_to_personal new_provider
revert_succeeds env p db o ok = (
  ground arith,
  (ground arith, ground arith, ground arith, ground arith, ground arith, ground arith),
  λ later f. ground arith,
)

-- A revert of an organization that stops at the closing of sign-up, after the stored mode is
-- written, reports failure and leaves the two modes apart: the provider is as it was, and a
-- restart whose search does not fail makes the instance personal.
pub revert_half_done :
    (env : Env) (p : Provider) (db : Db)
    → p.mode ≡ organization
    → (env.fault 0 ≡ false) × (env.fault 1 ≡ false) × (env.fault 2 ≡ true)
    → let c = revert_to_personal env p db in
      (c.ok ≡ false)
      × (c.provider ≡ p)
      × ((later : Env) → later.fault 0 ≡ false → (new_provider later c.db).0.mode ≡ personal)
unfolding revert_to_personal new_provider
revert_half_done env p db o f = (ground arith, ground arith, λ later g. ground arith)

-- The account is the one owner.
abbrev pub IsSoleOwner : ℕ → List User → Type 0
IsSoleOwner actor us =
    (any (λ u. u.id == actor) us ≡ true) × All (λ u. is_owner u.role ≡ (u.id == actor)) us

crown_users : ℕ → List User → List User
crown_users actor us =
    update (λ u. not (u.id == actor) && is_owner u.role) (λ u. record u { role = admin })
      (update (λ u. u.id == actor) (λ u. record u { role = owner }) us)

any-crown_users :
    (actor : ℕ) (us : List User)
    → any (λ u. u.id == actor) (crown_users actor us) ≡ any (λ u. u.id == actor) us
unfolding crown_users
any-crown_users actor [] = refl
any-crown_users actor (u ∷ us) = ground (arith, any-crown_users actor us)

crown_users-owner :
    (actor : ℕ) (us : List User)
    → All (λ u. is_owner u.role ≡ (u.id == actor)) (crown_users actor us)
unfolding crown_users
crown_users-owner actor [] = tt
crown_users-owner actor (u ∷ us) = (ground arith, crown_users-owner actor us)

finish_enable_lem :
    (env : Env) (p : Provider) (db : Db)
    → let c = finish_enable env p db in
      c.ok ≡ true
      → (c.provider ≡ record p { mode = organization })
        × (c.db.users ≡ db.users)
        × ((later : Env) → later.fault 0 ≡ false → (new_provider later c.db).0.mode ≡ organization)
unfolding finish_enable persist new_provider seed_branding
finish_enable_lem env p db ok = (ground arith, ground arith, λ later f. ground arith)

crown_lem :
    (env : Env) (actor : ℕ) (p : Provider) (db : Db)
    → let c = crown env actor p db in
      c.ok ≡ true
      → (any (λ u. u.id == actor) db.users ≡ true)
        × (c ≡ finish_enable env p (demote_others actor (promote actor db)))
unfolding crown
crown_lem env actor p db ok = (ground arith, ground arith)

-- Enabling organization mode on a personal instance, where it succeeds, makes the caller the
-- only owner, switches the provider, and stores the mode, so that a restart whose search does
-- not fail finds it.
pub enable_succeeds :
    (env : Env) (actor : ℕ) (p : Provider) (db : Db)
    → p.mode ≡ personal
    → let c = enable_organization env actor p db in
      c.ok ≡ true
      → (c.provider ≡ record p { mode = organization })
        × IsSoleOwner actor c.db.users
        × ((later : Env) → later.fault 0 ≡ false → (new_provider later c.db).0.mode ≡ organization)
unfolding enable_organization migrate_org promote demote_others crown_users
enable_succeeds env actor p db m ok =
    let start = migrate_org db in
    let c = enable_organization env actor p db in
    let same : c ≡ crown env actor p start = ground arith in
    let (known, e) = crown_lem env actor p start (rw (← same) ok) in
    let (a, b, d) =
      finish_enable_lem env p (demote_others actor (promote actor start)) (rw (← e, ← same) ok) in
    rw (same, e)
      (a, rw b (any-crown_users actor db.users ∙ known, crown_users-owner actor db.users), d)

-- Enabling organization mode, where it fails, leaves the provider as it was; and if no account
-- has the caller's id, it leaves every row and table as it was.
pub enable_fails :
    (env : Env) (actor : ℕ) (p : Provider) (db : Db)
    → let c = enable_organization env actor p db in
      c.ok ≡ false → (c.provider ≡ p) × (any (λ u. u.id == actor) db.users ≡ false → c.db ≡ db)
unfolding enable_organization crown finish_enable
enable_fails env actor p db bad = (ground arith, λ unknown. ground arith)
