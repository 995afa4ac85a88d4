-- ===== src/Handlers/Settings/Instance/Laws.antt =====
-- Who may switch the mode or open sign-up, and what a switch to personal mode leaves.
use librelock_server.Common.{
  ◌==◌, if◌then◌else◌, ==_iff, Bool-cases, Option-cases, All, filter, update, Text, ℕ, ◌≡◌, refl,
  ◌≢◌, ◌⊎◌, inl, inr, Bool, true, false, not, Option, none, some, List, [], ◌∷◌, arith,
}
use librelock_server.Env.{Env}
use librelock_server.Http.{Reply}
use librelock_server.Models.{User, Mode, personal, organization, is_owner, Db, member, delete_users}
use librelock_server.AppMode.{
  Provider, is_organization, revert_to_personal, set_registration_open, persist, finish_revert,
  drop_tables,
}
use librelock_server.AppMode.Laws.{HasNoOrgTables, IsStored, revert_succeeds}
use librelock_server.Handlers.Helpers.{is_first_account}
use librelock_server.Handlers.Settings.Account.{set_user}
use librelock_server.Handlers.Settings.Instance.{
  SwitchRequest, confirm_password, switch_to_organization, revert, switch_mode, update_registration,
  shifted,
}

-- The caller may switch the mode as the request asks, with the password confirmed.
abbrev pub MaySwitch : Env → User → SwitchRequest → Provider → Db → Type 0
MaySwitch env u r p db =
    (confirm_password env u r.auth_credential ≡ none)
    × (is_organization r.mode ≡ not (is_organization p.mode))
    × ((if is_organization r.mode then is_first_account (env.fault 0) db u.id else is_owner u.role)
        ≡ true)

switch_to_organization_only :
    (env : Env) (u : User) (credential : Text) (p : Provider) (db : Db)
    → ((confirm_password env u credential ≡ none)
        × (is_organization p.mode ≡ false)
        × (is_first_account (env.fault 0) db u.id ≡ true))
      ⊎ (((switch_to_organization env u credential p db).provider ≡ p)
          × ((switch_to_organization env u credential p db).db ≡ db))
unfolding switch_to_organization
switch_to_organization_only env u credential p db =
    elim (Option-cases (confirm_password env u credential)) [
      | inl confirmed ↦ elim (Bool-cases (is_organization p.mode)) [
        | inl already ↦ inr (ground arith, ground arith)
        | inr plain ↦ elim (Bool-cases (is_first_account (env.fault 0) db u.id)) [
          | inl first ↦ inl (confirmed, plain, first)
          | inr other ↦ inr (ground arith, ground arith)
        ]
      ]
      | inr (why, refused) ↦ inr (ground arith, ground arith)
    ]

revert_only :
    (env : Env) (u : User) (credential : Text) (p : Provider) (db : Db)
    → ((confirm_password env u credential ≡ none)
        × (is_organization p.mode ≡ true)
        × (is_owner u.role ≡ true))
      ⊎ (((revert env u credential p db).provider ≡ p) × ((revert env u credential p db).db ≡ db))
unfolding revert
revert_only env u credential p db = elim (Option-cases (confirm_password env u credential)) [
  | inl confirmed ↦ elim (Bool-cases (is_organization p.mode)) [
    | inr plain ↦ inr (ground arith, ground arith)
    | inl org ↦ elim (Bool-cases (is_owner u.role)) [
      | inl first ↦ inl (confirmed, org, first)
      | inr other ↦ inr (ground arith, ground arith)
    ]
  ]
  | inr (why, refused) ↦ inr (ground arith, ground arith)
]

-- A request to switch the mode changes the provider or the database only where it asks for the
-- other mode, with the caller's password, from the first account of a personal instance or from
-- an owner of an organization.
pub switch_mode_only :
    (env : Env) (u : User) (r : SwitchRequest) (p : Provider) (db : Db)
    → MaySwitch env u r p db
      ⊎ (((switch_mode env u (some r) p db).provider ≡ p)
          × ((switch_mode env u (some r) p db).db ≡ db))
unfolding switch_mode
switch_mode_only env u r p db = elim (Bool-cases (is_organization r.mode)) [
  | inl up ↦ elim (switch_to_organization_only env u r.auth_credential p db) [
    | inl (a, b, c) ↦ inl (a, ground arith, ground arith)
    | inr (a, b) ↦ inr (ground arith, ground arith)
  ]
  | inr down ↦ elim (revert_only env u r.auth_credential p db) [
    | inl (a, b, c) ↦ inl (a, ground arith, ground arith)
    | inr (a, b) ↦ inr (ground arith, ground arith)
  ]
]

-- The settings open or close sign-up on a personal instance only, and for its first account
-- only; any other request leaves the provider and the database as they were.
pub update_registration_only :
    (env : Env) (u : User) (request : Option Bool) (p : Provider) (db : Db)
    → let out = update_registration env u request p db in
      ((p.mode ≡ personal) × (is_first_account (env.fault 0) db u.id ≡ true))
      ⊎ ((out.provider ≡ p) × (out.db ≡ db))
unfolding update_registration
update_registration_only env u request p db = elim (mode-cases p.mode) [
  | inr org ↦ inr (ground arith, ground arith)
  | inl plain ↦ elim (Bool-cases (is_first_account (env.fault 0) db u.id)) [
    | inl first ↦ inl (plain, first)
    | inr other ↦ inr (ground arith, ground arith)
  ]
]
  where
    mode-cases : (m : Mode) → (m ≡ personal) ⊎ (m ≡ organization)
    mode-cases personal = inl refl
    mode-cases organization = inr refl

alone_left :
    (id : ℕ) (us : List User) → All (λ v. v.id ≡ id) (filter (λ v. not (not (v.id == id))) us)
alone_left id [] = tt
alone_left id (v ∷ us) = elim (Bool-cases (v.id == id)) [
  | inl same ↦ rw same ((==_iff v.id id).0 same, alone_left id us)
  | inr other ↦ rw other (alone_left id us)
]

alone_kept :
    (id : ℕ) (f : User → User) (us : List User)
    → ((v : User) → (f v).id ≡ v.id)
    → All (λ v. v.id ≡ id) us
    → All (λ v. v.id ≡ id) (update (λ v. v.id == id) f us)
alone_kept id f [] keeps a = tt
alone_kept id f (v ∷ us) keeps (e, es) = (ground (arith, keeps v), alone_kept id f us keeps es)

revert_users :
    (env : Env) (p : Provider) (db : Db) → (revert_to_personal env p db).db.users ≡ db.users
unfolding revert_to_personal persist set_registration_open finish_revert drop_tables
revert_users env p db = ground arith

-- The database in which the handler calls the revert: the caller alone.
alone_db : Env → User → Db → Db
alone_db env u db =
    let alone = delete_users (λ v. not (v.id == u.id)) db in
    if env.fault 1 then alone else set_user u.id (λ v. record v { role = member }) alone

alone_db_users : (env : Env) (u : User) (db : Db) → All (λ v. v.id ≡ u.id) (alone_db env u db).users
unfolding alone_db delete_users
alone_db_users env u db = elim (Bool-cases (env.fault 1)) [
  | inl broken ↦ rw broken (alone_left u.id db.users)
  | inr ran ↦
      rw ran
        (alone_kept u.id (λ v. record v { role = member }) _ (λ v. refl) (alone_left u.id db.users))
]

confirm_refused :
    (env : Env) (u : User) (credential : Text) (why : Reply)
    → confirm_password env u credential ≡ some why
    → why.status ≢ 200
unfolding confirm_password
confirm_refused env u credential why e ok = ground arith

revert_done :
    (env : Env) (u : User) (credential : Text) (p : Provider) (db : Db)
    → is_organization p.mode ≡ true
    → let out = revert env u credential p db in
      let c = revert_to_personal (shifted 2 env) p (alone_db env u db) in
      out.reply.status ≡ 200 → (c.ok ≡ true) × (out.provider ≡ c.provider) × (out.db ≡ c.db)
unfolding revert alone_db
revert_done env u credential p db org ok = elim (Option-cases (confirm_password env u credential)) [
  | inl confirmed ↦
      elim (Bool-cases (revert_to_personal (shifted 2 env) p (alone_db env u db)).ok) [
        | inl good ↦ (good, ground arith, ground arith)
        | inr bad ↦ absurd (ground arith)
      ]
  | inr (why, refused) ↦ absurd (ground (arith, confirm_refused env u credential why refused))
]

-- A revert of an organization that answers with success leaves no account but the caller's,
-- sign-up closed, personal mode, no table of the organization, and a stored state from which a
-- restart whose search does not fail makes the same provider.
pub revert-alone :
    (env : Env) (u : User) (credential : Text) (p : Provider) (db : Db)
    → p.mode ≡ organization
    → let out = revert env u credential p db in
      out.reply.status ≡ 200
      → (out.provider ≡ record { mode = personal; open_reg = false })
        × All (λ v. v.id ≡ u.id) out.db.users
        × HasNoOrgTables out.db
        × IsStored out.provider out.db
revert-alone env u credential p db org ok =
    let start = alone_db env u db in
    let (good, same_provider, same_db) = revert_done env u credential p db (rw org refl) ok in
    let (closed, bare, stored) = revert_succeeds (shifted 2 env) p start org good in
    rw (same_provider, same_db)
      (closed, rw (revert_users (shifted 2 env) p start) (alone_db_users env u db), bare, stored)
