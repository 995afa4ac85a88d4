-- ===== src/Handlers/OrgMembership/Laws.antt =====
-- Who holds the shared key after a grant or a revoke.
use librelock_server.Common.{
  ◌==◌, ==_iff, ==_refl, Bool-cases, Option-cases, All, any, filter, update, ℕ, ◌≡◌, refl, ap, ◌∙◌,
  inl, inr, true, false, not, none, some, List, [], ◌∷◌, ◌++◌, arith,
}
use librelock_server.Env.{Env}
use librelock_server.Handlers.Helpers.{find, record_audit}
use librelock_server.Handlers.OrgMembership.{
  revoke_membership, revoke_found, is_of, my_org_key, GrantRequest, grant_membership, grant_found,
  upsert, new_membership,
}
use librelock_server.Handlers.Searches.{find-some}
use librelock_server.Http.{fail, reply, wrapped_key}
use librelock_server.Middleware.Auth.{require_membership}
use librelock_server.Models.{is_owner, User, Membership, organization, Db, rows}
use librelock_server.Models.First.{any-Has, HasUniqueKeys, same_of_key, Has, first_exists, All-Has}

upsert-any : (m : Membership) (ms : List Membership) → any (is_of m.user_id) (upsert m ms) ≡ true
unfolding upsert
upsert-any m ms = elim (Bool-cases (any (is_of m.user_id) ms)) [
  | inl there ↦ rw there (updated ms there)
  | inr new ↦ rw new (added ms)
]
  where
    updated :
        (ms : List Membership)
        → any (is_of m.user_id) ms ≡ true
        → any (is_of m.user_id) (
            update
              (is_of m.user_id)
              (λ k. record k { wrapped_key = m.wrapped_key; granted_by = m.granted_by })
              ms)
          ≡ true
    updated [] h = absurd (ground arith)
    updated (k ∷ ms) h = ground (arith, updated ms)

    added : (ms : List Membership) → any (is_of m.user_id) (ms ++ m ∷ []) ≡ true
    added [] = ground (arith, ==_refl m.user_id)
    added (k ∷ ms) = ground (arith, added ms)

upsert-key :
    (m : Membership) (ms : List Membership)
    → All (λ k. is_of m.user_id k ≡ true → k.wrapped_key ≡ m.wrapped_key) (upsert m ms)
unfolding upsert
upsert-key m ms = elim (Bool-cases (any (is_of m.user_id) ms)) [
  | inl there ↦ rw there (updated ms)
  | inr new ↦ rw new (added ms new)
]
  where
    updated :
        (ms : List Membership)
        → All
            (λ k. is_of m.user_id k ≡ true → k.wrapped_key ≡ m.wrapped_key)
            (update
              (is_of m.user_id)
              (λ k. record k { wrapped_key = m.wrapped_key; granted_by = m.granted_by })
              ms)
    updated [] = tt
    updated (k ∷ ms) = (λ e. ground arith, updated ms)

    added :
        (ms : List Membership)
        → any (is_of m.user_id) ms ≡ false
        → All (λ k. is_of m.user_id k ≡ true → k.wrapped_key ≡ m.wrapped_key) (ms ++ m ∷ [])
    added [] h = (λ e. refl, tt)
    added (k ∷ ms) h = (λ e. absurd (ground arith), added ms (ground arith))

find_membership :
    (id : ℕ) (ms : List Membership)
    → any (is_of id) ms ≡ true
    → (k : Membership) × (find false Membership.user_id (is_of id) ms ≡ some k)
find_membership id ms h = first_exists Membership.user_id (is_of id) ms h

my_org_key-some :
    (env : Env) (u : User) (k : Membership) (db : Db)
    → env.fault 0 ≡ false
    → find false Membership.user_id (is_of u.id) (rows db.memberships) ≡ some k
    → my_org_key env u db ≡ reply 200 (wrapped_key k.wrapped_key)
unfolding my_org_key
my_org_key-some env u k db f found = ground arith

my_org_key-none :
    (env : Env) (u : User) (db : Db)
    → any (is_of u.id) (rows db.memberships) ≡ false
    → my_org_key env u db ≡ fail 404 "No shared access"
unfolding my_org_key
my_org_key-none env u db gone =
    elim (Option-cases (find (env.fault 0) Membership.user_id (is_of u.id) (rows db.memberships))) [
      | inl missing ↦ ground arith
      | inr (k, e) ↦
          let (mk, hk) =
            find-some (env.fault 0) Membership.user_id (is_of u.id) (rows db.memberships) k e in
          absurd
            (ground (arith, any-Has Membership.user_id (is_of u.id) k (rows db.memberships) mk hk))
    ]

grant_membership_done :
    (env : Env) (actor : User) (r : GrantRequest) (db : Db)
    → (grant_membership env actor (some r) db).0.status ≡ 200
    → (m : Membership) × (m.user_id ≡ r.user_id)
      × (m.wrapped_key ≡ r.wrapped_key)
      × (rows (grant_membership env actor (some r) db).1.memberships
          ≡ upsert m (rows db.memberships))
unfolding grant_membership grant_found record_audit
grant_membership_done env actor r db ok =
    elim (Option-cases (find (env.fault 0) User.id (λ u. u.id == r.user_id) db.users)) [
      | inl missing ↦ absurd (ground arith)
      | inr (u, e) ↦
          let (m, same) = find-some (env.fault 0) User.id (λ u. u.id == r.user_id) db.users u e in
          elim (Option-cases db.memberships) [
            | inl no_table ↦ absurd (ground arith)
            | inr (ms, e') ↦ (
              new_membership actor u r.wrapped_key,
              (==_iff u.id r.user_id).0 same,
              refl,
              ground arith,
            )
          ]
    ]

-- After a grant that succeeds, the account it names gets the wrapped key of that grant, where
-- the search does not fail, and passes the guard of the shared vault's routes.
pub my_org_key-grant_membership :
    (env later : Env) (actor u : User) (r : GrantRequest) (db : Db)
    → let out = grant_membership env actor (some r) db in
      out.0.status ≡ 200
      → u.id ≡ r.user_id
      → later.fault 0 ≡ false
      → (my_org_key later u out.1 ≡ reply 200 (wrapped_key r.wrapped_key))
        × (require_membership false organization u out.1 ≡ none)
unfolding require_membership
my_org_key-grant_membership env later actor u r db ok id f =
    let db' = (grant_membership env actor (some r) db).1 in
    let (m, same, key, written) = grant_membership_done env actor r db ok in
    let there : any (is_of u.id) (rows db'.memberships) ≡ true =
      rw (written, id, ← same) (upsert-any m (rows db.memberships)) in
    let (k, found) = find_membership u.id (rows db'.memberships) there in
    let (mk, hk) = find-some false Membership.user_id (is_of u.id) (rows db'.memberships) k found in
    let held =
      All-Has (λ k. is_of m.user_id k ≡ true → k.wrapped_key ≡ m.wrapped_key) k
        (upsert m (rows db.memberships)) (upsert-key m (rows db.memberships)) (rw written at mk) in
    let granted : k.wrapped_key ≡ r.wrapped_key = held (ground (arith, hk, same, id)) ∙ key in
    (
      my_org_key-some later u k db' f found ∙ ap (λ w. reply 200 (wrapped_key w)) granted,
      ground arith,
    )

dropped :
    (id : ℕ) (ms : List Membership) → any (is_of id) (filter (λ m. not (is_of id m)) ms) ≡ false
dropped id [] = refl
dropped id (m ∷ ms) = ground (arith, dropped id ms)

revoke_membership_done :
    (env : Env) (actor : User) (id : ℕ) (db : Db)
    → (revoke_membership env actor id db).0.status ≡ 204
    → rows (revoke_membership env actor id db).1.memberships
      ≡ filter (λ m. not (is_of id m)) (rows db.memberships)
unfolding revoke_membership revoke_found record_audit
revoke_membership_done env actor id db ok =
    elim (Option-cases (find (env.fault 0) User.id (λ u. u.id == id) db.users)) [
      | inl missing ↦ absurd (ground arith)
      | inr (u, e) ↦
          let (m, same) = find-some (env.fault 0) User.id (λ u. u.id == id) db.users u e in
          let is_id = (==_iff u.id id).0 same in
          elim (Option-cases db.memberships) [
            | inl no_table ↦ absurd (ground arith)
            | inr (ms, e') ↦ ground arith
          ]
    ]

-- After a revoke that succeeds, the account it names gets no wrapped key and is refused by the
-- guard of the shared vault's routes.
pub my_org_key-revoke_membership :
    (env later : Env) (actor u : User) (db : Db)
    → let out = revoke_membership env actor u.id db in
      out.0.status ≡ 204
      → (my_org_key later u out.1 ≡ fail 404 "No shared access")
        × (require_membership false organization u out.1 ≡ some (fail 403 "Shared access required"))
unfolding require_membership
my_org_key-revoke_membership env later actor u db ok =
    let db' = (revoke_membership env actor u.id db).1 in
    let gone : any (is_of u.id) (rows db'.memberships) ≡ false =
      rw (revoke_membership_done env actor u.id db ok) (dropped u.id (rows db.memberships)) in
    (my_org_key-none later u db' gone, ground arith)

-- No revoke that names an owner's account changes the database, where the accounts' ids are
-- unique.
pub revoke_membership-owner :
    (env : Env) (actor v : User) (db : Db)
    → HasUniqueKeys User.id db.users
    → Has v db.users
    → is_owner v.role ≡ true
    → (revoke_membership env actor v.id db).1 ≡ db
unfolding revoke_membership revoke_found
revoke_membership-owner env actor v db unique m own =
    elim (Option-cases (find (env.fault 0) User.id (λ u. u.id == v.id) db.users)) [
      | inl missing ↦ ground arith
      | inr (u, e) ↦
          let (mu, same) = find-some (env.fault 0) User.id (λ u. u.id == v.id) db.users u e in
          let twin = same_of_key User.id u v db.users unique mu m ((==_iff u.id v.id).0 same) in
          ground (arith, ap User.role twin)
    ]
