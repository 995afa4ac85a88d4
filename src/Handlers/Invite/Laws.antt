-- ===== src/Handlers/Invite/Laws.antt =====
-- The life of an invite: which tokens a sign-up accepts after the requests of an administrator.
use librelock_server.Handlers.Searches.{find-some}
use librelock_server.Common.{
  ◌==◌, ==_iff, ==_refl, Option-cases, any, filter, Text, text, text_eq, text_eq_refl, text_eq_iff,
  is_empty, ℕ, ◌+◌, ◌*◌, ◌≤◌, ◌≡◌, refl, sym, ap, ◌∙◌, inl, inr, Bool, true, false, not, ◌||◌,
  Option, none, some, List, [], ◌∷◌, ◌++◌, arith,
}
use librelock_server.Crypto.Token.{hash_token}
use librelock_server.Env.{Env, hour}
use librelock_server.Handlers.Auth.Register.{find_valid_invite}
use librelock_server.Handlers.Auth.Register.Invites.{HasUniqueHashes}
use librelock_server.Handlers.Auth.Register.Laws.{IsUsable, find_valid_invite_sound}
use librelock_server.Handlers.Helpers.{find, record_audit}
use librelock_server.Handlers.Invite.{
  InviteRequest, days_of, new_invite, insert_invite, create_invite, minted, is_pruned,
  prune_invites, pruned, revoke_invite, revoked,
}
use librelock_server.Models.{User, Invite, is_valid_invite, Db, rows, Action}
use librelock_server.Models.First.{
  Has-filter, Has, first-Has, first_exists, any-Has, Has_last, Has-append_last,
}

record_audit-invites :
    (fault : Bool) (id now : ℕ) (action : Action) (actor : User) (t : Option ℕ) (name : Text)
    (db : Db)
    → (record_audit fault id now action actor t name db).invites ≡ db.invites
unfolding record_audit
record_audit-invites fault id now action actor t name db = ground arith

kept_pending :
    (now : ℕ) (is : List Invite)
    → filter (λ i. not (is_pruned false now i)) is ≡ filter (is_valid_invite now) is
unfolding is_pruned
kept_pending now [] = refl
kept_pending now (i ∷ is) = ground (arith, kept_pending now is)

prune_invites_done :
    (env : Env) (actor : User) (scope : Text) (db : Db)
    → (prune_invites env actor scope db).0.status ≡ 200
    → rows (prune_invites env actor scope db).1.invites
      ≡ filter (λ i. not (is_pruned (text_eq scope (text "all")) (env.clock 0) i)) (rows db.invites)
unfolding prune_invites pruned record_audit
prune_invites_done env actor scope db ok = elim (Option-cases db.invites) [
  | inl missing ↦ absurd (ground arith)
  | inr (is, e) ↦ ground arith
]

-- A prune that succeeds with a scope other than all keeps exactly the invites that are neither
-- used nor expired at that time.
pub prune_invites-pending :
    (env : Env) (actor : User) (scope : Text) (db : Db)
    → text_eq scope (text "all") ≡ false
    → let out = prune_invites env actor scope db in
      out.0.status ≡ 200
      → rows out.1.invites ≡ filter (is_valid_invite (env.clock 0)) (rows db.invites)
prune_invites-pending env actor scope db spent ok =
    prune_invites_done env actor scope db ok
    ∙ rw spent (kept_pending (env.clock 0) (rows db.invites))

found_unique :
    (env : Env) (token : Text) (db : Db) (i : Invite)
    → is_empty token ≡ false
    → env.fault 2 ≡ false
    → IsUsable env token db i
    → ((j : Invite)
        → Has j (rows db.invites)
        → text_eq j.token_hash (hash_token env.sha256 token) ≡ true
        → j ≡ i)
    → find_valid_invite env token db ≡ some i
unfolding find_valid_invite
found_unique env token db i given f (m, h, valid) only =
    let p = λ (j : Invite). text_eq j.token_hash (hash_token env.sha256 token) in
    let (j, found) =
      first_exists Invite.id p (rows db.invites) (any-Has Invite.id p i (rows db.invites) m h) in
    let (mj, hj) = first-Has Invite.id p j (rows db.invites) found in
    let same = only j mj hj in rw (given, f, found, same, valid) refl

create_invite_done :
    (env : Env) (admin : User) (token : Text) (r : InviteRequest) (db : Db)
    → let out = create_invite env admin token (some r) db in
      let i = new_invite env admin token r in
      out.0.status ≡ 201
      → (any (λ j. j.id == i.id || text_eq j.token_hash i.token_hash) (rows db.invites) ≡ false)
        × (rows out.1.invites ≡ rows db.invites ++ i ∷ [])
unfolding create_invite minted insert_invite record_audit
create_invite_done env admin token r db ok = elim (Option-cases db.invites) [
  | inl missing ↦ absurd (ground arith)
  | inr (is, e) ↦ (ground arith, ground arith)
]

-- The token of an invite whose creation succeeds is one that a sign-up accepts, as that invite,
-- until the invite expires, in the database that the creation leaves, if the token is not empty,
-- the digest is the same and the search does not fail.
pub find_valid_invite-create_invite :
    (env later : Env) (admin : User) (token : Text) (r : InviteRequest) (db : Db)
    → let out = create_invite env admin token (some r) db in
      out.0.status ≡ 201
      → is_empty token ≡ false
      → later.sha256 ≡ env.sha256
      → later.fault 2 ≡ false
      → later.clock 0 ≤ env.clock 0 + days_of r * (24 * hour)
      → find_valid_invite later token out.1 ≡ some (new_invite env admin token r)
find_valid_invite-create_invite env later admin token r db ok given same_hash f early =
    let i = new_invite env admin token r in
    let db' = (create_invite env admin token (some r) db).1 in
    let (fresh, added) = create_invite_done env admin token r db ok in
    let here : Has i (rows db'.invites) = rw added (Has_last i (rows db.invites)) in
    let hashed : text_eq i.token_hash (hash_token later.sha256 token) ≡ true =
      rw same_hash (text_eq_refl _) in
    found_unique later token db' i given f (here, hashed, ground arith)
      (λ j mj hj. elim (Has-append_last j i (rows db.invites) (rw added at mj)) [
        | inr e ↦ e
        | inl old ↦ absurd (
            ground (
              arith,
              any-Has Invite.id (λ q. q.id == i.id || text_eq q.token_hash i.token_hash) j
                  (rows db.invites) old,
              fresh,
              rw same_hash at hj,
            ))
      ])

revoke_invite_done :
    (env : Env) (actor : User) (id : ℕ) (db : Db)
    → (revoke_invite env actor id db).0.status ≡ 204
    → rows (revoke_invite env actor id db).1.invites
      ≡ filter (λ j. not (j.id == id)) (rows db.invites)
unfolding revoke_invite revoked record_audit
revoke_invite_done env actor id db ok =
    elim (Option-cases (find (env.fault 0) Invite.id (λ i. i.id == id) (rows db.invites))) [
      | inl missing ↦ absurd (ground arith)
      | inr (i, e) ↦
          let (m, same) =
            find-some (env.fault 0) Invite.id (λ j. j.id == id) (rows db.invites) i e in
          revoked_rows i ((==_iff i.id id).0 same) e
    ]
  where
    revoked_rows :
        (i : Invite)
        → i.id ≡ id
        → find (env.fault 0) Invite.id (λ i. i.id == id) (rows db.invites) ≡ some i
        → rows (revoke_invite env actor id db).1.invites
          ≡ filter (λ j. not (j.id == id)) (rows db.invites)
    revoked_rows i same e = elim (Option-cases db.invites) [
      | inl missing ↦ ground arith
      | inr (is, e') ↦ ground arith
    ]

-- After an invite is revoked with success, no sign-up accepts its token, if no two invites have
-- the same token hash.
pub find_valid_invite-revoke_invite :
    (env later : Env) (actor : User) (token : Text) (i : Invite) (db : Db)
    → let out = revoke_invite env actor i.id db in
      out.0.status ≡ 204
      → HasUniqueHashes (rows db.invites)
      → Has i (rows db.invites)
      → text_eq i.token_hash (hash_token later.sha256 token) ≡ true
      → find_valid_invite later token out.1 ≡ none
find_valid_invite-revoke_invite env later actor token i db ok unique m h =
    let db' = (revoke_invite env actor i.id db).1 in
    elim (Option-cases (find_valid_invite later token db')) [
      | inl missing ↦ missing
      | inr (j, found) ↦
          let (mj, hj, valid) = find_valid_invite_sound later token db' j found in
          let (old, other) =
            Has-filter (λ q. not (q.id == i.id)) j (rows db.invites)
              (rw (revoke_invite_done env actor i.id db ok) at mj) in
          let same =
            unique j i old m
              ((text_eq_iff _ _).1 ((text_eq_iff _ _).0 hj ∙ sym ((text_eq_iff _ _).0 h))) in
          absurd (ground (arith, ap Invite.id same, ==_refl i.id))
    ]
