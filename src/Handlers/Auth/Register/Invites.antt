-- ===== src/Handlers/Auth/Register/Invites.antt =====
-- The use of an invite.
use mathlib.Core.Path.{ap₂}
use librelock_server.Common.{
  ◌==◌, All, update, Text, text_eq, ℕ, ◌≡◌, refl, ◌∙◌, Bool, true, Option, none, some, List, [],
  ◌∷◌, arith, false, inl, inr, ◌++◌, text_eq_iff, Option-cases, sym, ap, ◌<◌, length,
}
use librelock_server.Crypto.Token.{hash_token}
use librelock_server.Env.{Env}
use librelock_server.Handlers.Auth.Register.{
  after_account, burn_invite, create_account, admitted, new_user, register, sign_up_gate,
  count_users, find_valid_invite, registration_policy,
}
use librelock_server.Handlers.Auth.Register.Laws.{IsWellFormed, find_valid_invite_sound}
use librelock_server.Handlers.Auth.Requests.{RegisterRequest, SignIn, refuse}
use librelock_server.Http.{fail_field}
use librelock_server.Models.{
  User, organization, Invite, is_used, Db, Role, rows, is_open, Table, map_table,
}
use librelock_server.Models.First.{Has, All-of_Has, All-Has}
use librelock_server.Handlers.Auth.Register.Steps.{after_account_tables}
use librelock_server.Handlers.Auth.Register.Created.{
  register-created, create_account-Created, create_user-done, gate_refusal,
}

-- No two invites have the same token's hash.
abbrev pub HasUniqueHashes : List Invite → Type 0
HasUniqueHashes is =
    (i j : Invite) → Has i is → Has j is → text_eq i.token_hash j.token_hash ≡ true → i ≡ j

abbrev burn : ℕ → ℕ → Invite → Invite
burn id now j = record j { used_at = some now }

burnt :
    (id now : ℕ) (hash : Text) (is : List Invite)
    → All (λ j. text_eq j.token_hash hash ≡ true → j.id ≡ id) is
    → All
        (λ j. text_eq j.token_hash hash ≡ true → is_used j ≡ true)
        (update (λ j. j.id == id) (burn id now) is)
burnt id now hash [] h = tt
burnt id now hash (j ∷ js) (h, hs) = (λ e. ground (arith, h), burnt id now hash js hs)

-- What a registration by invite has gone through.
gate_invited :
    (env : Env) (open_reg : Bool) (token : Text) (db : Db) (role : Role) (inv : Option Invite)
    → count_users (env.fault 0) db == 0 ≡ false
    → is_open (registration_policy (env.fault 1) db) ≡ false
    → sign_up_gate env organization open_reg token db ≡ admitted role inv
    → (i : Invite) × (inv ≡ some i) × (find_valid_invite env token db ≡ some i)
unfolding sign_up_gate
gate_invited env open_reg token db role inv users closed e =
    elim (Option-cases (find_valid_invite env token db)) [
      | inl missing ↦ absurd (ground arith)
      | inr (i, found) ↦ (i, ground arith, found)
    ]

find_valid_invite-spent :
    (env : Env) (token : Text) (db : Db)
    → All
        (λ j. text_eq j.token_hash (hash_token env.sha256 token) ≡ true → is_used j ≡ true)
        (rows db.invites)
    → find_valid_invite env token db ≡ none
find_valid_invite-spent env token db spent = elim (Option-cases (find_valid_invite env token db)) [
  | inl missing ↦ missing
  | inr (i, found) ↦
      let (m, h, valid) = find_valid_invite_sound env token db i found in
      let used =
        All-Has (λ j. text_eq j.token_hash (hash_token env.sha256 token) ≡ true → is_used j ≡ true)
          i (rows db.invites) spent m h in
      absurd (ground arith)
]

burn_invite-spent :
    (now : ℕ) (i : Invite) (hash : Text) (db : Db)
    → Has i (rows db.invites)
    → text_eq i.token_hash hash ≡ true
    → HasUniqueHashes (rows db.invites)
    → All
        (λ j. text_eq j.token_hash hash ≡ true → is_used j ≡ true)
        (rows (burn_invite false now (some i) db).invites)
unfolding burn_invite
burn_invite-spent now i hash db m h unique = rows-update (db.invites) (
    burnt i.id now hash (rows db.invites)
      (All-of_Has _ (rows db.invites) (λ j mj hj. ap Invite.id (unique j i mj m (both j hj)))))
  where
    both :
        (j : Invite) → text_eq j.token_hash hash ≡ true → text_eq j.token_hash i.token_hash ≡ true
    both j hj = (text_eq_iff _ _).1 ((text_eq_iff _ _).0 hj ∙ sym ((text_eq_iff _ _).0 h))

    rows-update :
        (t : Table Invite)
        → All
            (λ j. text_eq j.token_hash hash ≡ true → is_used j ≡ true)
            (update (λ j. j.id == i.id) (burn i.id now) (rows t))
        → All
            (λ j. text_eq j.token_hash hash ≡ true → is_used j ≡ true)
            (rows (map_table (update (λ j. j.id == i.id) (burn i.id now)) t))
    rows-update none a = tt
    rows-update (some is) a = a

count_users_pos :
    (fault : ℕ → Bool) (db : Db)
    → fault 0 ≡ false
    → 0 < length db.users
    → count_users (fault 0) db == 0 ≡ false
unfolding count_users
count_users_pos fault db f pos = ground arith

pos_length : (u : User) (us : List User) → 0 < length (us ++ u ∷ [])
pos_length u [] = omega arith
pos_length u (v ∷ us) = omega arith

register_refused :
    (env : Env) (ttl : ℕ) (open_reg : Bool) (r : RegisterRequest) (db : Db)
    → IsWellFormed r
    → count_users (env.fault 0) db == 0 ≡ false
    → is_open (registration_policy (env.fault 1) db) ≡ false
    → find_valid_invite env r.invite_token db ≡ none
    → register env ttl organization open_reg (some r) db
      ≡ refuse (fail_field "invite_token" "This invite is invalid, expired, or already used.") db
unfolding register create_account sign_up_gate
register_refused env ttl open_reg r db (valid, few) users closed missing =
    rw (valid, few, users, closed, missing) refl

-- An invite is good for one account: in an organization that has accounts, after a registration
-- by invite has succeeded in which the count of users and the write to the invite did not fail,
-- a well-formed registration with the same token is refused and changes nothing, as long as the
-- policy asks for invites, its own count of users does not fail, and no two invites have the
-- same token hash.
pub invite_once :
    (env later : Env) (ttl : ℕ) (open_reg : Bool) (r r' : RegisterRequest) (db : Db)
    → let db' = (register env ttl organization open_reg (some r) db).db in
      IsWellFormed r
      → (env.fault 0 ≡ false) × (env.fault 6 ≡ false)
      → 0 < length db.users
      → is_open (registration_policy (env.fault 1) db) ≡ false
      → (register env ttl organization open_reg (some r) db).reply.status ≡ 201
      → HasUniqueHashes (rows db.invites)
      → IsWellFormed r'
      → r'.invite_token ≡ r.invite_token
      → later.sha256 ≡ env.sha256
      → later.fault 0 ≡ false
      → is_open (registration_policy (later.fault 1) db') ≡ false
      → register later ttl organization open_reg (some r') db'
        ≡ refuse (fail_field "invite_token" "This invite is invalid, expired, or already used.") db'
invite_once env later ttl open_reg r r' db well (f0, f6) users closed ok unique well' same_token
      same_hash l0 closed' =
    let db' = (register env ttl organization open_reg (some r) db).db in
    let g = sign_up_gate env organization open_reg r.invite_token db in
    let e = register-created env ttl open_reg r db well in
    let c =
      create_account-Created env ttl organization r db g (rw e at ok)
        (λ why w. gate_refusal env open_reg r.invite_token db why w) in
    let (i, is_i, found) =
      gate_invited env open_reg r.invite_token db c.role c.invite
        (count_users_pos env.fault db f0 users) closed c.gate in
    let (m, h, _) = find_valid_invite_sound env r.invite_token db i found in
    let u = new_user env r c.role in
    let (added, kept) = create_user-done (env.fault 5) u db c.db1 c.account in
    let (same_users, burned) = after_account_tables env ttl organization r u c.invite c.db1 in
    let out : db' ≡ (after_account env ttl organization r u c.invite c.db1).db =
      ap SignIn.db (e ∙ c.rest) in
    let spent =
      burn_invite-spent (env.clock 2) i (hash_token env.sha256 r.invite_token) c.db1 (rw kept m) h
        (rw kept unique) in
    let invites' : db'.invites ≡ (burn_invite false (env.clock 2) (some i) c.db1).invites =
      ap Db.invites out
      ∙ burned
      ∙ ap₂ (λ f o. (burn_invite f (env.clock 2) o c.db1).invites) f6 is_i in
    let users' : 0 < length db'.users =
      rw (ap Db.users out ∙ same_users ∙ added) (pos_length u db.users) in
    register_refused later ttl open_reg r' db' well' (count_users_pos later.fault db' l0 users')
      closed'
      (find_valid_invite-spent later r'.invite_token db'
        (rw (same_token, same_hash, invites') spent))
