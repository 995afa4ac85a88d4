-- ===== src/Handlers/Auth/Register/Laws.antt =====
-- Who may sign up.
use librelock_server.Common.{
  ltb, ◌==◌, Bool-cases, Option-cases, length, Text, text_eq, ℕ, ◌<◌, ◌≡◌, refl, subst, ◌⊎◌, inl,
  inr, Bool, true, false, Option, none, some, List, [], ◌∷◌, arith,
}
use librelock_server.Crypto.Token.{hash_token}
use librelock_server.Env.{Env}
use librelock_server.Http.{Reply, fail}
use librelock_server.Models.{
  Role, owner, User, Mode, personal, organization, is_open, Invite, is_valid_invite, Db, rows,
}
use librelock_server.Models.First.{Has, first-Has}
use librelock_server.Handlers.Helpers.{find}
use librelock_server.Handlers.Auth.Requests.{RegisterRequest, is_valid_register, refuse}
use librelock_server.Handlers.Auth.Register.{
  registration_policy, find_valid_invite, Gate, shut, admitted, count_users, sign_up_gate,
  create_account, register,
}

-- A request that the binding tags and the limit on categories accept.
abbrev pub IsWellFormed : RegisterRequest → Type 0
IsWellFormed r = (is_valid_register r ≡ true) × (ltb 20 (length r.categories) ≡ false)

-- An invite of the token that is neither used nor expired.
abbrev pub IsUsable : Env → Text → Db → Invite → Type 0
IsUsable env token db i =
    Has i (rows db.invites)
    × (text_eq i.token_hash (hash_token env.sha256 token) ≡ true)
    × (is_valid_invite (env.clock 0) i ≡ true)

abbrev pub IsInvited : Env → Text → Db → Type 0
IsInvited env token db = (i : Invite) × IsUsable env token db i

-- Who may sign up: nobody has yet, or sign-up is open, or the token is that of a valid invite.
abbrev pub MayRegister : Env → Mode → Bool → Text → Db → Type 0
MayRegister env personal open_reg token db = (db.users ≡ []) ⊎ (open_reg ≡ true)
MayRegister env organization open_reg token db =
    (db.users ≡ [])
    ⊎ (is_open (registration_policy (env.fault 1) db) ≡ true)
    ⊎ IsInvited env token db

pub find_valid_invite_sound :
    (env : Env) (token : Text) (db : Db) (i : Invite)
    → find_valid_invite env token db ≡ some i
    → IsUsable env token db i
unfolding find_valid_invite
find_valid_invite_sound env token db i e =
    let p = λ (j : Invite). text_eq j.token_hash (hash_token env.sha256 token) in
    elim (Option-cases (find (env.fault 2) Invite.id p (rows db.invites))) [
      | inl missing ↦ absurd (ground arith)
      | inr (j, found) ↦ elim (Bool-cases (env.fault 2)) [
        | inl broken ↦ absurd (ground arith)
        | inr ran ↦
            let (m, h) = first-Has Invite.id p j (rows db.invites) (ground arith) in
            let same : j ≡ i = ground arith in
            subst
              (λ q.
                Has q (rows db.invites) × (p q ≡ true) × (is_valid_invite (env.clock 0) q ≡ true))
              same (m, h, ground arith)
      ]
    ]

no_users : (xs : List User) → length xs == 0 ≡ true → xs ≡ []
no_users [] h = refl
no_users (x ∷ xs) h = ground arith

sign_up_gate_sound :
    (env : Env) (mode : Mode) (open_reg : Bool) (token : Text) (db : Db) (role : Role)
    (inv : Option Invite)
    → env.fault 0 ≡ false
    → sign_up_gate env mode open_reg token db ≡ admitted role inv
    → MayRegister env mode open_reg token db
unfolding sign_up_gate count_users
sign_up_gate_sound env personal open_reg token db role inv f e =
    elim (Bool-cases (length db.users == 0)) [
      | inl nobody ↦ inl (no_users db.users nobody)
      | inr some_user ↦ inr (ground arith)
    ]
sign_up_gate_sound env organization open_reg token db role inv f e =
    elim (Bool-cases (length db.users == 0)) [
      | inl nobody ↦ inl (no_users db.users nobody)
      | inr some_user ↦ elim (Bool-cases (is_open (registration_policy (env.fault 1) db))) [
        | inl policy ↦ inr (inl policy)
        | inr closed ↦ elim (Option-cases (find_valid_invite env token db)) [
          | inl missing ↦ absurd (ground arith)
          | inr (i, found) ↦ inr (inr (i, find_valid_invite_sound env token db i found))
        ]
      ]
    ]

-- If the count of the users does not fail, an account is created only for somebody who may sign
-- up: nobody has yet, or sign-up is open, or, in an organization, the token is that of an invite
-- neither used nor expired. Any other request leaves the database as it was and sets no cookie.
pub register_only :
    (env : Env) (ttl : ℕ) (mode : Mode) (open_reg : Bool) (r : RegisterRequest) (db : Db)
    → env.fault 0 ≡ false
    → MayRegister env mode open_reg r.invite_token db
      ⊎ (((register env ttl mode open_reg (some r) db).db ≡ db)
          × ((register env ttl mode open_reg (some r) db).cookie ≡ none))
unfolding register create_account
register_only env ttl mode open_reg r db f =
    elim (gate-cases (sign_up_gate env mode open_reg r.invite_token db)) [
      | inl (role, inv, e) ↦
          inl (sign_up_gate_sound env mode open_reg r.invite_token db role inv f e)
      | inr (why, e) ↦ inr (ground arith, ground arith)
    ]
  where
    gate-cases :
        (g : Gate)
        → ((role : Role) × (inv : Option Invite) × (g ≡ admitted role inv))
          ⊎ ((why : Reply) × (g ≡ shut why))
    gate-cases (admitted role inv) = inl (role, inv, refl)
    gate-cases (shut why) = inr (why, refl)

-- Where a personal instance has an account and sign-up is closed, every well-formed registration
-- gets the same refusal, whatever name it asks for, and nothing is written, if the count of the
-- users does not fail.
pub register_closed :
    (env : Env) (ttl : ℕ) (r : RegisterRequest) (db : Db)
    → IsWellFormed r
    → env.fault 0 ≡ false
    → 0 < length db.users
    → register env ttl personal false (some r) db
      ≡ refuse (fail 403 "This instance is not accepting new accounts.") db
unfolding register create_account sign_up_gate count_users
register_closed env ttl r db (valid, few) f users = ground arith

-- The gate takes a count of the users that fails for that of an organization with none.
pub sign_up_gate_fault :
    (env : Env) (open_reg : Bool) (token : Text) (db : Db)
    → env.fault 0 ≡ true
    → sign_up_gate env organization open_reg token db ≡ admitted owner none
unfolding sign_up_gate count_users
sign_up_gate_fault env open_reg token db f = ground arith
