-- ===== src/Handlers/Auth/Register/Created.antt =====
-- From the reply of a registration back to its steps.
use librelock_server.Common.{
  Text, ℕ, ◌≡◌, refl, Bool, Option, [], ◌∷◌, arith, ◌≢◌, false, Bool-cases, inl, inr, ◌++◌, some,
}
use librelock_server.Env.{Env}
use librelock_server.Handlers.Auth.Register.{
  after_account, Gate, create_account, is_taken, admitted, shut, new_user, sign_up_gate, register,
}
use librelock_server.Handlers.Auth.Register.Laws.{IsWellFormed}
use librelock_server.Handlers.Auth.Requests.{RegisterRequest, SignIn, normalize_username}
use librelock_server.Http.{Reply}
use librelock_server.Models.{
  duplicate, failed, User, Mode, organization, Invite, Db, Role, create_user, done, Write,
}

-- What a successful registration has gone through.
pub record Created (env : Env) (ttl : ℕ) (mode : Mode) (r : RegisterRequest) (db : Db) (g : Gate)
    (out : SignIn) : Type 0 where
  pub role : Role
  pub invite : Option Invite
  pub gate : g ≡ admitted role invite
  pub db1 : Db
  pub account : create_user (env.fault 5) (new_user env r role) db ≡ done db1
  pub rest : out ≡ after_account env ttl mode r (new_user env r role) invite db1

pub create_account-Created :
    (env : Env) (ttl : ℕ) (mode : Mode) (r : RegisterRequest) (db : Db) (g : Gate)
    → (create_account env ttl mode r db g).reply.status ≡ 201
    → ((why : Reply) → g ≡ shut why → why.status ≢ 201)
    → Created env ttl mode r db g (create_account env ttl mode r db g)
unfolding create_account is_taken
create_account-Created env ttl mode r db (shut why) ok refused = absurd (refused why refl ok)
create_account-Created env ttl mode r db (admitted role inv) ok refused =
    elim (Bool-cases (is_taken (env.fault 3) (normalize_username r.username) db)) [
      | inl taken ↦ absurd (ground arith)
      | inr fresh ↦ elim (Bool-cases (env.fault 4)) [
        | inl broken ↦ absurd (ground arith)
        | inr drawn ↦ go (create_user (env.fault 5) (new_user env r role) db) refl fresh drawn
      ]
    ]
  where
    go :
        (w : Write)
        → create_user (env.fault 5) (new_user env r role) db ≡ w
        → is_taken (env.fault 3) (normalize_username r.username) db ≡ false
        → env.fault 4 ≡ false
        → Created env ttl mode r db
            (admitted role inv)
            (create_account env ttl mode r db (admitted role inv))
    go (done db1) e fresh drawn = record {
      role = role;
      invite = inv;
      gate = refl;
      db1 = db1;
      account = e;
      rest = ground arith;
    }
    go duplicate e fresh drawn = absurd (ground arith)
    go failed e fresh drawn = absurd (ground arith)

pub create_user-done :
    (fault : Bool) (u : User) (db db1 : Db)
    → create_user fault u db ≡ done db1
    → (db1.users ≡ db.users ++ u ∷ []) × (db1.invites ≡ db.invites)
unfolding create_user
create_user-done fault u db db1 e = (ground arith, ground arith)

pub gate_refusal :
    (env : Env) (open_reg : Bool) (token : Text) (db : Db) (why : Reply)
    → sign_up_gate env organization open_reg token db ≡ shut why
    → why.status ≢ 201
unfolding sign_up_gate
gate_refusal env open_reg token db why e ok = ground arith

pub register-created :
    (env : Env) (ttl : ℕ) (open_reg : Bool) (r : RegisterRequest) (db : Db)
    → IsWellFormed r
    → register env ttl organization open_reg (some r) db
      ≡ create_account env ttl organization r db
          (sign_up_gate env organization open_reg r.invite_token db)
unfolding register
register-created env ttl open_reg r db (valid, few) = rw (valid, few) refl
