-- ===== src/Handlers/Auth/Register/Miscount.antt =====
-- A registration whose count of the users fails.
use librelock_server.Common.{Option, some, none, ◌≡◌, ℕ, Bool, true, [], ◌∷◌, ◌++◌, refl, ap, ◌∙◌}
use librelock_server.Env.{Env}
use librelock_server.Handlers.Auth.Register.{
  register, new_user, create_account, admitted, burn_invite, after_account,
}
use librelock_server.Handlers.Auth.Register.Created.{
  create_account-Created, create_user-done, register-created,
}
use librelock_server.Handlers.Auth.Register.Laws.{IsWellFormed, sign_up_gate_fault}
use librelock_server.Handlers.Auth.Register.Steps.{after_account_tables}
use librelock_server.Handlers.Auth.Requests.{RegisterRequest, SignIn, normalize_username}
use librelock_server.Models.{organization, owner, Role, Invite, Db, User, is_owner}

admitted_owner :
    (role : Role) (inv : Option Invite)
    → admitted owner none ≡ admitted role inv
    → (role ≡ owner) × (inv ≡ none)
admitted_owner role inv e = (cc, cc)

-- A well-formed registration in an organization that succeeds although its count of the users
-- fails makes an owner of that name, whatever the policy of sign-up, whatever token it brings
-- and however many accounts there are, and uses no invite up.
pub register-miscounted :
    (env : Env) (ttl : ℕ) (open_reg : Bool) (r : RegisterRequest) (db : Db)
    → IsWellFormed r
    → env.fault 0 ≡ true
    → let out = register env ttl organization open_reg (some r) db in
      out.reply.status ≡ 201
      → (u : User) × (out.db.users ≡ db.users ++ u ∷ [])
        × (u.username ≡ normalize_username r.username)
        × (is_owner u.role ≡ true)
        × (out.db.invites ≡ db.invites)
unfolding burn_invite
register-miscounted env ttl open_reg r db well f ok =
    let db' = (register env ttl organization open_reg (some r) db).db in
    let e =
      register-created env ttl open_reg r db well
      ∙ ap (create_account env ttl organization r db)
          (sign_up_gate_fault env open_reg r.invite_token db f) in
    let c =
      create_account-Created env ttl organization r db (admitted owner none) (rw e at ok)
        (λ why w. cc) in
    let (role, inv) = admitted_owner c.role c.invite c.gate in
    let u = new_user env r c.role in
    let (added, kept) = create_user-done (env.fault 5) u db c.db1 c.account in
    let (same_users, burned) = after_account_tables env ttl organization r u c.invite c.db1 in
    let out : db' ≡ (after_account env ttl organization r u c.invite c.db1).db =
      ap SignIn.db (e ∙ c.rest) in
    (
      u,
      ap Db.users out ∙ same_users ∙ added,
      refl,
      rw role refl,
      ap Db.invites out
          ∙ burned
          ∙ ap (λ o. (burn_invite (env.fault 6) (env.clock 2) o c.db1).invites) inv
          ∙ kept,
    )
