-- ===== src/Handlers/Settings/Account/Laws.antt =====
-- A new password and the sharing keypair.
use librelock_server.Common.{
  ◌==◌, ==_iff, All, length, filter, update, Text, text_eq, is_empty, ℕ, ◌≡◌, refl, ◌≢◌, ◌⊎◌, inr,
  Bool, true, false, not, ◌&&◌, ◌||◌, Option, none, some, List, [], ◌∷◌, arith,
}
use librelock_server.Crypto.Token.{hash_token}
use librelock_server.Env.{Env}
use librelock_server.Handlers.Auth.Requests.{within}
use librelock_server.Handlers.Settings.Account.{
  set_user, KeypairRequest, upload_keypair, PasswordRequest, password_transaction,
  update_master_password, is_valid_keypair, set_keypair,
}
use librelock_server.Http.{fail}
use librelock_server.Models.{User, Session, Db}
use librelock_server.Models.First.{Has, All-Has}

-- The sessions that a new password leaves: those of others, and the one that changed it.
abbrev pub survives : Env → User → Text → Session → Bool
survives env u token s =
    not (s.user_id == u.id) || text_eq s.token_hash (hash_token env.sha256 token)

survives_eq :
    (env : Env) (u : User) (token : Text) (ss : List Session)
    → filter
        (λ s. not (s.user_id == u.id && not (text_eq s.token_hash (hash_token env.sha256 token))))
        ss
      ≡ filter (survives env u token) ss
survives_eq env u token [] = refl
survives_eq env u token (s ∷ ss) = ground (arith, survives_eq env u token ss)

-- A change of the password that succeeds ends exactly the account's other sessions; one that
-- does not succeed leaves the database as it was.
pub update_master_password_sessions :
    (env : Env) (u : User) (token : Text) (request : Option PasswordRequest) (db : Db)
    → let out = update_master_password env u token request db in
      ((out.0.status ≡ 200) × (out.1.sessions ≡ filter (survives env u token) db.sessions))
      ⊎ ((out.0.status ≢ 200) × (out.1 ≡ db))
unfolding update_master_password password_transaction
update_master_password_sessions env u token none db = inr (ground arith, refl)
update_master_password_sessions env u token (some r) db =
    ground (arith, survives_eq env u token db.sessions)

not_empty : (s : Text) (most : ℕ) → within 1 most (length s) ≡ true → is_empty s ≡ false
not_empty [] most h = ground arith
not_empty (c ∷ s) most h = refl

keypair_set :
    (id : ℕ) (r : KeypairRequest) (us : List User)
    → is_empty r.public_key ≡ false
    → All
        (λ v. v.id == id ≡ true → is_empty v.public_key ≡ false)
        (update (λ v. v.id == id) (set_keypair r) us)
keypair_set id r [] h = tt
keypair_set id r (v ∷ us) h = (λ e. ground arith, keypair_set id r us h)

upload_keypair_done :
    (env : Env) (u : User) (r : KeypairRequest) (db : Db)
    → (upload_keypair env u (some r) db).0.status ≡ 200
    → (is_valid_keypair r ≡ true)
      × ((upload_keypair env u (some r) db).1 ≡ set_user u.id (set_keypair r) db)
unfolding upload_keypair
upload_keypair_done env u r db ok = (ground arith, ground arith)

upload_keypair_refused :
    (env : Env) (u : User) (request : Option KeypairRequest) (db : Db)
    → is_empty u.public_key ≡ false
    → upload_keypair env u request db ≡ (fail 409 "Keypair already set", db)
unfolding upload_keypair
upload_keypair_refused env u none db h = rw h refl
upload_keypair_refused env u (some r) db h = rw h refl

-- A sharing keypair is written once: after an upload that succeeds, whoever has the account's id
-- in the new database is refused any other upload, with nothing written.
pub upload_keypair_once :
    (env later : Env) (u u' : User) (r : KeypairRequest) (again : Option KeypairRequest) (db : Db)
    → let db' = (upload_keypair env u (some r) db).1 in
      (upload_keypair env u (some r) db).0.status ≡ 200
      → Has u' db'.users
      → u'.id ≡ u.id
      → upload_keypair later u' again db' ≡ (fail 409 "Keypair already set", db')
unfolding upload_keypair
upload_keypair_once env later u u' r again db ok m e =
    let db' = (upload_keypair env u (some r) db).1 in
    let (valid, written) = upload_keypair_done env u r db ok in
    let set = keypair_set u.id r db.users (not_empty r.public_key 4096 (ground arith)) in
    let mine =
      All-Has (λ v. v.id == u.id ≡ true → is_empty v.public_key ≡ false) u'
        (set_user u.id (set_keypair r) db).users set (rw written at m) in
    upload_keypair_refused later u' again db' (mine ((==_iff u'.id u.id).1 e))
