-- ===== src/Server/Tests.antt =====
-- Requests to the sample instance.
use librelock_server.Common.{
  least, Text, text, text_eq, ◌≡◌, refl, ◌⊎◌, true, false, none, some, [],
}
use librelock_server.Handlers.Helpers.{public_user}
use librelock_server.Handlers.Shared.Requests.{list_entries}
use librelock_server.Http.{user, reply, fail}
use librelock_server.Middleware.Auth.{extract_token, auth}
use librelock_server.Middleware.Auth.Laws.{IsSignedIn}
use librelock_server.Middleware.RateLimit.{Limiter}
use librelock_server.Models.{organization, User, Session}
use librelock_server.Samples.{acme, ann, calm}
use librelock_server.Server.Guards.{Kept, MayCall, protected-MayCall}
use librelock_server.Server.Requests.{protected, administer, get_users, get_me, shared_vault}
use librelock_server.Server.Serve.{serve_api}
use librelock_server.Server.State.{Caller, Config, Server, with_db}

abbrev conf : Config
conf = record { ttl = 3600; production = true; version = text "0.2"; secret = text "secret" }

abbrev idle_limiter : Limiter
idle_limiter = record { buckets = λ key. none; last_sweep = 0 }

abbrev up : Server
up = record {
  db = acme;
  provider = record { mode = organization; open_reg = false };
  auth_limiter = idle_limiter;
  reauth_limiter = idle_limiter;
}

abbrev from_token : Text → Caller
from_token token = record { cookie = some token; authorization = []; client = 7 }

-- A session that has expired, a member among the administrators' routes, and one without the key.
turned_away :
    ((serve_api conf calm calm (from_token (text "t2")) (protected get_me) up).0.reply
      ≡ fail 401 "Session expired or invalid")
    × ((serve_api conf calm calm
          (from_token (text "t4"))
          (protected (administer get_users))
          up).0.reply
        ≡ fail 403 "Admin access required")
    × ((serve_api conf calm calm
          (from_token (text "t4"))
          (protected (shared_vault list_entries))
          up).0.reply
        ≡ fail 403 "Shared access required")
unfolding serve_api auth extract_token librelock_server.Models.first least text_eq
    librelock_server.Crypto.Token.hash_token librelock_server.Crypto.Hex.hex_encode
    librelock_server.Server.Serve.is_reauth librelock_server.Server.Serve.guard_group
    librelock_server.Middleware.Auth.require_admin
    librelock_server.Middleware.Auth.require_membership
turned_away = (refl, refl, refl)

served :
    (serve_api conf calm calm (from_token (text "t1")) (protected get_me) up).0.reply
    ≡ reply 200 (user (public_user ann))
unfolding serve_api auth extract_token librelock_server.Models.first least text_eq
    librelock_server.Crypto.Token.hash_token librelock_server.Crypto.Hex.hex_encode
    librelock_server.Server.Serve.is_reauth librelock_server.Server.Serve.guard_group
served = refl

protected-MayCall_example :
    let checked = with_db (auth calm 3600 (text "t1") acme).db up in
    Kept checked
      (serve_api conf calm calm (from_token (text "t1")) (protected (administer get_users)) up).1
    ⊎ ((u : User) × (r : Session) × IsSignedIn calm (text "t1") acme u r
        × MayCall (administer get_users) u checked)
unfolding extract_token
protected-MayCall_example =
    protected-MayCall conf calm calm (from_token (text "t1")) (administer get_users) up
