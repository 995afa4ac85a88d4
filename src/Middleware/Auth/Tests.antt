-- ===== src/Middleware/Auth/Tests.antt =====
-- The session check on the sample instance.
use librelock_server.Common.{
  least, text, text_eq, ◌+◌, ◌*◌, ◌≡◌, refl, inl, inr, true, none, some, [], arith,
}
use librelock_server.Crypto.Token.{hash_token}
use librelock_server.Crypto.Hex.{hex_encode}
use librelock_server.Env.{second}
use librelock_server.Models.{Session, first}
use librelock_server.Models.First.{Has}
use librelock_server.Samples.{calm, acme, ann, sessions, session_of}
use librelock_server.Middleware.Auth.{passed, denied, auth, extract_token}
use librelock_server.Middleware.Auth.Laws.{IsSignedIn, auth_passes_only}
use librelock_server.Middleware.Auth.Sliding.{ExtendsAll, auth_extends}
use librelock_server.Http.{fail}

extract_token_tests :
    (extract_token none (text "Bearer abc") ≡ text "abc")
    × (extract_token (some []) (text "Basic abc") ≡ [])
    × (extract_token (some (text "x")) (text "Bearer abc") ≡ text "x")
unfolding extract_token
extract_token_tests = (refl, refl, refl)

ann_token : (auth calm 3600 (text "t1") acme).access ≡ passed ann 11 (text "t1")
unfolding auth hash_token hex_encode first least text_eq
ann_token = refl

auth_tests :
    ((auth calm 3600 (text "t2") acme).access ≡ denied (fail 401 "Session expired or invalid"))
    × ((auth calm 3600 (text "t3") acme).access ≡ denied (fail 403 "Account suspended"))
    × ((auth calm 3600 (text "t1") acme).expires_header ≡ some (3700 * second + 1))
unfolding auth hash_token hex_encode first least text_eq
auth_tests = (refl, refl, refl)

auth_passes_only_example :
    (s : Session) × IsSignedIn calm (text "t1") acme ann s × (11 ≡ s.id) × (text "t1" ≡ text "t1")
auth_passes_only_example = auth_passes_only calm 3600 (text "t1") acme ann 11 (text "t1") ann_token

ann-IsSignedIn : IsSignedIn calm (text "t1") acme ann (session_of 11 1 (text "t1") (200 * second))
unfolding hash_token hex_encode text_eq
ann-IsSignedIn = record {
  session = inl refl;
  hash = refl;
  unexpired = omega arith;
  account = inl refl;
  owner = refl;
  active = refl;
}

only_ann :
    (r : Session)
    → Has r sessions
    → text_eq r.token_hash (hash_token calm.sha256 (text "t1")) ≡ true
    → r.user_id ≡ 1
unfolding hash_token hex_encode text_eq
only_ann r (inl e) h = ground arith
only_ann r (inr (inl e)) h = ground arith
only_ann r (inr (inr (inl e))) h = ground arith
only_ann r (inr (inr (inr (inl e)))) h = ground arith
only_ann r (inr (inr (inr (inr e)))) h = absurd e

auth_extends_example :
    let db' = (auth calm 3600 (text "t1") acme).db in
    (db' ≡ record acme { sessions = db'.sessions }) × ExtendsAll sessions db'.sessions
auth_extends_example =
    auth_extends calm 3600 (text "t1") acme (omega arith) (omega arith)
      (refl, (refl, (refl, (refl, tt))))
