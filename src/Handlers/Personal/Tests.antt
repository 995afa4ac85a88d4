-- ===== src/Handlers/Personal/Tests.antt =====
-- Requests of bob on the sample instance.
use librelock_server.Common.{refl}
use librelock_server.Handlers.Personal.Requests.{
  personal, delete_category, list_sessions, delete_sessions,
}
use librelock_server.Handlers.Personal.Filing.{FilesOwn, personal-FilesOwn}
use librelock_server.Handlers.Personal.Isolation.{KeepsOthers, personal-KeepsOthers}
use librelock_server.Handlers.Personal.Replies.{personal-ShowsOwn}
use librelock_server.Handlers.Personal.Shows.{ShowsOwn}
use librelock_server.Samples.{calm, acme, bob}

personal-FilesOwn_example : FilesOwn (personal calm bob 14 (delete_category 21) acme).1
personal-FilesOwn_example = personal-FilesOwn calm bob 14 (delete_category 21) acme (refl, tt)

personal-KeepsOthers_example : KeepsOthers 2 acme (personal calm bob 14 delete_sessions acme).1
personal-KeepsOthers_example =
    personal-KeepsOthers calm bob 14 delete_sessions acme
      ((refl, tt), (refl, tt), (refl, (refl, (refl, (refl, tt))))) (refl, tt)

personal-ShowsOwn_example : ShowsOwn bob (personal calm bob 14 list_sessions acme).0.body
personal-ShowsOwn_example = personal-ShowsOwn calm bob 14 list_sessions acme
