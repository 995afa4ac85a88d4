-- ===== src/Configuration/Tests.antt =====
-- A few environments.
use librelock_server.Common.{
  Text, text, text_eq, is_space, trim_space, ◌≡◌, refl, true, false, [], ◌∷◌,
}
use librelock_server.Common.Numbers.{negsuc, pos}
use librelock_server.Configuration.{Environment, load}

abbrev nothing_set : Environment
nothing_set key = []

abbrev all_set : Text → Environment
all_set value key = value

defaults : load nothing_set ≡ record {
  port = text "8000";
  db_path = text "data/librelock.db";
  token_ttl = pos 3600;
  app_env = text "development";
  allowed_origin = text "http://localhost:1401";
  upgrade_backups = true;
  trusted_proxies = [];
}
unfolding load librelock_server.Configuration.get_env librelock_server.Configuration.get_env_int
    librelock_server.Configuration.get_env_bool librelock_server.Configuration.get_env_list
defaults = refl

read_back :
    ((load (all_set (text "-5"))).token_ttl ≡ negsuc 4)
    × ((load (all_set (text "5s"))).token_ttl ≡ pos 3600)
    × ((load (all_set (text "F"))).upgrade_backups ≡ false)
    × ((load (all_set (text "no"))).upgrade_backups ≡ true)
    × ((load (all_set (text " a, ,b"))).trusted_proxies ≡ text "a" ∷ text "b" ∷ [])
unfolding load librelock_server.Configuration.get_env_int librelock_server.Common.Numbers.atoi
    librelock_server.Configuration.get_env_bool librelock_server.Configuration.parse_bool text_eq
    librelock_server.Configuration.get_env_list librelock_server.Common.split_on trim_space is_space
read_back = (refl, refl, refl, refl, refl)
