-- ===== src/Handlers/Settings/Instance/Tests.antt =====
-- The settings of the instance on the sample.
use librelock_server.Common.{All, text_eq, ◌≡◌, refl, ◌⊎◌, true, false, some}
use librelock_server.Models.{personal, organization}
use librelock_server.AppMode.{Provider}
use librelock_server.AppMode.Laws.{HasNoOrgTables, IsStored}
use librelock_server.Handlers.Settings.Instance.{SwitchRequest, switch_mode, revert}
use librelock_server.Handlers.Settings.Instance.Laws.{MaySwitch, switch_mode_only, revert-alone}
use librelock_server.Samples.{calm, eve, eves, secret}

abbrev running : Provider
running = record { mode = organization; open_reg = true }

abbrev at_home : Provider
at_home = record { mode = personal; open_reg = false }

abbrev back : SwitchRequest
back = record { mode = personal; auth_credential = secret }

switch_mode_only_example :
    MaySwitch calm eve back running eves
    ⊎ (((switch_mode calm eve (some back) running eves).provider ≡ running)
        × ((switch_mode calm eve (some back) running eves).db ≡ eves))
switch_mode_only_example = switch_mode_only calm eve back running eves

revert_ok : (revert calm eve secret running eves).reply.status ≡ 200
unfolding revert librelock_server.Handlers.Settings.Instance.confirm_password
    librelock_server.Crypto.Password.verify_password librelock_server.Common.split_on
    librelock_server.Crypto.Password.hash_password librelock_server.Crypto.Base64.base64_encode
    text_eq librelock_server.Crypto.Password.verify_parts
    librelock_server.Crypto.Password.scan_params librelock_server.Crypto.Base64.base64_decode
    librelock_server.AppMode.revert_to_personal librelock_server.Models.delete_users
revert_ok = refl

revert-alone_example :
    let out = revert calm eve secret running eves in
    (out.provider ≡ at_home)
    × All (λ v. v.id ≡ 4) out.db.users
    × HasNoOrgTables out.db
    × IsStored out.provider out.db
revert-alone_example = revert-alone calm eve secret running eves refl revert_ok
