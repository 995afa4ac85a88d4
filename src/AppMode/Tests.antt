-- ===== src/AppMode/Tests.antt =====
-- The mode switch on the sample instance.
use librelock_server.Common.{◌==◌, ◌≡◌, refl, true, false}
use librelock_server.AppMode.{
  Provider, new_provider, enable_organization, revert_to_personal, migrate_org, seed_branding,
  demote_others, promote,
}
use librelock_server.AppMode.Laws.{revert_half_done, IsSoleOwner, enable_succeeds}
use librelock_server.Env.{Env}
use librelock_server.Models.{personal, organization}
use librelock_server.Samples.{calm, toy_env, acme}

abbrev as_org : Provider
as_org = record { mode = organization; open_reg = true }

abbrev as_personal : Provider
as_personal = record { mode = personal; open_reg = false }

-- The third statement, which closes sign-up, fails.
abbrev third_fails : Env
third_fails = toy_env (λ i. i == 2)

enable_tests :
    ((enable_organization calm 2 as_personal acme).ok ≡ true)
    × ((enable_organization calm 9 as_personal acme).ok ≡ false)
unfolding enable_organization migrate_org seed_branding demote_others promote
enable_tests = (refl, refl)

revert_half_done_example :
    let c = revert_to_personal third_fails as_org acme in
    (c.ok ≡ false)
    × (c.provider ≡ as_org)
    × ((later : Env) → later.fault 0 ≡ false → (new_provider later c.db).0.mode ≡ personal)
revert_half_done_example = revert_half_done third_fails as_org acme refl (refl, refl, refl)

enable_succeeds_example :
    let c = enable_organization calm 2 as_personal acme in
    (c.provider ≡ record as_personal { mode = organization })
    × IsSoleOwner 2 c.db.users
    × ((later : Env) → later.fault 0 ≡ false → (new_provider later c.db).0.mode ≡ organization)
unfolding enable_organization migrate_org seed_branding demote_others promote
enable_succeeds_example = enable_succeeds calm 2 as_personal acme refl refl
