-- ===== src/Handlers/Organization/Permits.antt =====
-- What the shared settings permit the members.
use librelock_server.Common.{
  Bool-cases, ◌≡◌, refl, inl, inr, Bool, true, false, ◌&&◌, Option, none, some, List, ◌∷◌, arith,
}
use librelock_server.AppMode.{Provider}
use librelock_server.Env.{Env}
use librelock_server.Handlers.Helpers.{
  permits_shared, can_manage_shared, can_edit_shared, can_curate_shared,
}
use librelock_server.Handlers.Organization.Effects.{Loaded, change-writes}
use librelock_server.Handlers.Organization.Policy.{
  set_shared, update_shared_settings, SharedSettings, has_setting, or_kept,
}
use librelock_server.Handlers.Organization.Row.{change}
use librelock_server.Models.{User, Db, Organization, is_admin_role, shared_settings_changed}

-- What a setting is after a request: as asked, or as it was where the request leaves it out.
abbrev pub IsApplied : Option Bool → Bool → Bool → Type 0
IsApplied none old new = new ≡ old
IsApplied (some b) old new = new ≡ b

-- What the permission check answers a member, by the setting: a search that fails permits nothing.
abbrev pub MemberMay : User → Db → (Organization → Bool) → Bool → Type 0
MemberMay v db allowed setting =
    (permits_shared false v db allowed ≡ setting) × (permits_shared true v db allowed ≡ false)

permits_row :
    (v : User) (db : Db) (o : Organization) (os : List Organization) (allowed : Organization → Bool)
    → is_admin_role v.role ≡ false
    → db.organization ≡ some (o ∷ os)
    → MemberMay v db allowed (allowed o)
unfolding permits_shared
permits_row v db o os allowed plain l = (rw (plain, l) refl, rw plain refl)

or_kept-IsApplied : (asked : Option Bool) (old : Bool) → IsApplied asked old (or_kept asked old)
or_kept-IsApplied none old = refl
or_kept-IsApplied (some b) old = refl

settings-change :
    (env : Env) (u : User) (p : Provider) (r : SharedSettings) (db : Db)
    → (update_shared_settings env u p (some r) db).0.status ≡ 200
    → update_shared_settings env u p (some r) db
      ≡ change env u p "Failed to update settings" shared_settings_changed (set_shared r) db
unfolding update_shared_settings
settings-change env u p r db ok = elim (Bool-cases (has_setting r)) [
  | inl given ↦ rw given refl
  | inr nothing ↦ absurd (ground arith)
]

-- After an update of the shared settings that succeeds, a member who is no administrator may
-- manage or edit the shared entries exactly as the request says for each setting that it names,
-- and as the row said before for each that it leaves out, and may curate the shared categories
-- exactly with both; where the search of the organization by which a permission is checked
-- fails, such a member may do none of it.
pub settings-permits :
    (env : Env) (u v : User) (p : Provider) (r : SharedSettings) (db : Db)
    → is_admin_role v.role ≡ false
    → let out = update_shared_settings env u p (some r) db in
      out.0.status ≡ 200
      → (o : Organization) × (os : List Organization) × Loaded env db o os
        × (manage : Bool) × (edit : Bool) × IsApplied r.member_manage_shared o.member_manage_shared
            manage
        × IsApplied r.member_edit_shared o.member_edit_shared edit
        × MemberMay v out.1 can_manage_shared manage
        × MemberMay v out.1 can_edit_shared edit
        × MemberMay v out.1 can_curate_shared (manage && edit)
unfolding set_shared
settings-permits env u v p r db plain ok =
    let same = settings-change env u p r db ok in
    let (o, os, l, w) =
      change-writes env u p "Failed to update settings" shared_settings_changed (set_shared r) db
        (rw same at ok) in
    rw same (
      o,
      os,
      l,
      or_kept r.member_manage_shared o.member_manage_shared,
      or_kept r.member_edit_shared o.member_edit_shared,
      or_kept-IsApplied r.member_manage_shared o.member_manage_shared,
      or_kept-IsApplied r.member_edit_shared o.member_edit_shared,
      permits_row v _ (set_shared r o) os can_manage_shared plain w,
      permits_row v _ (set_shared r o) os can_edit_shared plain w,
      permits_row v _ (set_shared r o) os can_curate_shared plain w,
    )
