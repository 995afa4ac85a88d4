-- ===== src/Handlers/Admins.antt =====
-- Active administrators under the updates and deletions of accounts.
use librelock_server.Common.{
  ◌==◌, ==_iff, Bool-cases, All, any, count, filter, ℕ, ◌+◌, ◌≤◌, ◌<◌, ◌≡◌, refl, subst, inl, inr,
  true, false, not, List, [], ◌∷◌, arith,
}
use librelock_server.Models.{User}
use librelock_server.Models.First.{HasUniqueKeys}
use librelock_server.Handlers.Helpers.{is_active_admin}

-- Somebody can administer the instance.
abbrev pub HasAdmin : List User → Type 0
HasAdmin us = any is_active_admin us ≡ true

any_of_count : (us : List User) → 0 < count is_active_admin us → HasAdmin us
any_of_count [] h = absurd (omega arith)
any_of_count (u ∷ us) h = ground (arith, any_of_count us)

filter_absent :
    (id : ℕ) (us : List User)
    → any (λ v. v.id == id) us ≡ false
    → filter (λ v. not (v.id == id)) us ≡ us
filter_absent id [] h = refl
filter_absent id (u ∷ us) h = ground (arith, filter_absent id us)

-- Deleting one account removes one administrator at most.
count-filter :
    (id : ℕ) (us : List User)
    → HasUniqueKeys User.id us
    → count is_active_admin us ≤ count is_active_admin (filter (λ v. not (v.id == id)) us) + 1
count-filter id [] h = omega arith
count-filter id (u ∷ us) (fresh, h) = elim (Bool-cases (u.id == id)) [
  | inl same ↦
      let gone =
        filter_absent id us
          (subst (λ k. any (λ v. v.id == k) us ≡ false) ((==_iff u.id id).0 same) fresh) in
      rw same (rw gone (ground arith))
  | inr other ↦ ground (arith, count-filter id us h)
]

pub HasAdmin-filter_many :
    (id : ℕ) (us : List User)
    → HasUniqueKeys User.id us
    → 1 < count is_active_admin us
    → HasAdmin (filter (λ v. not (v.id == id)) us)
HasAdmin-filter_many id us h many =
    any_of_count (filter (λ v. not (v.id == id)) us) (omega (arith, count-filter id us h))

-- Deleting accounts that are no active administrators keeps every administrator.
pub HasAdmin-filter_other :
    (id : ℕ) (us : List User)
    → All (λ v. v.id == id ≡ true → is_active_admin v ≡ false) us
    → HasAdmin us
    → HasAdmin (filter (λ v. not (v.id == id)) us)
HasAdmin-filter_other id [] a h = h
HasAdmin-filter_other id (u ∷ us) (p, ps) h = ground (arith, p, HasAdmin-filter_other id us ps)
