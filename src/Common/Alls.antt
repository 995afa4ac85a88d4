-- ===== src/Common/Alls.antt =====
-- What holds of all the rows of a table, through the statements on it.
use librelock_server.Common.Lists.{All, update, filter}
use librelock_server.Common.Tests.{Bool-cases}
use mathlib.Core.Logic.{inl, inr}
use mathlib.Core.Bool.{Bool, true}
use mathlib.Core.List.{List, [], ◌∷◌, ◌++◌}

module _ {A : Type 0} (P : A → Type 0) where
  pub All-append_last : (xs : List A) (y : A) → All P xs → P y → All P (xs ++ y ∷ [])
  All-append_last [] y a p = (p, tt)
  All-append_last (x ∷ xs) y (q, qs) p = (q, All-append_last xs y qs p)

  pub All-filter : (t : A → Bool) (xs : List A) → All P xs → All P (filter t xs)
  All-filter t [] a = tt
  All-filter t (x ∷ xs) (p, ps) = elim (Bool-cases (t x)) [
    | inl kept ↦ rw kept (p, All-filter t xs ps)
    | inr dropped ↦ rw dropped (All-filter t xs ps)
  ]

  pub All-update_const :
      (t : A → Bool) (y : A) (xs : List A) → All P xs → P y → All P (update t (λ _. y) xs)
  All-update_const t y [] a p = tt
  All-update_const t y (x ∷ xs) (q, qs) p = elim (Bool-cases (t x)) [
    | inl here ↦ rw here (p, All-update_const t y xs qs p)
    | inr other ↦ rw other (q, All-update_const t y xs qs p)
  ]

module _ {A : Type 0} (P Q : A → Type 0) (into : (x : A) → P x → Q x) where
  pub All-map : (xs : List A) → All P xs → All Q xs
  All-map [] a = tt
  All-map (x ∷ xs) (p, ps) = (into x p, All-map xs ps)

module _ {A : Type 0} (P Q : A → Type 0) (f : A → A) (into : (x : A) → P x → Q (f x)) where
  pub All-update_every : (xs : List A) → All P xs → All Q (update (λ x. true) f xs)
  All-update_every [] a = tt
  All-update_every (x ∷ xs) (p, ps) = (into x p, All-update_every xs ps)
