-- ===== src/Common/Sorts.antt =====
-- A stable sort, which SQL's ORDER BY and package sort stand for, and its laws.
use Prim.Native.Nat.{suc}
use mathlib.Core.Path.{◌≡◌, refl, ap, ◌∙◌}
use mathlib.Core.Logic.{inl, inr}
use mathlib.Core.Bool.{Bool, true, false}
use mathlib.Core.List.{◌++◌, List, [], ◌∷◌, Perm}
use mathlib.Core.List.Perm
use librelock_server.Common.Tests.{if◌then◌else◌, Bool-cases}
use librelock_server.Common.Lists.{All, length}

-- What a strict order must satisfy: `before a b` says that `a` comes first.
pub record Order {ℓ} {A : Type ℓ} (before : A → A → Bool) : Type ℓ where
  pub asym : (a b : A) → before a b ≡ true → before b a ≡ false
  pub trans : (a b c : A) → before b a ≡ false → before c b ≡ false → before c a ≡ false

module _ {ℓ} {A : Type ℓ} (before : A → A → Bool) where
  abbrev pub insert_by : A → List A → List A
  insert_by x [] = x ∷ []
  insert_by x (y ∷ ys) = let rest = insert_by x ys in if before y x then y ∷ rest else x ∷ y ∷ ys

  unfoldable pub sort_by : List A → List A
  sort_by [] = []
  sort_by (x ∷ xs) = insert_by x (sort_by xs)

  abbrev pub IsSorted : List A → Type ℓ
  IsSorted [] = Unit
  IsSorted (x ∷ xs) = All (λ y. before y x ≡ false) xs × IsSorted xs

  All-insert_by {κ} :
      (P : A → Type κ) (x : A) (xs : List A) → P x → All P xs → All P (insert_by x xs)
  All-insert_by P x [] p a = (p, tt)
  All-insert_by P x (y ∷ ys) p (q, qs) = elim (Bool-cases (before y x)) [
    | inl first ↦ rw first (q, All-insert_by P x ys p qs)
    | inr after ↦ rw after (p, (q, qs))
  ]

  -- A sort keeps what holds of every row.
  pub All-sort_by {κ} : (P : A → Type κ) (xs : List A) → All P xs → All P (sort_by xs)
  unfolding sort_by
  All-sort_by P [] a = tt
  All-sort_by P (x ∷ xs) (p, ps) = All-insert_by P x (sort_by xs) p (All-sort_by P xs ps)

  Perm-insert_by : (x : A) (xs : List A) → Perm (insert_by x xs) (x ∷ xs)
  Perm-insert_by x [] = Perm.rfl
  Perm-insert_by x (y ∷ ys) = elim (Bool-cases (before y x)) [
    | inl first ↦ rw first (Perm.trans (Perm.cons y (Perm-insert_by x ys)) (Perm.swap x y ys))
    | inr after ↦ rw after Perm.rfl
  ]

  -- A sort keeps every row as often as it is there.
  pub Perm-sort_by : (xs : List A) → Perm (sort_by xs) xs
  unfolding sort_by
  Perm-sort_by [] = Perm.rfl
  Perm-sort_by (x ∷ xs) = Perm.trans (Perm-insert_by x (sort_by xs)) (Perm.cons x (Perm-sort_by xs))

  length-insert_by : (x : A) (xs : List A) → length (insert_by x xs) ≡ suc (length xs)
  length-insert_by x [] = refl
  length-insert_by x (y ∷ ys) = elim (Bool-cases (before y x)) [
    | inl first ↦ rw first (ap suc (length-insert_by x ys))
    | inr after ↦ rw after refl
  ]

  pub length-sort_by : (xs : List A) → length (sort_by xs) ≡ length xs
  unfolding sort_by
  length-sort_by [] = refl
  length-sort_by (x ∷ xs) = length-insert_by x (sort_by xs) ∙ ap suc (length-sort_by xs)

  All-implies {κ μ} :
      (P : A → Type κ) (Q : A → Type μ) (xs : List A) → ((x : A) → P x → Q x) → All P xs → All Q xs
  All-implies P Q [] f a = tt
  All-implies P Q (x ∷ xs) f (p, ps) = (f x p, All-implies P Q xs f ps)

  module _ (order : Order before) where
    IsSorted-insert_by : (x : A) (xs : List A) → IsSorted xs → IsSorted (insert_by x xs)
    IsSorted-insert_by x [] s = (tt, tt)
    IsSorted-insert_by x (y ∷ ys) (below, s) = elim (Bool-cases (before y x)) [
      | inl first ↦ rw first (
        All-insert_by (λ z. before z y ≡ false) x ys (order.asym y x first) below,
        IsSorted-insert_by x ys s,
      )
      | inr after ↦
          rw after
            ((after, All-implies _ _ ys (λ z p. order.trans x y z after p) below), (below, s))
    ]

    -- A sorted list: nothing later comes before anything earlier.
    pub IsSorted-sort_by : (xs : List A) → IsSorted (sort_by xs)
    unfolding sort_by
    IsSorted-sort_by [] = tt
    IsSorted-sort_by (x ∷ xs) = IsSorted-insert_by x (sort_by xs) (IsSorted-sort_by xs)

  -- What comes before all the others is sorted to the front.
  pub sort_by-last :
      (x : A) (xs : List A)
      → All (λ y. before x y ≡ true) xs
      → sort_by (xs ++ x ∷ []) ≡ x ∷ sort_by xs
  unfolding sort_by
  sort_by-last x [] a = refl
  sort_by-last x (y ∷ ys) (p, ps) = rw (sort_by-last x ys ps, p) refl
