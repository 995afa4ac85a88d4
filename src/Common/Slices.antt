-- ===== src/Common/Slices.antt =====
-- Parts of a list: what `take` and `drop` leave.
use Prim.Native.Nat.{ℕ, zero, suc, ◌+◌, ◌≤◌}
use mathlib.Core.Path.{◌≡◌, refl, ap}
use mathlib.Core.List.{List, [], ◌∷◌, ◌++◌}
use native.Mathlib.Omega.{arith}
use librelock_server.Common.Lists.{All, length, take, drop}
use librelock_server.Common.{◌-◌}
use Prim.Native.Nat.{◌-◌}

pub length-take {ℓ} : {A : Type ℓ} (n : ℕ) (xs : List A) → length (take n xs) ≤ n
length-take n [] = omega arith
length-take zero (x ∷ xs) = omega arith
length-take (suc n) (x ∷ xs) = ground (arith, length-take n xs)

pub take-split {ℓ} :
    {A : Type ℓ} (m n : ℕ) (xs : List A) → take m xs ++ take n (drop m xs) ≡ take (m + n) xs
take-split m n [] = refl
take-split zero n (x ∷ xs) = ground arith
take-split (suc m) n (x ∷ xs) = ground (arith, take-split m n xs)

pub drop-drop {ℓ} : {A : Type ℓ} (m n : ℕ) (xs : List A) → drop n (drop m xs) ≡ drop (m + n) xs
drop-drop m n [] = refl
drop-drop zero n (x ∷ xs) = ground arith
drop-drop (suc m) n (x ∷ xs) = ground (arith, drop-drop m n xs)

pub take_all {ℓ} : {A : Type ℓ} (n : ℕ) (xs : List A) → length xs ≤ n → take n xs ≡ xs
take_all n [] h = refl
take_all zero (x ∷ xs) h = absurd (omega arith)
take_all (suc n) (x ∷ xs) h = ap (◌∷◌ x) (take_all n xs (omega arith))

pub take_none {ℓ} : {A : Type ℓ} (xs : List A) → take 0 xs ≡ []
take_none [] = refl
take_none (x ∷ xs) = refl

pub drop_none {ℓ} : {A : Type ℓ} (xs : List A) → drop 0 xs ≡ xs
drop_none [] = refl
drop_none (x ∷ xs) = refl

pub drop_all {ℓ} : {A : Type ℓ} (n : ℕ) (xs : List A) → length xs ≤ n → drop n xs ≡ []
drop_all n [] h = refl
drop_all zero (x ∷ xs) h = absurd (omega arith)
drop_all (suc n) (x ∷ xs) h = drop_all n xs (omega arith)

pub length-drop {ℓ} : {A : Type ℓ} (n : ℕ) (xs : List A) → length (drop n xs) ≡ length xs - n
length-drop n [] = ground arith
length-drop zero (x ∷ xs) = ground arith
length-drop (suc n) (x ∷ xs) = ground (arith, length-drop n xs)

pub All-drop {ℓ κ} :
    {A : Type ℓ} (P : A → Type κ) (n : ℕ) (xs : List A) → All P xs → All P (drop n xs)
All-drop P n [] a = tt
All-drop P zero (x ∷ xs) a = a
All-drop P (suc n) (x ∷ xs) (p, ps) = All-drop P n xs ps
