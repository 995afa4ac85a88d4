-- ===== src/Models/First.antt =====
-- What gorm's First finds.
use librelock_server.Common.{
  All, subst, refl, ltb, ◌==◌, ==_iff, ==_refl, Bool-cases, Option-cases, any, filter, least, ℕ,
  ◌≡◌, sym, ap, ◌∙◌, ◌⊎◌, inl, inr, Bool, true, false, some, List, [], ◌∷◌, arith, ◌++◌, update,
}
use librelock_server.Models.{first, has_key}

module _ {A : Type 0} where
  -- The row is in the table.
  abbrev pub Has : A → List A → Type 0
  Has x [] = ⊥
  Has x (y ∷ ys) = (x ≡ y) ⊎ Has x ys

  pub Has-filter :
      (p : A → Bool) (x : A) (xs : List A) → Has x (filter p xs) → Has x xs × (p x ≡ true)
  Has-filter p x [] h = absurd h
  Has-filter p x (y ∷ ys) h = elim (Bool-cases (p y)) [
    | inl e ↦ elim (rw e at h) [
      | inl same ↦ (inl same, ap p same ∙ e)
      | inr later ↦ let (m, t) = Has-filter p x ys later in (inr m, t)
    ]
    | inr e ↦ let (m, t) = Has-filter p x ys (rw e at h) in (inr m, t)
  ]

  pub least-Has :
      (before : A → A → Bool) (x : A) (xs : List A) → least before xs ≡ some x → Has x xs
  unfolding least
  least-Has before x [] e = cc
  least-Has before x (y ∷ ys) e = elim (Option-cases (least before ys)) [
    | inl none_left ↦ inl (ground arith)
    | inr (z, found) ↦ elim (Bool-cases (before z y)) [
      | inl earlier ↦ inr (least-Has before x ys (ground arith))
      | inr later ↦ inl (ground arith)
    ]
  ]

  pub least_exists :
      (before : A → A → Bool) (y : A) (ys : List A) → (x : A) × (least before (y ∷ ys) ≡ some x)
  unfolding least
  least_exists before y ys = elim (Option-cases (least before ys)) [
    | inl none_left ↦ (y, ground arith)
    | inr (z, found) ↦ elim (Bool-cases (before z y)) [
      | inl earlier ↦ (z, ground arith)
      | inr later ↦ (y, ground arith)
    ]
  ]

  module _ (key : A → ℕ) where
    -- The row that is found is in the table and matches.
    pub first-Has :
        (p : A → Bool) (x : A) (xs : List A) → first key p xs ≡ some x → Has x xs × (p x ≡ true)
    unfolding first
    first-Has p x xs e = Has-filter p x xs (least-Has _ x (filter p xs) e)

    filter_nonempty :
        (p : A → Bool) (xs : List A)
        → any p xs ≡ true
        → (y : A) × (ys : List A) × (filter p xs ≡ y ∷ ys)
    filter_nonempty p [] h = cc
    filter_nonempty p (x ∷ xs) h = elim (Bool-cases (p x)) [
      | inl e ↦ (x, filter p xs, rw e)
      | inr e ↦ let (y, ys, same) = filter_nonempty p xs (ground arith) in (y, ys, rw e same)
    ]

    -- If a row matches, one is found.
    pub first_exists :
        (p : A → Bool) (xs : List A) → any p xs ≡ true → (x : A) × (first key p xs ≡ some x)
    unfolding first
    first_exists p xs h =
        let (y, ys, same) = filter_nonempty p xs h in
        let (x, found) = least_exists (λ a b. ltb (key a) (key b)) y ys in (x, rw same found)

    pub any-Has : (p : A → Bool) (x : A) (xs : List A) → Has x xs → p x ≡ true → any p xs ≡ true
    any-Has p x [] h e = absurd h
    any-Has p x (y ∷ ys) h e = elim h [
      | inl same ↦ rw (← same) (rw e)
      | inr later ↦ ground (arith, any-Has p x ys later e)
    ]

    -- No two rows have the same key.
    abbrev pub HasUniqueKeys : List A → Type 0
    HasUniqueKeys [] = Unit
    HasUniqueKeys (x ∷ xs) = (has_key key (key x) xs ≡ false) × HasUniqueKeys xs

    pub same_of_key :
        (x y : A) (xs : List A) → HasUniqueKeys xs → Has x xs → Has y xs → key x ≡ key y → x ≡ y
    same_of_key x y [] u h k e = absurd h
    same_of_key x y (z ∷ zs) (fresh, u) h k e = elim h [
      | inl xz ↦ elim k [
        | inl yz ↦ xz ∙ sym yz
        | inr k' ↦ absurd (clash y z zs fresh k' (ground arith))
      ]
      | inr h' ↦ elim k [
        | inl yz ↦ absurd (clash x z zs fresh h' (ground arith))
        | inr k' ↦ same_of_key x y zs u h' k' e
      ]
    ]
      where
        clash :
            (a b : A) (bs : List A) → has_key key (key b) bs ≡ false → Has a bs → key a ≡ key b → ⊥
        clash a b bs f m s = ground (arith, any-Has (λ r. key r == key b) a bs m)

    -- With unique keys, First by the key of a row of the table finds that row.
    pub first_by_key :
        (x : A) (xs : List A)
        → HasUniqueKeys xs
        → Has x xs
        → first key (λ r. key r == key x) xs ≡ some x
    first_by_key x xs u h =
        let (y, found) =
          first_exists (λ r. key r == key x) xs (any-Has _ x xs h (==_refl (key x))) in
        let (m, e) = first-Has (λ r. key r == key x) y xs found in
        rw found (ap some (same_of_key y x xs u m h ((==_iff (key y) (key x)).0 e)))

module _ {A : Type 0} where
  pub Has_last : (x : A) (xs : List A) → Has x (xs ++ x ∷ [])
  Has_last x [] = inl refl
  Has_last x (y ∷ ys) = inr (Has_last x ys)

  pub Has-append_last : (x y : A) (xs : List A) → Has x (xs ++ y ∷ []) → Has x xs ⊎ (x ≡ y)
  Has-append_last x y [] (inl e) = inr e
  Has-append_last x y [] (inr h) = absurd h
  Has-append_last x y (z ∷ zs) (inl e) = inl (inl e)
  Has-append_last x y (z ∷ zs) (inr h) = elim (Has-append_last x y zs h) [
    | inl m ↦ inl (inr m)
    | inr e ↦ inr e
  ]

  pub Has-append : (x : A) (xs ys : List A) → Has x xs → Has x (xs ++ ys)
  Has-append x [] ys h = absurd h
  Has-append x (z ∷ zs) ys (inl e) = inl e
  Has-append x (z ∷ zs) ys (inr h) = inr (Has-append x zs ys h)

  pub All-Has {κ} : (P : A → Type κ) (x : A) (xs : List A) → All P xs → Has x xs → P x
  All-Has P x [] a h = absurd h
  All-Has P x (y ∷ ys) (p, ps) (inl e) = subst P (sym e) p
  All-Has P x (y ∷ ys) (p, ps) (inr h) = All-Has P x ys ps h

  pub All-of_Has {κ} : (P : A → Type κ) (xs : List A) → ((x : A) → Has x xs → P x) → All P xs
  All-of_Has P [] h = tt
  All-of_Has P (x ∷ xs) h = (h x (inl refl), All-of_Has P xs (λ y m. h y (inr m)))

  pub Has-filter_keeps :
      (p : A → Bool) (x : A) (xs : List A) → p x ≡ true → Has x xs → Has x (filter p xs)
  Has-filter_keeps p x [] t h = absurd h
  Has-filter_keeps p x (y ∷ ys) t (inl e) = rw (ap p (sym e) ∙ t) (inl e)
  Has-filter_keeps p x (y ∷ ys) t (inr m) = elim (Bool-cases (p y)) [
    | inl kept ↦ rw kept (inr (Has-filter_keeps p x ys t m))
    | inr dropped ↦ rw dropped (Has-filter_keeps p x ys t m)
  ]

  pub Has-update_keeps :
      (p : A → Bool) (f : A → A) (x : A) (xs : List A)
      → p x ≡ false
      → Has x xs
      → Has x (update p f xs)
  Has-update_keeps p f x [] t h = absurd h
  Has-update_keeps p f x (y ∷ ys) t (inl e) = rw (ap p (sym e) ∙ t) (inl e)
  Has-update_keeps p f x (y ∷ ys) t (inr m) = inr (Has-update_keeps p f x ys t m)
