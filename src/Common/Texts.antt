-- ===== src/Common/Texts.antt =====
-- Go strings as lists of numbers, with the parts of package strings that the source calls.
-- A text is the list of its code points; where the source counts or cuts bytes, the file says so.
use Prim.Native.Nat.{ℕ}
use Prim.Native.Char.{code}
use Prim.Native.String.{String}
use mathlib.Core.Path.{◌≡◌, refl}
use mathlib.Core.Logic.{◌↔◌}
use mathlib.Core.Bool.{Bool, true, false, ◌&&◌, ◌||◌}
use mathlib.Core.Option.{Option, none, some}
use mathlib.Core.List.{List, [], ◌∷◌, reverse}
use native.Mathlib.Omega.{arith}
use librelock_server.Common.Tests.{is_some, ◌==◌, leb, if◌then◌else◌}

abbrev pub Text : Type 0
Text = List ℕ

-- The code points of a literal.
abbrev pub text : String → Text
text String.[] = []
text (String.◌∷◌ c s) = code c ∷ text s

unfoldable pub text_eq : Text → Text → Bool
text_eq [] [] = true
text_eq (a ∷ s) (b ∷ t) = a == b && text_eq s t
text_eq _ _ = false

pub text_eq_refl : (s : Text) → text_eq s s ≡ true
unfolding text_eq
text_eq_refl [] = refl
text_eq_refl (a ∷ s) = ground (arith, text_eq_refl s)

text_eq_sound : (s t : Text) → text_eq s t ≡ true → s ≡ t
unfolding text_eq
text_eq_sound [] [] h = refl
text_eq_sound (a ∷ s) (b ∷ t) h = ground (arith, text_eq_sound s t)
text_eq_sound [] (b ∷ t) h = cc
text_eq_sound (a ∷ s) [] h = cc

pub text_eq_iff : (s t : Text) → (text_eq s t ≡ true) ↔ (s ≡ t)
text_eq_iff s t = (text_eq_sound s t, λ e. rw e (text_eq_refl t))

abbrev pub is_empty : Text → Bool
is_empty [] = true
is_empty (_ ∷ _) = false

-- `strings.HasPrefix` and `strings.TrimPrefix`
abbrev pub trim_prefix : Text → Text → Option Text
trim_prefix [] s = some s
trim_prefix (c ∷ p) [] = none
trim_prefix (c ∷ p) (d ∷ s) = if c == d then trim_prefix p s else none

-- What precedes and what follows the first occurrence of a character: `strings.IndexByte`.
abbrev cons_cut : ℕ → Option (Text × Text) → Option (Text × Text)
cons_cut c none = none
cons_cut c (some (before, after)) = some (c ∷ before, after)

abbrev pub cut : ℕ → Text → Option (Text × Text)
cut at [] = none
cut at (c ∷ s) = let rest = cut at s in if c == at then some ([], s) else cons_cut c rest

-- `strings.SplitN(s, sep, 2)[0]`
abbrev pub before : ℕ → Text → Text
before at [] = []
before at (c ∷ s) = let rest = before at s in if c == at then [] else c ∷ rest

-- `strings.Contains`
abbrev pub contains : Text → Text → Bool
contains part [] = is_empty part
contains part (c ∷ s) = is_some (trim_prefix part (c ∷ s)) || contains part s

abbrev prepend : ℕ → List Text → List Text
prepend c [] = (c ∷ []) ∷ []
prepend c (p ∷ parts) = (c ∷ p) ∷ parts

-- strings.Split at one character
unfoldable pub split_on : ℕ → Text → List Text
split_on sep [] = [] ∷ []
split_on sep (c ∷ s) = if c == sep then [] ∷ split_on sep s else prepend c (split_on sep s)

-- unicode.IsSpace
unfoldable pub is_space : ℕ → Bool
is_space c =
    leb 9 c && leb c 13
    || c == 32
    || c == 133
    || c == 160
    || c == 5760
    || leb 8192 c && leb c 8202
    || c == 8232
    || c == 8233
    || c == 8239
    || c == 8287
    || c == 12288

unfoldable pub trim_left : Text → Text
trim_left [] = []
trim_left (c ∷ s) = if is_space c then trim_left s else c ∷ s

-- strings.TrimSpace
unfoldable pub trim_space : Text → Text
unfolding trim_left
trim_space s = reverse (trim_left (reverse (trim_left s)))
