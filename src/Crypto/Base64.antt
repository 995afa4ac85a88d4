-- ===== src/Crypto/Base64.antt =====
-- encoding/base64: `RawStdEncoding`, with no padding. Its decoder skips line breaks and does not
-- look at the bits left over.
pub mod Padded
use librelock_server.Common.{
  ltb, leb, ◌==◌, if◌then◌else◌, All, filter, Text, ℕ, ◌+◌, ◌-◌, ◌*◌, ◌/◌, ◌%◌, ◌<◌, ◌≡◌, refl,
  Bool, false, not, ◌&&◌, ◌||◌, Option, none, some, List, [], ◌∷◌, map, arith,
}

-- The character of a value below 64.
encode_digit : ℕ → ℕ
encode_digit d =
    if ltb d 26
    then 65 + d
    else if ltb d 52
    then 71 + d
    else if ltb d 62
    then d - 4
    else if d == 62
    then 43
    else 47

decode_digit : ℕ → Option ℕ
decode_digit c =
    if leb 65 c && leb c 90
    then some (c - 65)
    else if leb 97 c && leb c 122
    then some (c - 71)
    else if leb 48 c && leb c 57
    then some (c + 4)
    else if c == 43
    then some 62
    else if c == 47
    then some 63
    else none

-- Three bytes are four values below 64, the first bits first.
split_bytes : List ℕ → List ℕ
split_bytes [] = []
split_bytes (a ∷ []) = (a / 4) ∷ (a % 4 * 16) ∷ []
split_bytes (a ∷ b ∷ []) = (a / 4) ∷ (a % 4 * 16 + b / 16) ∷ (b % 16 * 4) ∷ []
split_bytes (a ∷ b ∷ c ∷ bytes) =
    (a / 4) ∷ (a % 4 * 16 + b / 16) ∷ (b % 16 * 4 + c / 64) ∷ (c % 64) ∷ split_bytes bytes

unfoldable pub base64_encode : List ℕ → Text
unfolding split_bytes encode_digit
base64_encode bytes = map encode_digit (split_bytes bytes)

decode_digits : Text → Option (List ℕ)
decode_digits [] = some []
decode_digits (c ∷ s) = elim (decode_digit c) [
  | none ↦ none
  | some d ↦ elim (decode_digits s) [ none ↦ none | some ds ↦ some (d ∷ ds) ]
]

join_digits : List ℕ → Option (List ℕ)
join_digits [] = some []
join_digits (p ∷ []) = none
join_digits (p ∷ q ∷ []) = some ((p * 4 + q / 16) ∷ [])
join_digits (p ∷ q ∷ r ∷ []) = some ((p * 4 + q / 16) ∷ (q % 16 * 16 + r / 4) ∷ [])
join_digits (p ∷ q ∷ r ∷ s ∷ digits) = elim (join_digits digits) [
  | none ↦ none
  | some bytes ↦ some ((p * 4 + q / 16) ∷ (q % 16 * 16 + r / 4) ∷ (r % 4 * 64 + s) ∷ bytes)
]

abbrev is_line_break : ℕ → Bool
is_line_break c = c == 10 || c == 13

unfoldable pub base64_decode : Text → Option (List ℕ)
unfolding decode_digits join_digits decode_digit
base64_decode s = elim (decode_digits (filter (λ c. not (is_line_break c)) s)) [
  | none ↦ none
  | some digits ↦ join_digits digits
]

decode_encode_digit : (d : ℕ) → d < 64 → decode_digit (encode_digit d) ≡ some d
unfolding decode_digit encode_digit
decode_encode_digit d h = ground arith

-- A character that encodes is no line break and no dollar sign.
abbrev IsPlain : ℕ → Type 0
IsPlain c = (is_line_break c ≡ false) × (c == 36 ≡ false)

encode_digit-IsPlain : (d : ℕ) → d < 64 → IsPlain (encode_digit d)
unfolding encode_digit
encode_digit-IsPlain d h = (ground arith, ground arith)

split_bytes-All :
    (bytes : List ℕ) → All (λ b. b < 256) bytes → All (λ d. d < 64) (split_bytes bytes)
unfolding split_bytes
split_bytes-All [] h = tt
split_bytes-All (a ∷ []) h = omega arith
split_bytes-All (a ∷ b ∷ []) h = omega arith
split_bytes-All (a ∷ b ∷ c ∷ bytes) (ha, (hb, (hc, h))) =
    (omega arith, (omega arith, (omega arith, (omega arith, split_bytes-All bytes h))))

join_digits-split_bytes :
    (bytes : List ℕ) → All (λ b. b < 256) bytes → join_digits (split_bytes bytes) ≡ some bytes
unfolding join_digits split_bytes
join_digits-split_bytes [] h = refl
join_digits-split_bytes (a ∷ []) h = ground arith
join_digits-split_bytes (a ∷ b ∷ []) h = ground arith
join_digits-split_bytes (a ∷ b ∷ c ∷ bytes) (ha, (hb, (hc, h))) =
    ground (arith, join_digits-split_bytes bytes h)

decode_digits-map :
    (ds : List ℕ) → All (λ d. d < 64) ds → decode_digits (map encode_digit ds) ≡ some ds
unfolding decode_digits
decode_digits-map [] h = refl
decode_digits-map (d ∷ ds) (h, hs) =
    ground (arith, decode_encode_digit d h, decode_digits-map ds hs)

filter-map_encode :
    (ds : List ℕ)
    → All (λ d. d < 64) ds
    → filter (λ c. not (is_line_break c)) (map encode_digit ds) ≡ map encode_digit ds
filter-map_encode [] h = refl
filter-map_encode (d ∷ ds) (h, hs) = rw ((encode_digit-IsPlain d h).0, filter-map_encode ds hs)

-- Decoding gives back the bytes that were encoded.
pub base64_decode-encode :
    (bytes : List ℕ) → All (λ b. b < 256) bytes → base64_decode (base64_encode bytes) ≡ some bytes
unfolding base64_encode base64_decode
base64_decode-encode bytes h =
    let digits = split_bytes-All bytes h in
    ground (
      arith,
      filter-map_encode (split_bytes bytes) digits,
      decode_digits-map (split_bytes bytes) digits,
      join_digits-split_bytes bytes h,
    )

map_encode-All :
    (ds : List ℕ) → All (λ d. d < 64) ds → All (λ c. c == 36 ≡ false) (map encode_digit ds)
map_encode-All [] h = tt
map_encode-All (d ∷ ds) (h, hs) = ((encode_digit-IsPlain d h).1, map_encode-All ds hs)

-- No dollar sign, which separates the parts of a stored hash, is ever written.
pub base64_encode-All :
    (bytes : List ℕ) → All (λ b. b < 256) bytes → All (λ c. c == 36 ≡ false) (base64_encode bytes)
unfolding base64_encode
base64_encode-All bytes h = map_encode-All _ (split_bytes-All bytes h)
