-- ===== src/Crypto/Base64/Padded.antt =====
-- encoding/base64: `StdEncoding`, with padding.

use librelock_server.Common.{
  ◌==◌, if◌then◌else◌, All, filter, Text, is_empty, ℕ, ◌*◌, ◌%◌, ◌<◌, ◌≡◌, refl, ap, ◌∙◌, true,
  false, not, Option, none, some, List, [], ◌∷◌, ◌++◌, map, arith,
}
use librelock_server.Crypto.Base64.{
  is_line_break, decode_digits, join_digits, decode_digit, encode_digit, split_bytes,
  encode_digit-IsPlain, decode_digits-map, join_digits-split_bytes, split_bytes-All,
}

-- Each quantum is four characters, the last one padded.
decode_raw : Text → Option (List ℕ)
decode_raw s = elim (decode_digits s) [ none ↦ none | some digits ↦ join_digits digits ]

abbrev append_bytes : Option (List ℕ) → Option (List ℕ) → Option (List ℕ)
append_bytes none _ = none
append_bytes (some bytes) none = none
append_bytes (some bytes) (some more) = some (bytes ++ more)

decode_quanta : Text → Option (List ℕ)
decode_quanta [] = some []
decode_quanta (a ∷ b ∷ c ∷ d ∷ s) = elim (d == 61) [
  | true ↦
      if is_empty s
      then (if c == 61 then decode_raw (a ∷ b ∷ []) else decode_raw (a ∷ b ∷ c ∷ []))
      else none
  | false ↦ append_bytes (decode_raw (a ∷ b ∷ c ∷ d ∷ [])) (decode_quanta s)
]
decode_quanta _ = none

unfoldable pub base64_decode_padded : Text → Option (List ℕ)
unfolding decode_quanta decode_raw decode_digits join_digits decode_digit
base64_decode_padded s = decode_quanta (filter (λ c. not (is_line_break c)) s)

unfoldable pub base64_encode_padded : List ℕ → Text
unfolding split_bytes encode_digit
base64_encode_padded [] = []
base64_encode_padded (a ∷ []) = map encode_digit (split_bytes (a ∷ [])) ++ 61 ∷ 61 ∷ []
base64_encode_padded (a ∷ b ∷ []) = map encode_digit (split_bytes (a ∷ b ∷ [])) ++ 61 ∷ []
base64_encode_padded (a ∷ b ∷ c ∷ bytes) =
    map encode_digit (split_bytes (a ∷ b ∷ c ∷ [])) ++ base64_encode_padded bytes

-- A character that encodes is not the padding.
encode_digit-unpadded : (d : ℕ) → d < 64 → encode_digit d == 61 ≡ false
unfolding encode_digit
encode_digit-unpadded d h = ground arith

decode_raw-split :
    (bytes : List ℕ)
    → All (λ b. b < 256) bytes
    → decode_raw (map encode_digit (split_bytes bytes)) ≡ some bytes
unfolding decode_raw
decode_raw-split bytes h = ground (
  arith,
  decode_digits-map (split_bytes bytes) (split_bytes-All bytes h),
  join_digits-split_bytes bytes h,
)

-- No line break stands among the characters of digits.
unbroken_digits :
    (ds : List ℕ) (s : Text)
    → All (λ d. d < 64) ds
    → filter (λ c. not (is_line_break c)) (map encode_digit ds ++ s)
      ≡ map encode_digit ds ++ filter (λ c. not (is_line_break c)) s
unbroken_digits [] s h = refl
unbroken_digits (d ∷ ds) s (h, hs) = rw ((encode_digit-IsPlain d h).0, unbroken_digits ds s hs)

unbroken :
    (bytes : List ℕ)
    → All (λ b. b < 256) bytes
    → filter (λ c. not (is_line_break c)) (base64_encode_padded bytes) ≡ base64_encode_padded bytes
unfolding base64_encode_padded
unbroken [] h = refl
unbroken (a ∷ []) h =
    unbroken_digits (split_bytes (a ∷ [])) (61 ∷ 61 ∷ []) (split_bytes-All (a ∷ []) h)
unbroken (a ∷ b ∷ []) h =
    unbroken_digits (split_bytes (a ∷ b ∷ [])) (61 ∷ []) (split_bytes-All (a ∷ b ∷ []) h)
unbroken (a ∷ b ∷ c ∷ bytes) (ha, (hb, (hc, h))) =
    unbroken_digits (split_bytes (a ∷ b ∷ c ∷ [])) (base64_encode_padded bytes)
      (split_bytes-All (a ∷ b ∷ c ∷ []) (ha, (hb, (hc, tt))))
    ∙ ap (λ s. map encode_digit (split_bytes (a ∷ b ∷ c ∷ [])) ++ s) (unbroken bytes h)

quanta-encode :
    (bytes : List ℕ)
    → All (λ b. b < 256) bytes
    → decode_quanta (base64_encode_padded bytes) ≡ some bytes
unfolding base64_encode_padded decode_quanta split_bytes
quanta-encode [] h = refl
quanta-encode (a ∷ []) h = decode_raw-split (a ∷ []) h
quanta-encode (a ∷ b ∷ []) h =
    rw (encode_digit-unpadded (b % 16 * 4) (omega arith)) (decode_raw-split (a ∷ b ∷ []) h)
quanta-encode (a ∷ b ∷ c ∷ bytes) (ha, (hb, (hc, h))) = ground (
  arith,
  encode_digit-unpadded (c % 64) (omega arith),
  decode_raw-split (a ∷ b ∷ c ∷ []) (ha, (hb, (hc, tt))),
  quanta-encode bytes h,
)

-- Decoding gives back the bytes that were encoded.
pub base64_decode_padded-encode :
    (bytes : List ℕ)
    → All (λ b. b < 256) bytes
    → base64_decode_padded (base64_encode_padded bytes) ≡ some bytes
unfolding base64_decode_padded
base64_decode_padded-encode bytes h = rw (unbroken bytes h) (quanta-encode bytes h)
