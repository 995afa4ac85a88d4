-- ===== src/Crypto/Hex.antt =====
-- encoding/hex: two lower-case digits for each byte.
use librelock_server.Common.{
  ltb, leb, if◌then◌else◌, All, length, Text, ℕ, ◌+◌, ◌*◌, ◌/◌, ◌%◌, ◌<◌, ◌≡◌, refl, Bool, true,
  ◌&&◌, ◌||◌, List, [], ◌∷◌, arith,
}

abbrev hex_digit : ℕ → ℕ
hex_digit d = if ltb d 10 then 48 + d else 87 + d

unfoldable pub hex_encode : List ℕ → Text
hex_encode [] = []
hex_encode (b ∷ bytes) = hex_digit (b / 16) ∷ hex_digit (b % 16) ∷ hex_encode bytes

abbrev pub is_hex_digit : ℕ → Bool
is_hex_digit c = leb 48 c && leb c 57 || leb 97 c && leb c 102

pub length-hex_encode : (bytes : List ℕ) → length (hex_encode bytes) ≡ 2 * length bytes
unfolding hex_encode
length-hex_encode [] = refl
length-hex_encode (b ∷ bytes) = omega (arith, length-hex_encode bytes)

pub hex_encode-All :
    (bytes : List ℕ)
    → All (λ b. b < 256) bytes
    → All (λ c. is_hex_digit c ≡ true) (hex_encode bytes)
unfolding hex_encode
hex_encode-All [] h = tt
hex_encode-All (b ∷ bytes) (h, hs) = (ground arith, (ground arith, hex_encode-All bytes hs))
