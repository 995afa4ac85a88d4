-- ===== src/Crypto/Tests.antt =====
-- Runs of the encodings, and the theorems of the package at concrete inputs.
use librelock_server.Common.{
  length, text, text_eq, ℕ, zero, suc, ◌%◌, ◌≡◌, refl, none, some, List, [], ◌∷◌, arith,
}
use librelock_server.Crypto.Base64.{base64_encode, base64_decode}
use librelock_server.Crypto.Hex.{hex_encode}
use librelock_server.Crypto.Token.{issue_code}
use librelock_server.Crypto.Password.{IdKey, hash_password, verify_password}
use librelock_server.Crypto.Password.Laws.{derived, verify_password-hash_password}

base64_tests :
    (base64_encode (102 ∷ 111 ∷ 111 ∷ 98 ∷ []) ≡ text "Zm9vYg")
    × (base64_decode (text "Zm9vYg") ≡ some (102 ∷ 111 ∷ 111 ∷ 98 ∷ []))
    × (base64_decode (text "Zm9vY") ≡ none)
unfolding base64_encode base64_decode
base64_tests = (refl, refl, refl)

hex_test : hex_encode (0 ∷ 171 ∷ []) ≡ text "00ab"
unfolding hex_encode
hex_test = refl

-- The byte 250 is passed over.
issue_code_test : issue_code 2 (0 ∷ 250 ∷ 63 ∷ 7 ∷ []) ≡ some (text "AB")
unfolding issue_code
issue_code_test = refl

-- A toy digest of 32 bytes.
abbrev zeros : ℕ → List ℕ
zeros zero = []
zeros (suc n) = 0 ∷ zeros n

-- A toy key derivation: the number of characters of the password, and 31 zeros.
abbrev toy_key : IdKey
toy_key password salt t m p len = (length password % 256) ∷ zeros 31

verify_password-hash_password_example :
    verify_password toy_key (text "secret") (hash_password toy_key (1 ∷ 2 ∷ []) (text "secret"))
    ≡ some (
        text_eq
          (derived toy_key (text "secret") (1 ∷ 2 ∷ []))
          (derived toy_key (text "secret") (1 ∷ 2 ∷ [])))
unfolding derived
verify_password-hash_password_example =
    verify_password-hash_password toy_key (1 ∷ 2 ∷ []) (text "secret") (text "secret") (omega arith)
      (omega arith) refl
