-- ===== src/Crypto/Password/Laws.antt =====
-- Checking a candidate against a stored hash.
use librelock_server.Common.{
  split_on, ◌==◌, All, length, Text, text, text_eq, text_eq_refl, ℕ, ◌<◌, ◌≡◌, refl, false, some,
  List, [], ◌∷◌, ◌++◌, arith,
}
use librelock_server.Common.Numbers.{scan_uint}
use librelock_server.Crypto.Base64.{base64_encode, base64_decode-encode, base64_encode-All}
use librelock_server.Crypto.Password.{
  IdKey, argon2_memory, argon2_iterations, argon2_parallelism, argon2_key_len, hash_password,
  scan_params, verify_split, verify_parts, verify_password,
}

abbrev HasNo : ℕ → Text → Type 0
HasNo sep s = All (λ c. c == sep ≡ false) s

split_on-part :
    (sep : ℕ) (a s : Text) → HasNo sep a → split_on sep (a ++ sep ∷ s) ≡ a ∷ split_on sep s
unfolding split_on
split_on-part sep [] s h = ground arith
split_on-part sep (c ∷ a) s (h, hs) = ground (arith, split_on-part sep a s hs)

split_on-last : (sep : ℕ) (a : Text) → HasNo sep a → split_on sep a ≡ a ∷ []
unfolding split_on
split_on-last sep [] h = refl
split_on-last sep (c ∷ a) (h, hs) = ground (arith, split_on-last sep a hs)

abbrev default_params : Text
default_params = text "m=65536,t=4,p=1"

scan_params-default :
    scan_params default_params ≡ some (argon2_memory, argon2_iterations, argon2_parallelism)
unfolding scan_params scan_uint
scan_params-default = refl

split_on-hash :
    (salt hash : Text)
    → HasNo b'$' salt
    → HasNo b'$' hash
    → split_on b'$' (text "$argon2id$v=19$m=65536,t=4,p=1$" ++ (salt ++ b'$' ∷ hash))
      ≡ [] ∷ text "argon2id" ∷ text "v=19" ∷ default_params ∷ salt ∷ hash ∷ []
unfolding split_on
split_on-hash salt hash h k = simp (split_on-part b'$' salt hash h, split_on-last b'$' hash k)

module _ (id_key : IdKey) where
  unfoldable pub derived : Text → List ℕ → List ℕ
  derived password salt =
      id_key password salt argon2_iterations argon2_memory argon2_parallelism argon2_key_len

  hash_password-eq :
      (salt : List ℕ) (password : Text)
      → hash_password id_key salt password
        ≡ text "$argon2id$v=19$m=65536,t=4,p=1$"
          ++ (base64_encode salt ++ b'$' ∷ base64_encode (derived password salt))
  unfolding hash_password derived
  hash_password-eq salt password = refl

  verify_parts-default :
      (salt hash : List ℕ) (candidate : Text)
      → All (λ b. b < 256) salt
      → All (λ b. b < 256) hash
      → length hash ≡ argon2_key_len
      → verify_parts id_key candidate default_params (base64_encode salt) (base64_encode hash)
        ≡ some (text_eq (derived candidate salt) hash)
  unfolding verify_parts derived
  verify_parts-default salt hash candidate hs hh len =
      rw (scan_params-default, base64_decode-encode salt hs, base64_decode-encode hash hh, len) refl

  -- Checking a candidate against the hash made of a password is never an error, and accepts
  -- exactly where the candidate and the password derive the same key under that salt, if the salt
  -- and the derived key are bytes and the key has the length that was asked for.
  pub verify_password-hash_password :
      (salt : List ℕ) (password candidate : Text)
      → All (λ b. b < 256) salt
      → All (λ b. b < 256) (derived password salt)
      → length (derived password salt) ≡ argon2_key_len
      → verify_password id_key candidate (hash_password id_key salt password)
        ≡ some (text_eq (derived candidate salt) (derived password salt))
  unfolding verify_password verify_split verify_parts derived
  verify_password-hash_password salt password candidate hs hd len =
      let hash = derived password salt in
      rw
        (
          hash_password-eq salt password,
          split_on-hash (base64_encode salt) (base64_encode hash) (base64_encode-All salt hs)
              (base64_encode-All hash hd),
          text_eq_refl (text "argon2id"),
        )
        (verify_parts-default salt hash candidate hs hd len)
