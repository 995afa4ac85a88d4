-- ===== src/Crypto/Password.antt =====
-- crypto/password.go. The key derivation of golang.org/x/crypto/argon2 is an argument; the salt is
-- the one that was drawn. Waiting for a hash slot changes no result.
pub mod Laws
use librelock_server.Common.{
  split_on, if◌then◌else◌, length, Text, text, text_eq, ℕ, ◌*◌, ◌%◌, Bool, Option, none, some, List,
  [], ◌∷◌, ◌++◌, trim_prefix,
}
use librelock_server.Common.Numbers.{decimal, scan_uint}
use librelock_server.Crypto.Base64.{base64_encode, base64_decode}

-- `argon2.IDKey(password, salt, time, memory, threads, keyLen)`
abbrev pub IdKey : Type 0
IdKey = Text → List ℕ → ℕ → ℕ → ℕ → ℕ → List ℕ

abbrev pub argon2_memory : ℕ
argon2_memory = 64 * 1024

abbrev pub argon2_iterations : ℕ
argon2_iterations = 4

abbrev pub argon2_parallelism : ℕ
argon2_parallelism = 1

abbrev pub argon2_key_len : ℕ
argon2_key_len = 32

-- "m=%d,t=%d,p=%d"
unfoldable pub format_params : ℕ → ℕ → ℕ → Text
unfolding decimal
format_params m t p =
    text "m=" ++ (decimal m ++ (text ",t=" ++ (decimal t ++ (text ",p=" ++ decimal p))))

-- `HashPassword`, after the salt is read
unfoldable pub hash_password : IdKey → List ℕ → Text → Text
unfolding format_params
hash_password id_key salt password =
    let hash =
      id_key password salt argon2_iterations argon2_memory argon2_parallelism argon2_key_len in
    text "$argon2id$v=19$"
    ++ (format_params argon2_memory argon2_iterations argon2_parallelism
        ++ (b'$' ∷ (base64_encode salt ++ b'$' ∷ base64_encode hash)))

infixl 5 ◌>>=◌
abbrev ◌>>=◌ {ℓ κ} : {A : Type ℓ} {B : Type κ} → Option A → (A → Option B) → Option B
none >>= k = none
some a >>= k = k a

-- `fmt.Sscanf(parts[3], "m=%d,t=%d,p=%d", &m, &t, &p)`
unfoldable pub scan_params : Text → Option (ℕ × ℕ × ℕ)
unfolding scan_uint
scan_params s = do
  s1 ← trim_prefix (text "m=") s
  (m, s2) ← scan_uint 4_294_967_296 s1
  s3 ← trim_prefix (text ",t=") s2
  (t, s4) ← scan_uint 4_294_967_296 s3
  s5 ← trim_prefix (text ",p=") s4
  (p, s6) ← scan_uint 256 s5
  some (m, t, p)

-- What follows the check of the format.
unfoldable pub verify_parts : IdKey → Text → Text → Text → Text → Option Bool
verify_parts id_key password params salt hash = do
  (m, t, p) ← scan_params params
  salt_bytes ← base64_decode salt
  hash_bytes ← base64_decode hash
  some (text_eq (id_key password salt_bytes t m p (length hash_bytes % 4_294_967_296)) hash_bytes)

unfoldable pub verify_split : IdKey → Text → List Text → Option Bool
verify_split id_key password (_ ∷ kind ∷ _ ∷ params ∷ salt ∷ hash ∷ []) =
    if text_eq kind (text "argon2id") then verify_parts id_key password params salt hash else none
verify_split id_key password _ = none

-- `VerifyPassword`; `none` is an error.
unfoldable pub verify_password : IdKey → Text → Text → Option Bool
unfolding verify_split
verify_password id_key password encoded = verify_split id_key password (split_on b'$' encoded)
