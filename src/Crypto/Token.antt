-- ===== src/Crypto/Token.antt =====
-- crypto/token.go and crypto/kdf.go. The random bytes that the system hands out are an argument,
-- and SHA-256 and HMAC-SHA256 are functions from bytes to bytes that the hashing functions take.
use librelock_server.Common.{
  ltb, leb, ◌==◌, ==_iff, Bool-cases, All, length, count, Text, text, ℕ, zero, suc, ◌+◌, ◌%◌, ◌≤◌,
  ◌<◌, ◌≡◌, refl, inl, inr, Bool, true, false, not, ◌&&◌, ◌||◌, Option, none, some, List, [], ◌∷◌,
  arith,
}
use librelock_server.Crypto.Hex.{hex_encode, length-hex_encode, hex_encode-All, is_hex_digit}

-- `IssueToken`, from the 32 bytes that were read
unfoldable pub issue_token : List ℕ → Text
issue_token bytes = hex_encode bytes

abbrev pub code_alphabet : Text
code_alphabet = text "ABCDEFGHIJKLMNOPQRSTUVWXYZabcdefghijklmnopqrstuvwxyz0123456789"

get_or : ℕ → Text → ℕ → ℕ
get_or d [] i = d
get_or d (c ∷ s) zero = c
get_or d (c ∷ s) (suc i) = get_or d s i

-- `256 - (256 % len(codeAlphabet))`
abbrev pub max_byte : ℕ
max_byte = 248

-- `codeAlphabet[int(buf[0]) % len(codeAlphabet)]`
pub code_char : ℕ → ℕ
unfolding get_or
code_char b = get_or 0 code_alphabet (b % 62)

-- `IssueCode`, on the bytes that successive reads give; `none` if they run out.
unfoldable pub issue_code : ℕ → List ℕ → Option Text
unfolding code_char
issue_code zero bytes = some []
issue_code (suc n) [] = none
issue_code (suc n) (b ∷ bytes) = elim (leb max_byte b) [
  | true ↦ issue_code (suc n) bytes
  | false ↦ elim (issue_code n bytes) [ none ↦ none | some s ↦ some (code_char b ∷ s) ]
]

-- `HashToken`
unfoldable pub hash_token : (List ℕ → List ℕ) → Text → Text
hash_token sha256 token = hex_encode (sha256 token)

-- `DecoyKDFSalt`
unfoldable pub decoy_kdf_salt : (Text → Text → List ℕ) → Text → Text → Text
decoy_kdf_salt hmac secret username = hex_encode (hmac secret username)

abbrev pub accepted : ℕ → Bool
accepted b = ltb b max_byte

-- One of the code alphabet's characters.
abbrev pub is_code_char : ℕ → Bool
is_code_char c = leb 65 c && leb c 90 || leb 97 c && leb c 122 || leb 48 c && leb c 57

-- The test holds for `count` numbers from `start` on.
holds_from : (ℕ → Bool) → (start count : ℕ) → Bool
holds_from test start zero = true
holds_from test start (suc count) = holds_from test (suc start) count && test start

holds_from_lem :
    (test : ℕ → Bool) (start count i : ℕ)
    → start ≤ i
    → i < start + count
    → holds_from test start count ≡ true
    → test i ≡ true
unfolding holds_from
holds_from_lem test start zero i low high h = absurd (omega arith)
holds_from_lem test start (suc count) i low high h = elim (Bool-cases (i == start)) [
  | inl here ↦ rw ((==_iff i start).0 here) (ground arith)
  | inr later ↦ holds_from_lem test (suc start) count i (ground arith) (omega arith) (ground arith)
]

alphabet_table : holds_from (λ i. is_code_char (get_or 0 code_alphabet i)) 0 62 ≡ true
unfolding holds_from get_or
alphabet_table = refl

code_char-is_code_char : (b : ℕ) → is_code_char (code_char b) ≡ true
unfolding code_char
code_char-is_code_char b = holds_from_lem _ 0 62 (b % 62) (omega arith) (omega arith) alphabet_table

-- If at least n of the bytes read pass the rejection test, then a code of n characters comes
-- out, each of the alphabet.
pub issue_code_total :
    (n : ℕ) (bytes : List ℕ)
    → n ≤ count accepted bytes
    → (s : Text) × (issue_code n bytes ≡ some s)
      × (length s ≡ n)
      × All (λ c. is_code_char c ≡ true) s
unfolding issue_code
issue_code_total zero bytes h = ([], refl, refl, tt)
issue_code_total (suc n) [] h = absurd (omega arith)
issue_code_total (suc n) (b ∷ bytes) h = elim (Bool-cases (leb max_byte b)) [
  | inl big ↦
      let (s, e, len, chars) = issue_code_total (suc n) bytes (ground arith) in
      (s, ground arith, len, chars)
  | inr small ↦
      let (s, e, len, chars) = issue_code_total n bytes (ground arith) in
      (code_char b ∷ s, ground arith, omega (arith, len), (code_char-is_code_char b, chars))
]

pub range : ℕ → List ℕ
range zero = []
range (suc n) = n ∷ range n

sources : ℕ → ℕ
sources c = count (λ b. accepted b && code_char b == c) (range 256)

source_table : holds_from (λ c. not (is_code_char c) || sources c == 4) 48 75 ≡ true
unfolding holds_from get_or sources range code_char
source_table = refl

-- The draw of a code's character is uniform: each character of the alphabet comes from exactly
-- four of the bytes that pass the rejection test.
pub code_char_uniform :
    (c : ℕ) → is_code_char c ≡ true → count (λ b. accepted b && code_char b == c) (range 256) ≡ 4
unfolding sources
code_char_uniform c h = ground (
  arith,
  holds_from_lem (λ i. not (is_code_char i) || sources i == 4) 48 75 c (ground arith) (ground arith)
      source_table,
)

-- Every decoy salt has 64 hexadecimal digits, as many as a salt that a client registers has at
-- least, if the digest is 32 bytes.
pub decoy_kdf_salt_shape :
    (hmac : Text → Text → List ℕ) (secret username : Text)
    → length (hmac secret username) ≡ 32
    → All (λ b. b < 256) (hmac secret username)
    → (length (decoy_kdf_salt hmac secret username) ≡ 64)
      × All (λ c. is_hex_digit c ≡ true) (decoy_kdf_salt hmac secret username)
unfolding decoy_kdf_salt
decoy_kdf_salt_shape hmac secret username h bytes =
    (omega (arith, length-hex_encode (hmac secret username)), hex_encode-All _ bytes)
