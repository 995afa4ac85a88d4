-- ===== src/Env.antt =====
-- What one call of a handler meets from outside: which of its database statements fail, the
-- clock, fresh ids, random bytes, and the primitives of the cryptographic packages. Statements,
-- readings of the clock, ids and reads are numbered from 0 within the call, in the order of the code.
use librelock_server.Common.{ℕ, ◌*◌, Bool, List, Text}
use librelock_server.Crypto.Password.{IdKey}

pub record Env : Type 0 where
  pub fault : ℕ → Bool
  -- nanoseconds
  pub clock : ℕ → ℕ
  pub uuid : ℕ → ℕ
  pub random : ℕ → List ℕ
  pub sha256 : List ℕ → List ℕ
  pub hmac : Text → Text → List ℕ
  pub id_key : IdKey
  -- the bytes of the User-Agent header, and gin's ClientIP
  pub user_agent : Text
  pub client_ip : Text

abbrev pub second : ℕ
second = 1_000_000_000

abbrev pub hour : ℕ
hour = 3600 * second
