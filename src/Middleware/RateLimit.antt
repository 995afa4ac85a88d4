-- ===== src/Middleware/RateLimit.antt =====
-- middleware/ratelimit.go. `RateLimit(burst, perSecond)` counts tokens in floats; here a rate is
-- the time `period` in which one token comes back, in nanoseconds, and a bucket holds its tokens
-- times `period`, so that every number is exact. A client is the number of its address.
-- The limiter's lock makes one request at a time, and its clock never steps back.
pub mod Laws
pub mod Bound
pub mod Sweep
mod Tests
use librelock_server.Common.{
  ℕ, ◌+◌, ◌-◌, ◌*◌, ◌/◌, Option, none, some, List, [], ◌∷◌, ltb, leb, ◌==◌, if◌then◌else◌,
}

pub record Bucket : Type 0 where
  pub level : ℕ
  pub last_fill : ℕ

pub record Limiter : Type 0 where
  pub buckets : ℕ → Option Bucket
  pub last_sweep : ℕ

-- `retry_after` is the header's value, in seconds.
pub data Verdict : Type 0 where
  allowed : Verdict
  refused : (retry_after : ℕ) → Verdict

abbrev pub second : ℕ
second = 1_000_000_000

abbrev pub minute : ℕ
minute = 60 * second

pub record Rate : Type 0 where
  pub burst : ℕ
  pub period : ℕ

abbrev pub full : Rate → ℕ
full r = r.burst * r.period

-- `time.Duration(float64(burst)/perSecond) * time.Second`, a minute at least
unfoldable pub idle : Rate → ℕ
idle r =
    let whole = r.burst * r.period / second * second in if ltb whole minute then minute else whole

abbrev pub drop_idle : Rate → ℕ → Option Bucket → Option Bucket
drop_idle r now none = none
drop_idle r now (some b) = if ltb (idle r) (now - b.last_fill) then none else some b

unfoldable pub sweep : Rate → ℕ → Limiter → Limiter
sweep r now l =
    if ltb (idle r) (now - l.last_sweep)
    then record { buckets = λ k. drop_idle r now (l.buckets k); last_sweep = now }
    else l

abbrev pub bucket_or_fresh : Rate → ℕ → Option Bucket → Bucket
bucket_or_fresh r now none = record { level = full r; last_fill = now }
bucket_or_fresh r now (some b) = b

-- `b.tokens += elapsed * perSecond`, at most `burst`
unfoldable pub refill : Rate → ℕ → Bucket → ℕ
refill r now b =
    let level = b.level + (now - b.last_fill) in if ltb (full r) level then full r else level

abbrev pub put : ℕ → Bucket → (ℕ → Option Bucket) → ℕ → Option Bucket
put key b m k = if k == key then some b else m k

-- What follows the sweep.
unfoldable pub serve : Rate → ℕ → ℕ → Limiter → Verdict × Limiter
serve r key now l =
    let level = refill r now (bucket_or_fresh r now (l.buckets key)) in
    if leb r.period level
    then (
      allowed,
      record l {
        buckets = put key (record { level = level - r.period; last_fill = now }) l.buckets;
      },
    )
    else (
      refused ((r.period - level) / second + 1),
      record l { buckets = put key (record { level = level; last_fill = now }) l.buckets },
    )

-- The handler that `RateLimit` returns.
unfoldable pub request : Rate → ℕ → ℕ → Limiter → Verdict × Limiter
request r key now l = serve r key now (sweep r now l)

pub start : ℕ → Limiter
start now = record { buckets = λ _. none; last_sweep = now }

-- The verdicts on a sequence of requests, each a client and a time.
unfoldable pub run : Rate → List (ℕ × ℕ) → Limiter → List Verdict
run r [] l = []
run r ((key, now) ∷ rest) l = (request r key now l).0 ∷ run r rest (request r key now l).1
