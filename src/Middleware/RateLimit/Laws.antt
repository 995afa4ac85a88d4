-- ===== src/Middleware/RateLimit/Laws.antt =====
-- What one request does to the tokens that a client can draw on.
use librelock_server.Common.{
  ℕ, ◌+◌, ◌-◌, ◌≤◌, ◌≡◌, refl, inl, inr, false, Option, none, some, arith, ltb, ◌==◌, Bool-cases,
}
use librelock_server.Middleware.RateLimit.{
  Bucket, Limiter, Rate, Verdict, allowed, refused, full, idle, drop_idle, sweep, request,
  bucket_or_fresh, refill, serve,
}

-- The level that a request of the client at that time would find.
unfoldable pub avail : Rate → ℕ → ℕ → Limiter → ℕ
unfolding refill
avail r key now l = refill r now (bucket_or_fresh r now (l.buckets key))

-- What the bucket of a client holds now is no more than what it could hold.
pub record IsTimely (r : Rate) (l : Limiter) (now : ℕ) : Type 0 where
  pub filled :
      (k : ℕ) (b : Bucket) → l.buckets k ≡ some b → (b.last_fill ≤ now) × (b.level ≤ full r)

abbrev pub cost : Rate → Verdict → ℕ
cost r allowed = r.period
cost r (refused _) = 0

avail-sweep_of :
    (r : Rate) (now t : ℕ) (o : Option Bucket)
    → full r ≤ idle r
    → now ≤ t
    → ((b : Bucket) → o ≡ some b → (b.last_fill ≤ now) × (b.level ≤ full r))
    → refill r t (bucket_or_fresh r t (drop_idle r now o)) ≡ refill r t (bucket_or_fresh r t o)
unfolding refill
avail-sweep_of r now t none h le f = refl
avail-sweep_of r now t (some b) h le f = ground (arith, f b)

-- A sweep takes no tokens and gives none, now or later.
pub avail-sweep :
    (r : Rate) (key now t : ℕ) (l : Limiter)
    → full r ≤ idle r
    → now ≤ t
    → IsTimely r l now
    → avail r key t (sweep r now l) ≡ avail r key t l
unfolding avail sweep
avail-sweep r key now t l h le f = elim (Bool-cases (ltb (idle r) (now - l.last_sweep))) [
  | inl swept ↦ rw swept (avail-sweep_of r now t (l.buckets key) h le (f.filled key))
  | inr kept ↦ rw kept refl
]

-- Waiting adds at most the time waited.
pub avail-later :
    (r : Rate) (key t t' : ℕ) (l : Limiter) → t ≤ t' → avail r key t' l ≤ avail r key t l + (t' - t)
unfolding avail refill
avail-later r key t t' l h = ground arith

pub avail-le-full : (r : Rate) (key t : ℕ) (l : Limiter) → avail r key t l ≤ full r
unfolding avail refill
avail-le-full r key t l = ground arith

-- The client that is served pays for the verdict.
pub avail-serve_self :
    (r : Rate) (key now : ℕ) (l : Limiter)
    → avail r key now (serve r key now l).1 + cost r (serve r key now l).0 ≡ avail r key now l
unfolding avail serve refill
avail-serve_self r key now l = ground arith

-- No other client pays.
pub avail-serve_other :
    (r : Rate) (key other now t : ℕ) (l : Limiter)
    → other == key ≡ false
    → avail r other t (serve r key now l).1 ≡ avail r other t l
unfolding avail serve
avail-serve_other r key other now t l h = ground arith

pub IsTimely-sweep :
    (r : Rate) (now : ℕ) (l : Limiter) → IsTimely r l now → IsTimely r (sweep r now l) now
unfolding sweep
IsTimely-sweep r now l f = record { filled = λ k b e. ground (arith, f.filled k b) }

pub IsTimely-serve :
    (r : Rate) (key now : ℕ) (l : Limiter) → IsTimely r l now → IsTimely r (serve r key now l).1 now
unfolding serve refill
IsTimely-serve r key now l f = record { filled = λ k b e. ground (arith, f.filled k b) }

pub IsTimely-later : (r : Rate) (t t' : ℕ) (l : Limiter) → t ≤ t' → IsTimely r l t → IsTimely r l t'
IsTimely-later r t t' l h f = record { filled = λ k b e. ground (arith, f.filled k b e) }

-- A request is let through exactly if the client can draw on one whole token.
pub request_allowed :
    (r : Rate) (key now : ℕ) (l : Limiter)
    → full r ≤ idle r
    → IsTimely r l now
    → r.period ≤ avail r key now l
    → (request r key now l).0 ≡ allowed
unfolding request serve avail
request_allowed r key now l h f p = ground (arith, avail-sweep r key now now l h (omega arith) f)
