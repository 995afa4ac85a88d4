-- ===== src/Middleware/RateLimit/Bound.antt =====
-- How many requests of one client the limiter lets through, and when a refused one may return.
use librelock_server.Common.{
  inl, inr, Bool-cases, ◌&&◌, All, ◌∙◌, ℕ, suc, ◌+◌, ◌-◌, ◌*◌, ◌≤◌, ◌<◌, ◌≡◌, refl, inl, inr, Bool,
  true, false, arith, ◌==◌, if◌then◌else◌, Bool-cases, List, [], ◌∷◌,
}
use librelock_server.Middleware.RateLimit.{
  Limiter, Rate, Verdict, allowed, refused, full, idle, sweep, serve, request, second, run, start,
  refill,
}
use librelock_server.Middleware.RateLimit.Laws.{
  request_allowed, avail, IsTimely, cost, avail-sweep, avail-later, avail-le-full, avail-serve_self,
  avail-serve_other, IsTimely-sweep, IsTimely-serve, IsTimely-later,
}

-- The times of the requests never step back, and lie between the two bounds.
abbrev pub IsOrdered : ℕ → ℕ → List (ℕ × ℕ) → Type 0
IsOrdered from to [] = from ≤ to
IsOrdered from to ((key, now) ∷ rest) = (from ≤ now) × IsOrdered now to rest

abbrev pub is_allowed : Verdict → Bool
is_allowed allowed = true
is_allowed (refused _) = false

-- The number of a client's requests that were let through.
pub granted : ℕ → List (ℕ × ℕ) → List Verdict → ℕ
granted client ((key, now) ∷ rest) (v ∷ vs) =
    if client == key && is_allowed v then suc (granted client rest vs) else granted client rest vs
granted client _ _ = 0

spent :
    (r : Rate) (client key now : ℕ) (l : Limiter)
    → full r ≤ idle r
    → IsTimely r l now
    → avail r client now (request r key now l).1
        + (if client == key then cost r (request r key now l).0 else 0)
      ≡ avail r client now l
unfolding request
spent r client key now l h f = ground (
  arith,
  avail-sweep r client now now l h,
  avail-serve_self r client now (sweep r now l),
  avail-serve_other r key client now now (sweep r now l),
)

IsTimely-request :
    (r : Rate) (key now : ℕ) (l : Limiter)
    → IsTimely r l now
    → IsTimely r (request r key now l).1 now
unfolding request
IsTimely-request r key now l f = IsTimely-serve r key now _ (IsTimely-sweep r now l f)

avail-request_other :
    (r : Rate) (client key now t : ℕ) (l : Limiter)
    → full r ≤ idle r
    → client == key ≡ false
    → now ≤ t
    → IsTimely r l now
    → avail r client t (request r key now l).1 ≡ avail r client t l
unfolding request
avail-request_other r client key now t l h other le f =
    avail-serve_other r key client now t (sweep r now l) other ∙ avail-sweep r client now t l h le f

period-le-full : (r : Rate) → 0 < r.burst → r.period ≤ full r
period-le-full r pos = grind arith

refused-avail-serve :
    (r : Rate) (key now later wait : ℕ) (l : Limiter)
    → 0 < r.burst
    → (serve r key now l).0 ≡ refused wait
    → now + wait * second ≤ later
    → r.period ≤ avail r key later (serve r key now l).1
unfolding serve avail refill
refused-avail-serve r key now later wait l pos e w = ground (arith, period-le-full r pos)

refused-avail :
    (r : Rate) (key now later wait : ℕ) (l : Limiter)
    → 0 < r.burst
    → (request r key now l).0 ≡ refused wait
    → now + wait * second ≤ later
    → r.period ≤ avail r key later (request r key now l).1
unfolding request
refused-avail r key now later wait l pos e w =
    refused-avail-serve r key now later wait (sweep r now l) pos e w

granted_step :
    (r : Rate) (client key now : ℕ) (rest : List (ℕ × ℕ)) (v : Verdict) (vs : List Verdict)
    → r.period * granted client ((key, now) ∷ rest) (v ∷ vs)
      ≡ (if client == key then cost r v else 0) + r.period * granted client rest vs
unfolding granted
granted_step r client key now rest allowed vs = elim (Bool-cases (client == key)) [
  | inl same ↦ rw same (omega arith)
  | inr other ↦ rw other (omega arith)
]
granted_step r client key now rest (refused _) vs = ground arith

ordered_bounds : (from to : ℕ) (reqs : List (ℕ × ℕ)) → IsOrdered from to reqs → from ≤ to
ordered_bounds from to [] o = o
ordered_bounds from to ((key, now) ∷ rest) (first, o) = omega (arith, ordered_bounds now to rest o)

run_bound :
    (r : Rate) (client from to : ℕ) (reqs : List (ℕ × ℕ)) (l : Limiter)
    → full r ≤ idle r
    → IsOrdered from to reqs
    → IsTimely r l from
    → r.period * granted client reqs (run r reqs l) ≤ avail r client from l + (to - from)
unfolding run
run_bound r client from to [] l h o f = unfold granted in omega arith
run_bound r client from to ((key, now) ∷ rest) l h (first, o) f =
    let (v, l') = request r key now l in
    let timely = IsTimely-later r from now l first f in
    omega (
      arith,
      spent r client key now l h timely,
      granted_step r client key now rest v (run r rest l'),
      run_bound r client now to rest l' h o (IsTimely-request r key now l timely),
      avail-later r client from now l first,
      ordered_bounds now to rest o,
    )

-- From a fresh limiter, if a bucket fills up within the idle time and the clock never steps
-- back, one client gets at most the burst of requests through at once and one more for each
-- period that passes, whatever the other clients do.
pub granted_at_most :
    (r : Rate) (client from to : ℕ) (reqs : List (ℕ × ℕ))
    → full r ≤ idle r
    → IsOrdered from to reqs
    → r.period * granted client reqs (run r reqs (start from)) ≤ full r + (to - from)
unfolding start
granted_at_most r client from to reqs h o = omega (
  arith,
  avail-le-full r client from (start from),
  run_bound r client from to reqs (start from) h o (record { filled = λ k b e. cc }),
)

-- The limiter after a sequence of requests.
pub finish : Rate → List (ℕ × ℕ) → Limiter → Limiter
finish r [] l = l
finish r ((key, now) ∷ rest) l = finish r rest (request r key now l).1

finish_others :
    (r : Rate) (client from to : ℕ) (reqs : List (ℕ × ℕ)) (l : Limiter)
    → full r ≤ idle r
    → IsOrdered from to reqs
    → All (λ e. client == e.0 ≡ false) reqs
    → IsTimely r l from
    → IsTimely r (finish r reqs l) to × (avail r client to (finish r reqs l) ≡ avail r client to l)
unfolding finish
finish_others r client from to [] l h o others f = (IsTimely-later r from to l o f, refl)
finish_others r client from to ((key, now) ∷ rest) l h (first, o) (other, others) f =
    let timely = IsTimely-later r from now l first f in
    let (t, same) =
      finish_others r client now to rest (request r key now l).1 h o others
        (IsTimely-request r key now l timely) in
    (
      t,
      same
          ∙ avail-request_other r client key now to l h other (ordered_bounds now to rest o) timely,
    )

-- A refused client that waits the seconds of Retry-After is let through, whatever other clients
-- ask in between, if the burst is positive, a bucket fills up within the idle time, and neither
-- the clock nor the limiter's times are ahead of the request.
pub retry_after_suffices :
    (r : Rate) (client now later wait : ℕ) (reqs : List (ℕ × ℕ)) (l : Limiter)
    → 0 < r.burst
    → full r ≤ idle r
    → IsTimely r l now
    → (request r client now l).0 ≡ refused wait
    → IsOrdered now later reqs
    → All (λ e. client == e.0 ≡ false) reqs
    → now + wait * second ≤ later
    → (request r client later (finish r reqs (request r client now l).1)).0 ≡ allowed
retry_after_suffices r client now later wait reqs l pos h f e o others w =
    let after = (request r client now l).1 in
    let (timely, same) =
      finish_others r client now later reqs after h o others (IsTimely-request r client now l f) in
    request_allowed r client later _ h timely
      (rw same (refused-avail r client now later wait l pos e w))
