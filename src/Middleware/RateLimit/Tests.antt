-- ===== src/Middleware/RateLimit/Tests.antt =====
-- Runs of the limiter, and its theorems at the limits that main.go sets.
use librelock_server.Common.{Option, ℕ, ◌+◌, ◌*◌, ◌≤◌, ◌≡◌, refl, List, [], ◌∷◌, arith, ◌-◌}
use librelock_server.Middleware.RateLimit.{
  Rate, Limiter, allowed, refused, full, idle, second, request, run, start, serve, sweep, refill,
}
use librelock_server.Middleware.RateLimit.Laws.{IsTimely}
use librelock_server.Middleware.RateLimit.Bound.{
  granted, granted_at_most, finish, retry_after_suffices,
}
use librelock_server.Middleware.RateLimit.Sweep.{run_unswept, run-eq-run_unswept}

-- `RateLimit(20, 1.0/3.0)` and `RateLimit(5, 1.0/10.0)`
abbrev sign_in_rate : Rate
sign_in_rate = record { burst = 20; period = 3 * second }

abbrev password_rate : Rate
password_rate = record { burst = 5; period = 10 * second }

full-le-idle_auth : full sign_in_rate ≤ idle sign_in_rate
unfolding idle
full-le-idle_auth = omega arith

full-le-idle_reauth : full password_rate ≤ idle password_rate
unfolding idle
full-le-idle_reauth = omega arith

abbrev burst_of_two : Rate
burst_of_two = record { burst = 2; period = 3 * second }

full-le-idle_two : full burst_of_two ≤ idle burst_of_two
unfolding idle
full-le-idle_two = omega arith

abbrev requests : List (ℕ × ℕ)
requests = (7, 0) ∷ (7, 0) ∷ (8, 0) ∷ (7, second) ∷ (7, 3 * second) ∷ (7, 100 * second) ∷ []

run_test :
    run burst_of_two requests (start 0)
    ≡ allowed ∷ allowed ∷ allowed ∷ refused 3 ∷ allowed ∷ allowed ∷ []
unfolding run request serve sweep refill idle start
run_test = refl

granted_at_most_example :
    (3 * second) * granted 7 requests (run burst_of_two requests (start 0))
    ≤ full burst_of_two + (100 * second - 0)
granted_at_most_example =
    granted_at_most burst_of_two 7 0 (100 * second) requests full-le-idle_two (omega arith)

abbrev drained : Limiter
drained = record {
  buckets = λ _. Option.some (record { level = second; last_fill = 0 });
  last_sweep = 0;
}

drained-IsTimely : IsTimely sign_in_rate drained 0
drained-IsTimely = record { filled = λ k b e. ground arith }

retry_after_suffices_example :
    (request sign_in_rate 7
      (3 * second)
      (finish sign_in_rate ((8, second) ∷ []) (request sign_in_rate 7 0 drained).1)).0
    ≡ allowed
unfolding request serve sweep refill idle
retry_after_suffices_example =
    retry_after_suffices sign_in_rate 7 0 (3 * second) 3 ((8, second) ∷ []) drained (omega arith)
      full-le-idle_auth drained-IsTimely refl (omega arith) (refl, tt) (omega arith)

run-eq-run_unswept_example :
    run burst_of_two requests (start 0) ≡ run_unswept burst_of_two requests (start 0)
run-eq-run_unswept_example =
    run-eq-run_unswept burst_of_two 0 (100 * second) requests full-le-idle_two (omega arith)
