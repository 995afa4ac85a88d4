-- ===== src/Middleware/RateLimit/Sweep.antt =====
-- The sweep, against a limiter that never forgets a client.
use mathlib.Core.Path.{ap₂}
use librelock_server.Common.{
  ◌==◌, ==_iff, Bool-cases, ℕ, ◌≤◌, ◌≡◌, refl, sym, ◌∙◌, inl, inr, List, [], ◌∷◌, arith,
}
use librelock_server.Middleware.RateLimit.{
  Limiter, Rate, Verdict, serve, run, start, full, request, idle, sweep,
}
use librelock_server.Middleware.RateLimit.Bound.{IsOrdered}
use librelock_server.Middleware.RateLimit.Laws.{
  avail, IsTimely, avail-serve_other, IsTimely-later, avail-sweep, IsTimely-serve, IsTimely-sweep,
}

-- `run` with the sweep left out.
pub run_unswept : Rate → List (ℕ × ℕ) → Limiter → List Verdict
run_unswept r [] l = []
run_unswept r ((key, now) ∷ rest) l =
    (serve r key now l).0 ∷ run_unswept r rest (serve r key now l).1

-- Two limiters that every client finds equally full from a time on.
abbrev SameAvail : Rate → ℕ → Limiter → Limiter → Type 0
SameAvail r now l l' = (key t : ℕ) → now ≤ t → avail r key t l ≡ avail r key t l'

serve_verdict :
    (r : Rate) (key now : ℕ) (l l' : Limiter)
    → avail r key now l ≡ avail r key now l'
    → (serve r key now l).0 ≡ (serve r key now l').0
unfolding serve avail
serve_verdict r key now l l' e = ground arith

avail-serve_same :
    (r : Rate) (key now t : ℕ) (l l' : Limiter)
    → avail r key now l ≡ avail r key now l'
    → avail r key t (serve r key now l).1 ≡ avail r key t (serve r key now l').1
unfolding serve avail
avail-serve_same r key now t l l' e = ground arith

SameAvail-serve :
    (r : Rate) (key now : ℕ) (l l' : Limiter)
    → SameAvail r now l l'
    → SameAvail r now (serve r key now l).1 (serve r key now l').1
SameAvail-serve r key now l l' same client t le = elim (Bool-cases (client == key)) [
  | inl self ↦
      rw ((==_iff client key).0 self)
        (avail-serve_same r key now t l l' (same key now (omega arith)))
  | inr other ↦
      avail-serve_other r key client now t l other
      ∙ same client t le
      ∙ sym (avail-serve_other r key client now t l' other)
]

run_from-eq :
    (r : Rate) (from to : ℕ) (reqs : List (ℕ × ℕ)) (l l' : Limiter)
    → full r ≤ idle r
    → IsOrdered from to reqs
    → IsTimely r l from
    → SameAvail r from l l'
    → run r reqs l ≡ run_unswept r reqs l'
unfolding run run_unswept request
run_from-eq r from to [] l l' h o f same = refl
run_from-eq r from to ((key, now) ∷ rest) l l' h (first, o) f same =
    let timely = IsTimely-later r from now l first f in
    let swept = sweep r now l in
    let same' = λ (client t : ℕ) (le : now ≤ t).
      avail-sweep r client now t l h le timely ∙ same client t (omega arith) in
    ap₂ ◌∷◌ (serve_verdict r key now swept l' (same' key now (omega arith))) (
      run_from-eq r now to rest _ _ h o
        (IsTimely-serve r key now swept (IsTimely-sweep r now l timely))
        (SameAvail-serve r key now swept l' same'))

-- Forgetting idle clients changes no verdict: if a bucket fills up within the idle time and the
-- clock never steps back, a fresh limiter answers any requests as one that keeps every bucket
-- would.
pub run-eq-run_unswept :
    (r : Rate) (from to : ℕ) (reqs : List (ℕ × ℕ))
    → full r ≤ idle r
    → IsOrdered from to reqs
    → run r reqs (start from) ≡ run_unswept r reqs (start from)
unfolding start
run-eq-run_unswept r from to reqs h o =
    run_from-eq r from to reqs (start from) (start from) h o (record { filled = λ k b e. cc })
      (λ _ _ _. refl)
