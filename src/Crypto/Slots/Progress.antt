-- ===== src/Crypto/Slots/Progress.antt =====
-- Every password hash gets its turn.
use librelock_server.Common.{
  ltb, ltb→lt, Bool-cases, All, count, Text, ℕ, zero, suc, ◌+◌, ◌-◌, ◌*◌, ◌≤◌, ◌<◌, ◌≡◌, refl, sym,
  ap, inl, inr, List, [], ◌∷◌, ◌++◌, arith,
}
use librelock_server.Crypto.Slots.{
  Phase, Slots, all_waiting, Step, Steps, finished, is_hashing, waiting, acquire, hashing, here,
  max_concurrent_hashes, release, then_step, start,
}
use librelock_server.Crypto.Slots.Invariant.{
  IsCounted, Step-IsCounted, Steps-IsCounted, start-IsCounted, chosen_or_two,
}

-- The steps that a job has before it.
left_of : Phase → ℕ
left_of waiting = 2
left_of hashing = 1
left_of finished = 0

total : List Phase → ℕ
unfolding left_of
total [] = 0
total (x ∷ xs) = left_of x + total xs

total-append : (xs ys : List Phase) → total (xs ++ ys) ≡ total xs + total ys
unfolding total
total-append [] ys = ground arith
total-append (x ∷ xs) ys = ground (arith, total-append xs ys)

-- Every step is one of those left.
Step-total : (capacity : ℕ) (s t : Slots) → Step capacity s t → suc (total t.jobs) ≡ total s.jobs
unfolding total left_of
Step-total capacity s t (acquire before after free jobs same) =
    rw (same, jobs, total-append before (waiting ∷ after), total-append before (hashing ∷ after))
      (omega arith)
Step-total capacity s t (release before after left used jobs same) =
    rw (same, jobs, total-append before (hashing ∷ after), total-append before (finished ∷ after))
      (omega arith)

abbrev pub steps_taken : {capacity : ℕ} {s t : Slots} → Steps capacity s t → ℕ
steps_taken here = 0
steps_taken (then_step steps last) = suc (steps_taken steps)

Steps-total :
    (capacity : ℕ) (s t : Slots) (steps : Steps capacity s t)
    → steps_taken steps + total t.jobs ≡ total s.jobs
Steps-total capacity s t here = omega arith
Steps-total capacity s t (then_step {t = u} steps last) =
    let a = Steps-total capacity s u steps in let b = Step-total capacity u t last in omega arith

-- A job in that phase, with those around it.
abbrev Splits : Phase → List Phase → Type 0
Splits x xs = (before after : List Phase) × (xs ≡ before ++ x ∷ after)

later : (x y : Phase) (xs : List Phase) → Splits x xs → Splits x (y ∷ xs)
later x y xs (before, after, e) = (y ∷ before, after, ap (◌∷◌ y) e)

hashing_job : (xs : List Phase) → 0 < count is_hashing xs → Splits hashing xs
hashing_job [] h = absurd (omega arith)
hashing_job (hashing ∷ xs) h = ([], xs, refl)
hashing_job (waiting ∷ xs) h = later hashing waiting xs (hashing_job xs h)
hashing_job (finished ∷ xs) h = later hashing finished xs (hashing_job xs h)

waiting_job : (xs : List Phase) → count is_hashing xs ≡ 0 → 0 < total xs → Splits waiting xs
unfolding total left_of
waiting_job [] e h = absurd (omega arith)
waiting_job (waiting ∷ xs) e h = ([], xs, refl)
waiting_job (hashing ∷ xs) e h = absurd (omega arith)
waiting_job (finished ∷ xs) e h = later waiting finished xs (waiting_job xs e (omega arith))

progress :
    (capacity : ℕ) (s : Slots)
    → 0 < capacity
    → IsCounted capacity s
    → 0 < total s.jobs
    → (t : Slots) × Step capacity s t
progress capacity s some_slot (counted, h) more = elim (Bool-cases (ltb 0 s.used)) [
  | inl busy ↦
      let (before, after, e) = hashing_job s.jobs (rw (sym counted) (ltb→lt 0 s.used busy)) in
      (_, release before after (s.used - 1) (ground arith) e refl)
  | inr idle ↦
      let (before, after, e) = waiting_job s.jobs (ground arith) more in
      (_, acquire before after (ground arith) e refl)
]

first_step :
    (capacity : ℕ) (s t u : Slots) → Step capacity s t → Steps capacity t u → Steps capacity s u
first_step capacity s t u step here = then_step here step
first_step capacity s t u step (then_step {t = v} steps last) =
    then_step (first_step capacity s t v step steps) last

finishes :
    (k capacity : ℕ) (s : Slots)
    → 0 < capacity
    → IsCounted capacity s
    → total s.jobs ≡ k
    → (t : Slots) × Steps capacity s t × (total t.jobs ≡ 0)
finishes zero capacity s some_slot h e = (s, here, e)
finishes (suc k) capacity s some_slot h e =
    let (t, step) = progress capacity s some_slot h (omega arith) in
    let one = Step-total capacity s t step in
    let (u, steps, done) =
      finishes k capacity t some_slot (Step-IsCounted capacity s t step h) (omega arith) in
    (u, first_step capacity s t u step steps, done)

all_finished : (xs : List Phase) → total xs ≡ 0 → All (λ x. x ≡ finished) xs
unfolding total left_of
all_finished [] e = tt
all_finished (finished ∷ xs) e = (refl, all_finished xs (omega arith))
all_finished (waiting ∷ xs) e = absurd (omega arith)
all_finished (hashing ∷ xs) e = absurd (omega arith)

total_waiting : (n : ℕ) → total (all_waiting n) ≡ 2 * n
unfolding total left_of
total_waiting zero = refl
total_waiting (suc n) = ground (arith, total_waiting n)

-- From wherever n jobs have come by steps of the slots, they can all finish, so they never lock
-- each other out, and no run of them has more than 2n steps.
pub hashes_finish :
    (cpus n : ℕ) (v : Text) (s : Slots) (steps : Steps (max_concurrent_hashes cpus v) (start n) s)
    → (steps_taken steps ≤ 2 * n)
      × ((t : Slots) × Steps (max_concurrent_hashes cpus v) s t × All (λ x. x ≡ finished) t.jobs)
hashes_finish cpus n v s steps =
    let capacity = max_concurrent_hashes cpus v in
    let taken = Steps-total capacity (start n) s steps in
    let counted = Steps-IsCounted capacity (start n) s steps (start-IsCounted capacity n) in
    let two = chosen_or_two cpus v in
    let (t, more, done) = finishes (total s.jobs) capacity s (omega arith) counted refl in
    (rw (sym (total_waiting n)) (omega arith), (t, more, all_finished t.jobs done))
