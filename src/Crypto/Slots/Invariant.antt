-- ===== src/Crypto/Slots/Invariant.antt =====
-- How many passwords are hashed at once.
use librelock_server.Common.{
  count, Text, ℕ, zero, suc, ◌+◌, ◌≤◌, ◌≡◌, refl, sym, Bool, List, [], ◌∷◌, ◌++◌, arith,
}
use librelock_server.Crypto.Slots.{
  Phase, Slots, is_hashing, max_concurrent_hashes, Step, Steps, all_waiting, start, acquire,
  then_step, here, waiting, hashing, release, finished,
}

count-append :
    (p : Phase → Bool) (xs ys : List Phase) → count p (xs ++ ys) ≡ count p xs + count p ys
count-append p [] ys = ground arith
count-append p (x ∷ xs) ys = ground (arith, count-append p xs ys)

-- A token of the channel for each job that hashes, and no more than it holds.
abbrev pub IsCounted : ℕ → Slots → Type 0
IsCounted capacity s = (s.used ≡ count is_hashing s.jobs) × (s.used ≤ capacity)

pub Step-IsCounted :
    (capacity : ℕ) (s t : Slots) → Step capacity s t → IsCounted capacity s → IsCounted capacity t
Step-IsCounted capacity s t (acquire before after free jobs same) (counted, h) =
    let a = rw (jobs, count-append is_hashing before (waiting ∷ after)) at counted in
    rw (same, count-append is_hashing before (hashing ∷ after)) ((omega arith), (omega arith))
Step-IsCounted capacity s t (release before after left used jobs same) (counted, h) =
    let a = rw (jobs, count-append is_hashing before (hashing ∷ after)) at counted in
    rw (same, count-append is_hashing before (finished ∷ after)) ((omega arith), (omega arith))

pub Steps-IsCounted :
    (capacity : ℕ) (s t : Slots) → Steps capacity s t → IsCounted capacity s → IsCounted capacity t
Steps-IsCounted capacity s t here h = h
Steps-IsCounted capacity s t (then_step {t = u} steps last) h =
    Step-IsCounted capacity u t last (Steps-IsCounted capacity s u steps h)

none_hashing : (n : ℕ) → count is_hashing (all_waiting n) ≡ 0
none_hashing zero = refl
none_hashing (suc n) = none_hashing n

pub start-IsCounted : (capacity n : ℕ) → IsCounted capacity (start n)
start-IsCounted capacity n = (sym (none_hashing n), omega arith)

pub chosen_or_two : (cpus : ℕ) (v : Text) → 2 ≤ max_concurrent_hashes cpus v
unfolding max_concurrent_hashes
chosen_or_two cpus v = ground arith

-- Whatever order the jobs take their steps in, at most as many passwords are hashed at once as
-- there are slots, and the channel holds one token for each.
pub hashes-at_most :
    (cpus n : ℕ) (v : Text) (t : Slots)
    → Steps (max_concurrent_hashes cpus v) (start n) t
    → (count is_hashing t.jobs ≤ max_concurrent_hashes cpus v) × (t.used ≡ count is_hashing t.jobs)
hashes-at_most cpus n v t steps =
    let capacity = max_concurrent_hashes cpus v in
    let (used, h) = Steps-IsCounted capacity (start n) t steps (start-IsCounted capacity n) in
    (rw (sym used) h, used)
