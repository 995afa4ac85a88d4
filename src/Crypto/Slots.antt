-- ===== src/Crypto/Slots.antt =====
-- crypto/limit.go: the slots of the password hashes. The channel of the slots is the number of
-- tokens that it holds; each hash is a job that takes a slot, runs, and gives the slot back.
pub mod Invariant
pub mod Progress
mod Tests
use librelock_server.Common.{
  ltb, if◌then◌else◌, Text, is_empty, ℕ, zero, suc, ◌<◌, ◌≡◌, Bool, true, false, Option, none, some,
  List, [], ◌∷◌, ◌++◌,
}
use librelock_server.Common.Numbers.{atoi, ℤ, pos, negsuc}

chosen : ℕ → Option ℤ → ℕ
chosen cpus (some (pos n)) = if ltb 0 n then n else cpus
chosen cpus (some (negsuc _)) = cpus
chosen cpus none = cpus

-- `maxConcurrentHashes`, from the number of CPUs and the value of ARGON2_MAX_CONCURRENCY.
unfoldable pub max_concurrent_hashes : ℕ → Text → ℕ
unfolding chosen
max_concurrent_hashes cpus v =
    let n = if is_empty v then cpus else chosen cpus (atoi v) in if ltb n 2 then 2 else n

pub data Phase : Type 0 where
  waiting hashing finished : Phase

pub record Slots : Type 0 where
  pub used : ℕ
  pub jobs : List Phase

-- `acquireHashSlot` and the function that it returns: a send waits while the channel is full.
pub data Step (capacity : ℕ) (s t : Slots) : Type 0 where
  acquire :
      (before after : List Phase)
      → s.used < capacity
      → s.jobs ≡ before ++ waiting ∷ after
      → t ≡ record { used = suc s.used; jobs = before ++ hashing ∷ after }
      → Step capacity s t
  release :
      (before after : List Phase) (left : ℕ)
      → s.used ≡ suc left
      → s.jobs ≡ before ++ hashing ∷ after
      → t ≡ record { used = left; jobs = before ++ finished ∷ after }
      → Step capacity s t

-- Any number of steps.
pub data Steps (capacity : ℕ) (s : Slots) : Slots → Type 0 where
  here : Steps capacity s s
  then_step : {t u : Slots} → Steps capacity s t → Step capacity t u → Steps capacity s u

abbrev pub is_hashing : Phase → Bool
is_hashing hashing = true
is_hashing _ = false

abbrev pub all_waiting : ℕ → List Phase
all_waiting zero = []
all_waiting (suc n) = waiting ∷ all_waiting n

-- An empty channel and so many jobs.
abbrev pub start : ℕ → Slots
start n = record { used = 0; jobs = all_waiting n }
