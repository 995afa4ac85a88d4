-- ===== src/Crypto/Slots/Tests.antt =====
-- Two slots and three jobs.
use librelock_server.Common.{All, count, text, ◌≤◌, ◌≡◌, refl, [], ◌∷◌, arith}
use librelock_server.Crypto.Slots.{
  Slots, Steps, is_hashing, max_concurrent_hashes, finished, hashing, start, then_step, waiting,
  here, acquire,
}
use librelock_server.Crypto.Slots.Invariant.{hashes-at_most}
use librelock_server.Crypto.Slots.Progress.{steps_taken, hashes_finish}

limits :
    (max_concurrent_hashes 8 [] ≡ 8)
    × (max_concurrent_hashes 8 (text "1") ≡ 2)
    × (max_concurrent_hashes 8 (text "-3") ≡ 8)
unfolding max_concurrent_hashes librelock_server.Common.Numbers.atoi
limits = (refl, refl, refl)

abbrev both_busy : Slots
both_busy = record { used = 2; jobs = hashing ∷ hashing ∷ waiting ∷ [] }

two_steps : Steps (max_concurrent_hashes 8 (text "1")) (start 3) both_busy
unfolding max_concurrent_hashes librelock_server.Common.Numbers.atoi
two_steps =
    then_step (then_step here (acquire [] (waiting ∷ waiting ∷ []) (omega arith) refl refl))
      (acquire (hashing ∷ []) (waiting ∷ []) (omega arith) refl refl)

hashes-at_most_example :
    (count is_hashing both_busy.jobs ≤ max_concurrent_hashes 8 (text "1"))
    × (both_busy.used ≡ count is_hashing both_busy.jobs)
hashes-at_most_example = hashes-at_most 8 3 (text "1") both_busy two_steps

hashes_finish_example :
    (steps_taken two_steps ≤ 6)
    × ((t : Slots) × Steps (max_concurrent_hashes 8 (text "1")) both_busy t
        × All (λ x. x ≡ finished) t.jobs)
hashes_finish_example = hashes_finish 8 3 (text "1") both_busy two_steps
