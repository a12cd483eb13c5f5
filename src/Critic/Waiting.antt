-- ===== src/Critic/Waiting.antt =====
-- The polling loop of `waitHealthy` in critic-steps.ts ends by itself within its rounds.
use autoforge.Common.{
  ◌+◌, ◌*◌, ◌≤◌, ◌≡◌, if◌then◌else◌, ℕ, zero, suc, refl, ap, inl, inr, true, false, arith, ltb,
  Bool-cases, tests,
}
use autoforge.Critic.Steps.{wait_from, wait_healthy}
use autoforge.Critic.{CriticDependencies, Moment}

wait_from-late :
    (deps : CriticDependencies) (moment : Moment) (rounds poll now : ℕ)
    → 15_000 ≤ now
    → wait_from deps moment rounds poll now ≡ false
unfolding wait_from
wait_from-late deps moment zero poll now late = refl
wait_from-late deps moment (suc rounds) poll now late = elim (Bool-cases (ltb now 15_000)) [
  | inl b ↦ absurd (omega (tests, b, late))
  | inr b ↦ rw b refl
]

-- More rounds than reach the deadline change nothing.
wait_from-rounds :
    (deps : CriticDependencies) (moment : Moment) (rounds more poll now : ℕ)
    → 15_000 ≤ now + 1_000 * rounds
    → rounds ≤ more
    → wait_from deps moment more poll now ≡ wait_from deps moment rounds poll now
unfolding wait_from
wait_from-rounds deps moment zero more poll now enough le =
    wait_from-late deps moment more poll now (omega arith)
wait_from-rounds deps moment (suc rounds) zero poll now enough le = absurd (omega arith)
wait_from-rounds deps moment (suc rounds) (suc more) poll now enough le =
    ap (λ rest. if ltb now 15_000 then (if deps.health moment poll then true else rest) else false)
      (wait_from-rounds deps moment rounds more (suc poll) (now + deps.poll_ms moment poll + 1_000)
        (omega arith) (omega arith))

-- The loop that waits for the application ends by its deadline within fifteen rounds: any larger
-- number of rounds gives the same answer, whatever the polls answer and however long they take.
pub wait_healthy-rounds :
    (deps : CriticDependencies) (moment : Moment) (rounds : ℕ)
    → 15 ≤ rounds
    → wait_from deps moment rounds 0 0 ≡ wait_healthy deps moment
unfolding wait_healthy
wait_healthy-rounds deps moment rounds le =
    wait_from-rounds deps moment 15 rounds 0 0 (omega arith) le
