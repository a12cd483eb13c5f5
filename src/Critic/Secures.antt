-- ===== src/Critic/Secures.antt =====
-- Steps of critic-steps.ts and critic.service.ts that cannot end well unless something holds.
use autoforge.Critic.Step.{◌>>=◌, Step, Journal, continue_with}
use autoforge.Common.Texts.{Text}
use autoforge.Common.{
  ◌≡◌, ◌≢◌, ℕ, refl, ap, inl, inr, true, some, ◌∙◌, Bool, none, List, Bool-cases, Option,
}
use autoforge.Critic.{
  CriticDependencies, RunStatus, CriticPatchContext, Thrown, before_patch, run_failed, RunResult,
  confirmed, run_passed, after_patch, run_not_available, not_confirmed, BaselineStatus, reproduced,
  ExploitStatus, ExploitCriticOutcome, other_status, not_reproduced,
}
use autoforge.Critic.Steps.{
  run_build, run_tests, apply_patch, wait_healthy, throw_on_failure, run_baseline, run_retest,
  baseline_body, baseline_of, tested_status,
}
use autoforge.Common.Result.{ok, Result, Result-cases, err, ok-injective}
use autoforge.Critic.Service.{review_gate, require_baseline, require_fixed, startup}

-- The answers that let a patch through: the exploit works before the patch and not after, the patch
-- applies, the application answers before and after, neither the build check nor the tests fail
-- (either may be not available), and the gate passes.
pub record Passes (deps : CriticDependencies) (context : CriticPatchContext) (path diff : Text)
    : Type 0 where
  pub reachable : wait_healthy deps before_patch ≡ true
  pub exploitable : deps.sniper before_patch ≡ ok (some confirmed)
  pub applies : (n : ℕ) × (deps.apply ≡ ok n)
  pub starts : wait_healthy deps after_patch ≡ true
  pub builds : (r : RunResult) × (deps.build_check ≡ ok r) × (r.status ≢ run_failed)
  pub tests_pass : (r : RunResult) × (deps.test_runner ≡ ok r) × (r.status ≢ run_failed)
  pub no_longer_exploitable : deps.sniper after_patch ≡ ok (some not_confirmed)
  pub gate_passes : (deps.security_gate path diff context.finding_type).0 ≡ true

-- Whenever the step does not throw, the proposition holds.
pub record Secures {A : Type 0} (step : Step A) (P : Type 0) : Type 0 where
  pub secured : (journal : Journal) (value : A) → (step journal).0 ≡ ok value → P

-- The step gives this value from some journal.
pub record CanGive {A : Type 0} (step : Step A) (value : A) : Type 0 where
  pub from : Journal
  pub gives : (step from).0 ≡ ok value

pub secure :
    {A : Type 0} {step : Step A} {P : Type 0}
    → ((journal : Journal) (value : A) → (step journal).0 ≡ ok value → P)
    → Secures step P
secure proof = record { secured = proof }

module _ {A B : Type 0} {P : Type 0} where
  pub bind-value :
      (first : Step A) (next : A → Step B)
      → ((a : A) → CanGive first a → Secures (next a) P)
      → Secures (first >>= next) P
  bind-value first next secures =
      secure (λ journal value h. go journal value (first journal) refl h)
    where
      go :
          (journal : Journal) (value : B) (out : Result Thrown A × Journal)
          → first journal ≡ out
          → (continue_with next out).0 ≡ ok value
          → P
      go journal value (err thrown, middle) e h = absurd (cc h)
      go journal value (ok a, middle) e h =
          (secures a (record { from = journal; gives = ap (λ out. out.0) e })).secured middle value
            h

  pub bind-rest :
      (first : Step A) (next : A → Step B)
      → ((a : A) → Secures (next a) P)
      → Secures (first >>= next) P
  bind-rest first next secures = bind-value first next (λ a _. secures a)

  pub bind-first :
      (first : Step A) (next : A → Step B) → Secures first P → Secures (first >>= next) P
  bind-first first next secures =
      bind-value first next (λ a can. secure (λ _ _ _. secures.secured can.from a can.gives))

throw_on_failure-ok :
    (status : RunStatus) (error : Thrown) (journal : Journal) {value : Unit {0}}
    → (throw_on_failure status error journal).0 ≡ ok value
    → status ≢ run_failed
throw_on_failure-ok run_passed error journal h = λ same. absurd (cc same)
throw_on_failure-ok run_failed error journal h = absurd (cc h)
throw_on_failure-ok run_not_available error journal h = λ same. absurd (cc same)

baseline_of-reproduced :
    (report : Option ExploitStatus) → baseline_of report ≡ reproduced → report ≡ some confirmed
baseline_of-reproduced none h = absurd (cc h)
baseline_of-reproduced (some confirmed) h = refl
baseline_of-reproduced (some not_confirmed) h = absurd (cc h)
baseline_of-reproduced (some (other_status text)) h = absurd (cc h)

tested_status-not_confirmed :
    (report : Option ExploitStatus)
    → tested_status report ≡ not_confirmed
    → report ≡ some not_confirmed
tested_status-not_confirmed none h = absurd (cc h)
tested_status-not_confirmed (some status) h = ap (λ s. some s) h

pub require_baseline-ok :
    (status : BaselineStatus) (journal : Journal) {value : Unit {0}}
    → (require_baseline status journal).0 ≡ ok value
    → status ≡ reproduced
require_baseline-ok reproduced journal h = refl
require_baseline-ok not_reproduced journal h = absurd (cc h)

pub require_fixed-ok :
    (status : ExploitStatus) (journal : Journal) {value : Unit {0}}
    → (require_fixed status journal).0 ≡ ok value
    → status ≡ not_confirmed
require_fixed-ok not_confirmed journal h = refl
require_fixed-ok confirmed journal h = absurd (cc h)
require_fixed-ok (other_status text) journal h = absurd (cc h)

pub startup-ok :
    (deps : CriticDependencies) (journal : Journal) {value : Unit {0}}
    → (startup deps journal).0 ≡ ok value
    → wait_healthy deps after_patch ≡ true
startup-ok deps journal h = elim (Bool-cases (wait_healthy deps after_patch)) [
  | inl b ↦ b
  | inr b ↦ absurd (cc (rw b at h))
]

module _ (deps : CriticDependencies) where
  pub run_build-ok :
      (path : Text) (journal : Journal) {value : Unit {0}}
      → (run_build deps path journal).0 ≡ ok value
      → (r : RunResult) × (deps.build_check ≡ ok r) × (r.status ≢ run_failed)
  unfolding run_build
  run_build-ok path journal h = elim (Result-cases deps.build_check) [
    | inl (error, e) ↦ absurd (cc (rw e at h))
    | inr (r, e) ↦ (r, e, throw_on_failure-ok r.status _ _ (rw e at h))
  ]

  pub run_tests-ok :
      (journal : Journal) {value : Unit {0}}
      → (run_tests deps journal).0 ≡ ok value
      → (r : RunResult) × (deps.test_runner ≡ ok r) × (r.status ≢ run_failed)
  unfolding run_tests
  run_tests-ok journal h = elim (Result-cases deps.test_runner) [
    | inl (error, e) ↦ absurd (cc (rw e at h))
    | inr (r, e) ↦ (r, e, throw_on_failure-ok r.status _ _ (rw e at h))
  ]

  pub apply_patch-ok :
      (id path : Text) (journal : Journal) {value : Unit {0}}
      → (apply_patch deps id path journal).0 ≡ ok value
      → (n : ℕ) × (deps.apply ≡ ok n)
  unfolding apply_patch
  apply_patch-ok id path journal h = elim (Result-cases deps.apply) [
    | inl (error, e) ↦ absurd (cc (rw e at h))
    | inr (n, e) ↦ (n, e)
  ]

  pub run_baseline-ok :
      (context : CriticPatchContext) (journal : Journal)
      → (run_baseline deps context journal).0 ≡ ok reproduced
      → (wait_healthy deps before_patch ≡ true) × (deps.sniper before_patch ≡ ok (some confirmed))
  unfolding run_baseline baseline_body
  run_baseline-ok context journal h = elim (Bool-cases (wait_healthy deps before_patch)) [
    | inr b ↦ absurd (cc (rw b at h))
    | inl b ↦ elim (Result-cases (deps.sniper before_patch)) [
      | inl (error, e) ↦ absurd (cc (rw (b, e) at h))
      | inr (report, e) ↦
          let same : baseline_of report ≡ reproduced = ok-injective (rw (b, e) at h) in
          (b, e ∙ ap (λ r. ok r) (baseline_of-reproduced report same))
    ]
  ]

  pub run_retest-ok :
      (context : CriticPatchContext) (status : BaselineStatus) (journal : Journal)
      {p : ExploitStatus × ExploitCriticOutcome}
      → (run_retest deps context status journal).0 ≡ ok p
      → p.0 ≡ not_confirmed
      → deps.sniper after_patch ≡ ok (some not_confirmed)
  unfolding run_retest
  run_retest-ok context status journal {p} h fine = elim (Result-cases (deps.sniper after_patch)) [
    | inl (error, e) ↦ absurd (cc (rw e at h))
    | inr (report, e) ↦
        let same : tested_status report ≡ p.0 = ap (λ q. q.0) (ok-injective (rw e at h)) in
        e ∙ ap (λ r. ok r) (tested_status-not_confirmed report (same ∙ fine))
  ]

pub review_gate-ok :
    (gate : Bool × List (Text × Bool)) (journal : Journal) {value : Unit {0}}
    → (review_gate gate journal).0 ≡ ok value
    → gate.0 ≡ true
unfolding review_gate
review_gate-ok gate journal h = elim (Bool-cases gate.0) [
  | inl b ↦ b
  | inr b ↦ absurd (cc (rw b at h))
]
