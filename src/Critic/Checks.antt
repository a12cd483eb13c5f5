-- ===== src/Critic/Checks.antt =====
-- What the checks of critic.service.ts have found when they end well.
use autoforge.Critic.Step.{◌>>=◌, Step, bridge, return}
use autoforge.Common.Texts.{Text}
use autoforge.Common.{◌≡◌, ◌≢◌, ℕ, ap, true, some, ◌∙◌}
use autoforge.Critic.{
  CriticDependencies, CriticPatchContext, before_patch, run_failed, RunResult, confirmed,
  after_patch, not_confirmed, BaselineStatus, reproduced, ExploitStatus, ExploitCriticOutcome,
}
use autoforge.Critic.Steps.{
  run_build, run_tests, apply_patch, wait_healthy, run_baseline, run_retest, advisory,
}
use autoforge.Common.Result.{ok}
use autoforge.Critic.Service.{
  review_gate, apply_in_sandbox, check_patched, check_exploit, check_all, check_in_sandbox,
  require_baseline, require_fixed, startup, set_sandbox, set_exploit,
}
use autoforge.Critic.Secures.{
  bind-rest, CanGive, Secures, bind-first, secure, bind-value, Passes, require_baseline-ok,
  apply_patch-ok, startup-ok, run_build-ok, run_tests-ok, run_retest-ok, review_gate-ok,
  run_baseline-ok, require_fixed-ok,
}

-- The steps after the baseline, and after the retest.
after_baseline : CriticDependencies → Text → Text → BaselineStatus → Step BaselineStatus
after_baseline deps path id status = do
  _ ← bridge deps "BASELINE_CHECK_COMPLETED"
  _ ← require_baseline status
  _ ← bridge deps "PATCH_APPLY_STARTED"
  _ ← apply_patch deps id path
  _ ← bridge deps "PATCH_APPLIED"
  return status

after_retest :
    CriticDependencies
    → CriticPatchContext
    → Text
    → Text
    → ExploitStatus × ExploitCriticOutcome
    → Step (Unit {0})
after_retest deps context path diff retest = do
  _ ← set_exploit retest.1
  _ ← bridge deps "EXPLOIT_RETEST_COMPLETED"
  _ ← require_fixed retest.0
  _ ← review_gate (deps.security_gate path diff context.finding_type)
  advisory deps

ruleset binds = (bind-rest, bind-first)

module _ (deps : CriticDependencies) (context : CriticPatchContext) (path diff : Text) where
  Exploited : Type 0
  Exploited =
      (wait_healthy deps before_patch ≡ true) × (deps.sniper before_patch ≡ ok (some confirmed))

  baseline-Exploited :
      (status : BaselineStatus)
      → CanGive (run_baseline deps context) status
      → Secures (require_baseline status) Exploited
  unfolding Exploited
  baseline-Exploited status ran = secure (λ middle value required.
      let same : status ≡ reproduced = require_baseline-ok status middle required in
      run_baseline-ok deps context ran.from (ran.gives ∙ ap (λ s. ok s) same))

  after_baseline-Exploited :
      (id : Text) (status : BaselineStatus)
      → CanGive (run_baseline deps context) status
      → Secures (after_baseline deps path id status) Exploited
  unfolding after_baseline
  after_baseline-Exploited id status ran = search (binds, baseline-Exploited) depth 30

  apply_in_sandbox-exploited :
      (id : Text) → Secures (apply_in_sandbox deps context path id) Exploited
  unfolding apply_in_sandbox after_baseline
  apply_in_sandbox-exploited id =
      bind-rest (bridge deps "BASELINE_CHECK_STARTED")
        (λ _. do status ← run_baseline deps context; after_baseline deps path id status)
        (λ _.
          bind-value (run_baseline deps context) (after_baseline deps path id)
            (after_baseline-Exploited id))

  applied-Secures : (id : Text) → Secures (apply_patch deps id path) ((n : ℕ) × (deps.apply ≡ ok n))
  applied-Secures id = secure (λ journal value h. apply_patch-ok deps id path journal h)

  apply_in_sandbox-applies :
      (id : Text) → Secures (apply_in_sandbox deps context path id) ((n : ℕ) × (deps.apply ≡ ok n))
  unfolding apply_in_sandbox
  apply_in_sandbox-applies id = search (binds, applied-Secures) depth 30

  startup-Secures : Secures (startup deps) (wait_healthy deps after_patch ≡ true)
  startup-Secures = secure (λ journal value h. startup-ok deps journal h)

  check_patched-starts : Secures (check_patched deps path) (wait_healthy deps after_patch ≡ true)
  unfolding check_patched
  check_patched-starts = search (binds, startup-Secures) depth 30

  build-Secures :
      Secures
        (run_build deps path)
        ((r : RunResult) × (deps.build_check ≡ ok r) × (r.status ≢ run_failed))
  build-Secures = secure (λ journal value h. run_build-ok deps path journal h)

  check_patched-builds :
      Secures
        (check_patched deps path)
        ((r : RunResult) × (deps.build_check ≡ ok r) × (r.status ≢ run_failed))
  unfolding check_patched
  check_patched-builds = search (binds, build-Secures) depth 30

  tests-Secures :
      Secures
        (run_tests deps)
        ((r : RunResult) × (deps.test_runner ≡ ok r) × (r.status ≢ run_failed))
  tests-Secures = secure (λ journal value h. run_tests-ok deps journal h)

  check_patched-tested :
      Secures
        (check_patched deps path)
        ((r : RunResult) × (deps.test_runner ≡ ok r) × (r.status ≢ run_failed))
  unfolding check_patched
  check_patched-tested = search (binds, tests-Secures) depth 30

  retest-Secures :
      (status : BaselineStatus) (retest : ExploitStatus × ExploitCriticOutcome)
      → CanGive (run_retest deps context status) retest
      → Secures (require_fixed retest.0) (deps.sniper after_patch ≡ ok (some not_confirmed))
  retest-Secures status retest ran = secure (λ middle value required.
      run_retest-ok deps context status ran.from ran.gives
        (require_fixed-ok retest.0 middle required))

  after_retest-Secures :
      (status : BaselineStatus) (retest : ExploitStatus × ExploitCriticOutcome)
      → CanGive (run_retest deps context status) retest
      → Secures
          (after_retest deps context path diff retest)
          (deps.sniper after_patch ≡ ok (some not_confirmed))
  unfolding after_retest
  after_retest-Secures status retest ran = search (binds, retest-Secures) depth 30

  check_exploit-fixed :
      (status : BaselineStatus)
      → Secures
          (check_exploit deps context path diff status)
          (deps.sniper after_patch ≡ ok (some not_confirmed))
  unfolding check_exploit after_retest
  check_exploit-fixed status =
      bind-rest (bridge deps "EXPLOIT_RETEST_STARTED")
        (λ _. do
          retest ← run_retest deps context status
          after_retest deps context path diff retest)
        (λ _.
          bind-value (run_retest deps context status) (after_retest deps context path diff)
            (after_retest-Secures status))

  gate-Secures :
      Secures
        (review_gate (deps.security_gate path diff context.finding_type))
        ((deps.security_gate path diff context.finding_type).0 ≡ true)
  gate-Secures = secure (λ journal value h.
      review_gate-ok (deps.security_gate path diff context.finding_type) journal h)

  check_exploit-reviewed :
      (status : BaselineStatus)
      → Secures
          (check_exploit deps context path diff status)
          ((deps.security_gate path diff context.finding_type).0 ≡ true)
  unfolding check_exploit
  check_exploit-reviewed status = search (binds, gate-Secures) depth 30

  check_in_sandbox-Passes :
      (id : Text)
      → Secures (check_in_sandbox deps context path diff id) (Passes deps context path diff)
  unfolding check_in_sandbox Exploited
  check_in_sandbox-Passes id =
      bind-rest (set_sandbox id)
        (λ _. do
          status ← apply_in_sandbox deps context path id
          _ ← check_patched deps path
          check_exploit deps context path diff status)
        (λ _.
          bind-value (apply_in_sandbox deps context path id)
            (λ status. do _ ← check_patched deps path; check_exploit deps context path diff status)
            (λ status applied.
              bind-value (check_patched deps path)
                (λ _. check_exploit deps context path diff status)
                (λ checked patched. secure (λ journal value h.
                  let exploited =
                    (apply_in_sandbox-exploited id).secured applied.from status applied.gives in
                  record {
                    reachable = exploited.0;
                    exploitable = exploited.1;
                    applies =
                        (apply_in_sandbox-applies id).secured applied.from status applied.gives;
                    starts = check_patched-starts.secured patched.from checked patched.gives;
                    builds = check_patched-builds.secured patched.from checked patched.gives;
                    tests_pass = check_patched-tested.secured patched.from checked patched.gives;
                    no_longer_exploitable = (check_exploit-fixed status).secured journal value h;
                    gate_passes = (check_exploit-reviewed status).secured journal value h;
                  }))))

  pub check_all-Passes : Secures (check_all deps context path diff) (Passes deps context path diff)
  unfolding check_all
  check_all-Passes = search (bind-rest, check_in_sandbox-Passes) depth 30
