-- ===== src/Critic/Steps.antt =====
-- critic/application/services/critic-steps.ts: what runs inside the validation sandbox.
use mathlib.Core.Option
use autoforge.Critic.Step.{
  ◌>>=◌, Step, emit, try_catch, Journal, return, call, emitted, try_finally, push_check, throw,
}
use autoforge.Common.Texts.{Text, codes}
use autoforge.Common.{
  ◌+◌, ◌||◌, ◌∷◌, ◌++◌, if◌then◌else◌, ℕ, zero, suc, Bool, true, false, not, Option, none, some,
  List, [], map, ltb, nat_eqb, length, take, filter,
}
use autoforge.Critic.{
  CriticDependencies, RuntimeRepositoryRef, CriticCheckName, BaselineStatus, ExploitStatus,
  RunStatus, RunResult, CriticCheckStatus, Moment, Thrown, CriticCheck, reproduced,
  CriticPatchContext, check_passed, other_status, RetestStatus, run_passed, sandbox_provisioning,
  not_reproduced, baseline, baseline_check_started, patch_apply_started, check_failed,
  build_started, tests_started, retest_confirmed, ExploitCriticOutcome, run_failed, confirmed,
  baseline_check_completed, check_not_available, check_error, retest_not_confirmed,
  exploit_retest_started, sandbox_destroyed, sandbox_destroying, run_not_available, not_confirmed,
  before_patch, patch_apply, build, test_suite, retest_inconclusive, after_patch, security_review,
  validation_infrastructure_error, build_completed, tests_completed, exploit_retest, patch_applied,
  baseline_invalid_error, patch_conflict_error, exploit_retest_completed, sandbox_ready,
  sandbox_provision_error, FreshSandbox, other_error,
}
use autoforge.Common.Result.{Result, ok, err}
use autoforge.Critic.Outcome.{join_with, message_of}
use autoforge.Common.Decimal.{show_ℕ}

-- `waitHealthy`: the clock reads `now` milliseconds after the start, a poll takes `poll_ms`, and
-- the pause after it a second at least.
unfoldable pub wait_from : CriticDependencies → Moment → ℕ → ℕ → ℕ → Bool
wait_from deps moment zero poll now = false
wait_from deps moment (suc fuel) poll now =
    let rest = wait_from deps moment fuel (suc poll) (now + deps.poll_ms moment poll + 1_000) in
    if ltb now 15_000 then (if deps.health moment poll then true else rest) else false

-- At most fifteen polls start within fifteen seconds.
unfoldable pub wait_healthy : CriticDependencies → Moment → Bool
unfolding wait_from
wait_healthy deps moment = wait_from deps moment 15 0 0

-- `repository.url || repository.path`, on texts that are absent or empty.
unfoldable pub is_present : Option Text → Bool
is_present none = false
is_present (some text) = not (nat_eqb (length text) 0)

unfoldable pub has_source : RuntimeRepositoryRef → Bool
unfolding is_present
has_source repo = is_present repo.url || is_present repo.path

unfoldable pub first_with_source :
    Option RuntimeRepositoryRef → List RuntimeRepositoryRef → Option RuntimeRepositoryRef
unfolding has_source
first_with_source repo [] = repo
first_with_source repo (existing ∷ others) = if has_source existing then some existing else repo

unfoldable pub listed_source :
    Option RuntimeRepositoryRef
    → Result Thrown (List RuntimeRepositoryRef)
    → Result Thrown (Option RuntimeRepositoryRef)
unfolding first_with_source
listed_source repo (err thrown) = err thrown
listed_source repo (ok listed) = ok (first_with_source repo listed)

-- The repository that a fresh sandbox is made of: the one given if it has a source, or else that
-- of the first sandbox of the scan.
unfoldable pub repository_of :
    CriticDependencies → Option RuntimeRepositoryRef → Result Thrown (Option RuntimeRepositoryRef)
unfolding listed_source has_source
repository_of deps override = elim deps.list_by_scan [
  | none ↦ ok override
  | some listed ↦ elim override [
    | none ↦ listed_source none listed
    | some repo ↦ if has_source repo then ok (some repo) else listed_source (some repo) listed
  ]
]

abbrev pub nameless : RuntimeRepositoryRef
nameless = record { name = some (codes "critic-validation"); url = none; path = none }

abbrev pub record_created : Text → Step (Unit {0})
record_created id journal = (ok tt, record journal { created = journal.created ++ id ∷ [] })

-- A port that is not null and not 0.
unfoldable pub is_port : Option ℕ → Bool
is_port none = false
is_port (some port) = not (nat_eqb port 0)

-- `toRuntimeContext` of runtime-sandbox.ts; of the context the Critic uses the id.
unfoldable pub to_runtime_context : FreshSandbox → Result Thrown Text
unfolding is_present is_port
to_runtime_context sandbox =
    if not (is_present sandbox.sandbox_id)
      || not (is_present sandbox.target_url)
      || not (is_present sandbox.internal_host)
      || not (is_port sandbox.internal_port)
    then err (
        other_error (
          codes "runtime sandbox "
          ++ (sandbox.id ++ codes " is not usable: missing connection info")))
    else ok sandbox.id

unfoldable pub provision_fresh : CriticDependencies → Option RuntimeRepositoryRef → Step Text
unfolding repository_of to_runtime_context
provision_fresh deps override = do
  _ ← emit sandbox_provisioning (codes "fresh validation sandbox")
  try_catch
      (do
        repo ← call (repository_of deps override)
        fresh ← call (deps.create (Option.get_or repo nameless))
        _ ← record_created fresh.id
        _ ← emit sandbox_ready (codes "fresh sandbox " ++ (fresh.id ++ codes " READY"))
        call (to_runtime_context fresh))
      (λ error. throw (sandbox_provision_error (message_of (codes "provision failed") error)))

abbrev pub check : CriticCheckName → CriticCheckStatus → ℕ → Text → CriticCheck
check name status duration_ms detail = record {
  name = name;
  status = status;
  duration_ms = duration_ms;
  detail = detail;
}

abbrev status_text : BaselineStatus → Text
status_text reproduced = codes "CONFIRMED"
status_text not_reproduced = codes "NOT_CONFIRMED"

abbrev pub baseline_of : Option ExploitStatus → BaselineStatus
baseline_of (some confirmed) = reproduced
baseline_of _ = not_reproduced

abbrev pub baseline_check : BaselineStatus → CriticCheck
baseline_check reproduced = check baseline check_passed 0 (codes "baseline exploit → CONFIRMED")
baseline_check not_reproduced =
    check baseline check_failed 0 (codes "baseline exploit → NOT_CONFIRMED")

-- What `finally` emits: the variable `status`, which is set only when the exploit has run.
abbrev pub baseline_end : Result Thrown BaselineStatus → Journal → Journal
baseline_end (err _) = emitted baseline_check_completed (status_text not_reproduced)
baseline_end (ok status) = emitted baseline_check_completed (status_text status)

-- The `try` of `runBaseline` and its `catch`.
unfoldable pub baseline_body : CriticDependencies → Step BaselineStatus
baseline_body deps =
    try_catch
      (if wait_healthy deps before_patch
        then (do
          report ← call (deps.sniper before_patch)
          _ ← push_check (baseline_check (baseline_of report))
          return (baseline_of report))
        else (do
          _ ← emit baseline_check_completed (codes "unreachable")
          _ ← push_check (check baseline check_failed 0 (codes "fresh application not reachable"))
          return not_reproduced))
      (λ error. do
        _ ← push_check (check baseline check_error 0 (codes "baseline execution failed"))
        throw (validation_infrastructure_error (message_of (codes "baseline failed") error)))

unfoldable pub run_baseline : CriticDependencies → CriticPatchContext → Step BaselineStatus
run_baseline deps context = do
  _ ← emit baseline_check_started context.vulnerability_id
  try_finally (baseline_body deps) baseline_end

unfoldable pub apply_patch : CriticDependencies → Text → Text → Step (Unit {0})
apply_patch deps sandbox_id file_path = do
  _ ← emit patch_apply_started file_path
  diff_chars ← call deps.apply
  _ ← push_check (
      check patch_apply check_passed 0 (
        codes "applied inside sandbox "
        ++ (sandbox_id ++ (codes " (" ++ (show_ℕ diff_chars ++ codes " diff chars)")))))
  emit patch_applied (codes "applied → " ++ file_path)

abbrev to_check_status : RunStatus → CriticCheckStatus
to_check_status run_passed = check_passed
to_check_status run_failed = check_failed
to_check_status run_not_available = check_not_available

abbrev run_status_text : RunStatus → Text
run_status_text run_passed = codes "PASSED"
run_status_text run_failed = codes "FAILED"
run_status_text run_not_available = codes "NOT_AVAILABLE"

-- `if (result.status === 'FAILED') throw error`.
abbrev pub throw_on_failure : RunStatus → Thrown → Step (Unit {0})
throw_on_failure run_passed error = return tt
throw_on_failure run_failed error = throw error
throw_on_failure run_not_available error = return tt

abbrev pub detail_of : RunResult → Text
detail_of result = Option.get_or result.detail []

unfoldable pub run_build : CriticDependencies → Text → Step (Unit {0})
run_build deps file_path = do
  _ ← emit build_started file_path
  result ← call deps.build_check
  _ ← push_check (check build (to_check_status result.status) result.duration_ms (detail_of result))
  _ ← emit build_completed (run_status_text result.status)
  throw_on_failure result.status
      (baseline_invalid_error (codes "build failed: " ++ detail_of result))

unfoldable pub run_tests : CriticDependencies → Step (Unit {0})
run_tests deps = do
  _ ← emit tests_started (codes "regression suite")
  result ← call deps.test_runner
  _ ←
      push_check
        (check test_suite (to_check_status result.status) result.duration_ms (detail_of result))
  _ ← emit tests_completed (run_status_text result.status)
  throw_on_failure result.status
      (patch_conflict_error (codes "regression tests failed: " ++ detail_of result))

pub data RetestVerdict : Type 0 where
  fixed succeeds inconclusive : RetestVerdict

-- `report.results[0]?.exploit?.status ?? 'NOT_TESTED'`.
abbrev pub tested_status : Option ExploitStatus → ExploitStatus
tested_status none = other_status (codes "NOT_TESTED")
tested_status (some status) = status

abbrev exploit_text : ExploitStatus → Text
exploit_text confirmed = codes "CONFIRMED"
exploit_text not_confirmed = codes "NOT_CONFIRMED"
exploit_text (other_status text) = text

abbrev pub verdict_of : ExploitStatus → RetestVerdict
verdict_of confirmed = succeeds
verdict_of not_confirmed = fixed
verdict_of (other_status _) = inconclusive

abbrev retest_check_status : RetestVerdict → CriticCheckStatus
retest_check_status fixed = check_passed
retest_check_status succeeds = check_failed
retest_check_status inconclusive = check_error

abbrev retest_status_of : ExploitStatus → RetestStatus
retest_status_of confirmed = retest_confirmed
retest_status_of not_confirmed = retest_not_confirmed
retest_status_of (other_status _) = retest_inconclusive

-- What `retest` gives back: the status, from which the verdict is read, and the outcome.
unfoldable pub run_retest :
    CriticDependencies
    → CriticPatchContext
    → BaselineStatus
    → Step (ExploitStatus × ExploitCriticOutcome)
run_retest deps context baseline_status = do
  _ ← emit exploit_retest_started context.exploit_target_id
  try_catch
      (do
        report ← call (deps.sniper after_patch)
        _ ← push_check (
            check exploit_retest (retest_check_status (verdict_of (tested_status report)))
              deps.retest_ms
              (codes "retest ("
                ++ (context.exploit_target_id
                    ++ (codes ") → " ++ exploit_text (tested_status report)))))
        _ ← emit exploit_retest_completed (exploit_text (tested_status report))
        return (
          tested_status report,
          record {
            baseline_status = baseline_status;
            retest_status = retest_status_of (tested_status report);
            target_id = context.exploit_target_id;
          },
        ))
      (λ error. do
        _ ←
            push_check
              (check exploit_retest check_error deps.retest_ms (codes "retest execution failed"))
        throw (validation_infrastructure_error (message_of (codes "retest failed") error)))

-- The labels of the checks that the gate reports as failed.
abbrev pub failed_labels : List (Text × Bool) → List Text
failed_labels checks = map (λ c. c.0) (filter (λ c. not c.1) checks)

abbrev advisory_detail : List Text → Text
advisory_detail [] = codes "advisory review: no concerns"
advisory_detail (concern ∷ concerns) =
    codes "advisory: " ++ take 300 (join_with (codes "; ") (concern ∷ concerns))

unfoldable pub advisory : CriticDependencies → Step (Unit {0})
advisory deps =
    if deps.advisory_enabled
    then try_catch
        (do
          concerns ← call deps.llm_review
          push_check (check security_review check_passed 0 (advisory_detail concerns)))
        (λ _.
          push_check
            (check security_review check_passed 0 (codes "advisory review unavailable (degraded)")))
    else return tt

-- The end of `teardown`, which absorbs what `destroy` throws.
abbrev destroy_end : Result Thrown (Unit {0}) → Journal → Journal
destroy_end (ok _) = emitted sandbox_destroyed (codes "validation sandbox destroyed")
destroy_end (err error) = emitted sandbox_destroyed (
    codes "destroy reported error; logged, not fatal ("
    ++ (take 100 (message_of (codes "unknown") error) ++ codes ")"))

unfoldable pub teardown : CriticDependencies → Text → Journal → Journal
teardown deps sandbox_id journal =
    let asked = emitted sandbox_destroying sandbox_id journal in
    destroy_end deps.destroy (record asked { destroyed = asked.destroyed ++ sandbox_id ∷ [] })
