-- ===== src/Critic/Service.antt =====
-- critic/application/services/critic.service.ts. `run` is `DefaultCriticService.run`, on a patch
-- whose row's status stands in the journal.
use autoforge.Critic.Step.{
  ◌>>=◌, Step, return, push_check, bridge, Journal, throw, emit, try_finally, call, try_catch,
}
use autoforge.Common.Texts.{Text, codes}
use autoforge.Common.{
  ◌&&◌, ◌∷◌, ◌++◌, ◌==◌, if◌then◌else◌, ℕ, String, Bool, Option, none, some, List, [], take, any,
  string_eq,
}
use autoforge.Critic.{
  ReviewablePatchStatus, ExploitCriticOutcome, BaselineStatus, ExploitStatus, CriticDependencies,
  CriticCheck, CriticFailureKind, CriticStatus, Thrown, ReviewablePatch, CriticPatchContext, Result,
  patch_rejected_status, CriticFeedback, invalid_patch_status_error,
  unsupported_vulnerability_error, patch_rejected, generated, baseline_invalid_error,
  exploit_still_succeeds_error, check_passed, application_startup, after_patch, patch_approved,
  patch_not_found_error, patch_conflict_error, validation_infrastructure_failure, rejected,
  under_review, other_status, check_failed, application_start_error, critic_approved,
  critic_rejected, reproduced, baseline_invalid, approved, exploit_inconclusive_error,
  not_reproduced, sandbox_provision_failure, failed, not_confirmed, application_start_failure,
  confirmed, exploit_still_succeeds, security_review,
}
use autoforge.Critic.Outcome.{
  join_with, CriticRunResult, Failure, persist, classify_failure, security_gate_failure,
}
use autoforge.Common.Result.{Result, ok, err}
use autoforge.Critic.Steps.{
  check, wait_healthy, run_baseline, run_retest, provision_fresh, teardown, apply_patch, advisory,
  failed_labels, run_build, run_tests,
}

-- `await this.deps.patches.setVerdict(...)`, which has changed the row unless it throws.
abbrev pub set_row : ReviewablePatchStatus → Result Thrown (Unit {0}) → Step (Unit {0})
set_row status (err thrown) journal = (err thrown, journal)
set_row status (ok _) journal = (ok tt, record journal { patch_status = status })

abbrev pub set_sandbox : Text → Step (Unit {0})
set_sandbox id journal = (ok tt, record journal { sandbox = some id })

abbrev pub set_exploit : ExploitCriticOutcome → Step (Unit {0})
set_exploit exploit journal = (ok tt, record journal { exploit = some exploit })

abbrev pub require_baseline : BaselineStatus → Step (Unit {0})
require_baseline reproduced = return tt
require_baseline not_reproduced =
    throw
      (baseline_invalid_error (codes "offending exploit is not reproducible in the fresh sandbox"))

abbrev pub require_fixed : ExploitStatus → Step (Unit {0})
require_fixed not_confirmed = return tt
require_fixed confirmed = throw (
    exploit_still_succeeds_error
      (codes "the original SQL injection is still confirmed after the patch"))
require_fixed (other_status text) =
    throw (exploit_inconclusive_error (codes "retest did not conclude (" ++ (text ++ codes ")")))

abbrev gate_detail : List Text → Text
gate_detail [] = codes "deterministic checklist ok"
gate_detail (label ∷ labels) = join_with (codes ", ") (take 3 (label ∷ labels))

unfoldable pub review_gate : Bool × List (Text × Bool) → Step (Unit {0})
review_gate gate = do
  _ ← push_check (
      check security_review (if gate.0 then check_passed else check_failed) 0
        (gate_detail (failed_labels gate.1)))
  if gate.0 then return tt else throw (security_gate_failure (failed_labels gate.1))

-- From the fresh sandbox on: the baseline, and the patch in its place.
unfoldable pub apply_in_sandbox :
    CriticDependencies → CriticPatchContext → Text → Text → Step BaselineStatus
apply_in_sandbox deps context file_path sandbox_id = do
  _ ← bridge deps "BASELINE_CHECK_STARTED"
  status ← run_baseline deps context
  _ ← bridge deps "BASELINE_CHECK_COMPLETED"
  _ ← require_baseline status
  _ ← bridge deps "PATCH_APPLY_STARTED"
  _ ← apply_patch deps sandbox_id file_path
  _ ← bridge deps "PATCH_APPLIED"
  return status

abbrev pub startup_check : CriticCheck
startup_check = check application_startup check_passed 0 (codes "health check ok")

abbrev pub startup : CriticDependencies → Step (Unit {0})
startup deps =
    if wait_healthy deps after_patch
    then push_check startup_check
    else throw (application_start_error (codes "application did not become healthy after patch"))

-- The patched application: it starts, it builds, its tests pass.
unfoldable pub check_patched : CriticDependencies → Text → Step (Unit {0})
check_patched deps file_path = do
  _ ← startup deps
  _ ← bridge deps "BUILD_STARTED"
  _ ← run_build deps file_path
  _ ← bridge deps "BUILD_COMPLETED"
  _ ← bridge deps "TESTS_STARTED"
  _ ← run_tests deps
  bridge deps "TESTS_COMPLETED"

-- The exploit is tried again, and the diff is reviewed.
unfoldable pub check_exploit :
    CriticDependencies → CriticPatchContext → Text → Text → BaselineStatus → Step (Unit {0})
check_exploit deps context file_path diff_content status = do
  _ ← bridge deps "EXPLOIT_RETEST_STARTED"
  retest ← run_retest deps context status
  _ ← set_exploit retest.1
  _ ← bridge deps "EXPLOIT_RETEST_COMPLETED"
  _ ← require_fixed retest.0
  _ ← review_gate (deps.security_gate file_path diff_content context.finding_type)
  advisory deps

-- The body of `try` from the fresh sandbox on, up to the verdict.
unfoldable pub check_in_sandbox :
    CriticDependencies → CriticPatchContext → Text → Text → Text → Step (Unit {0})
check_in_sandbox deps context file_path diff_content sandbox_id = do
  _ ← set_sandbox sandbox_id
  status ← apply_in_sandbox deps context file_path sandbox_id
  _ ← check_patched deps file_path
  check_exploit deps context file_path diff_content status

-- The body of `try` up to the verdict.
unfoldable pub check_all : CriticDependencies → CriticPatchContext → Text → Text → Step (Unit {0})
check_all deps context file_path diff_content = do
  _ ← bridge deps "CRITIC_STARTED"
  sandbox_id ← provision_fresh deps none
  check_in_sandbox deps context file_path diff_content sandbox_id

-- The rest of the body of `try` when nothing was thrown, up to the result.
unfoldable pub approve : CriticDependencies → ReviewablePatch → Step (Unit {0})
approve deps patch = do
  _ ← set_row patch_approved deps.set_verdict
  _ ← bridge deps "CRITIC_APPROVED"
  emit critic_approved (codes "patch " ++ (patch.id ++ codes " approved"))

abbrev pub kind_text : CriticFailureKind → Text
kind_text patch_rejected = codes "PATCH_REJECTED"
kind_text validation_infrastructure_failure = codes "VALIDATION_INFRASTRUCTURE_FAILURE"
kind_text baseline_invalid = codes "BASELINE_INVALID"
kind_text sandbox_provision_failure = codes "SANDBOX_PROVISION_FAILURE"
kind_text application_start_failure = codes "APPLICATION_START_FAILURE"
kind_text exploit_still_succeeds = codes "EXPLOIT_STILL_SUCCEEDS"

-- The two branches of `failed`.
abbrev pub announce : CriticDependencies → CriticStatus → CriticFailureKind → Step (Unit {0})
announce deps rejected kind = do
  _ ← set_row patch_rejected_status deps.set_verdict
  _ ← bridge deps "CRITIC_REJECTED"
  emit critic_rejected (kind_text kind)
announce deps approved kind = bridge deps "CRITIC_FAILED"
announce deps failed kind = bridge deps "CRITIC_FAILED"

abbrev pub kept_feedback : CriticStatus → Option CriticFeedback → Option CriticFeedback
kept_feedback rejected feedback = feedback
kept_feedback approved feedback = none
kept_feedback failed feedback = none

-- `this.failed(...)`, on a failure that is classified.
unfoldable pub conclude :
    CriticDependencies → ReviewablePatch → CriticPatchContext → ℕ → Failure → Step CriticRunResult
conclude deps patch context attempt failure = do
  _ ← announce deps failure.status failure.failure_kind
  persist deps patch context attempt failure.status (some failure.failure_kind)
      (kept_feedback failure.status failure.feedback) (some failure.error_message)

-- What `validate` returns: the promise of a result, which the body of `try` does not wait for, so
-- that what it throws is not caught there.
abbrev pub finish :
    CriticDependencies
    → ReviewablePatch
    → CriticPatchContext
    → ℕ
    → Option Failure
    → Step CriticRunResult
finish deps patch context attempt none = persist deps patch context attempt approved none none none
finish deps patch context attempt (some failure) = conclude deps patch context attempt failure

-- The `finally` of `validate`.
abbrev pub tear_down_if : CriticDependencies → Option Text → Journal → Journal
tear_down_if deps none journal = journal
tear_down_if deps (some id) journal = teardown deps id journal

-- The failure that is caught, or none when the patch is approved.
unfoldable pub attempt_checks :
    CriticDependencies → ReviewablePatch → CriticPatchContext → Text → Text → Step (Option Failure)
attempt_checks deps patch context file_path diff_content =
    try_catch
      (do _ ← check_all deps context file_path diff_content; _ ← approve deps patch; return none)
      (λ error. return (some (classify_failure error)))

-- The source does not wait for the returned promise before `finally`: what `failed` or `persist` does
-- and the teardown overlap. Of the orders this allows, the first is taken here: all of the first and
-- then the teardown. They write different fields of the journal but for `events`, so another order
-- gives the same journal up to the order of its last events.
unfoldable pub validate :
    CriticDependencies
    → ReviewablePatch
    → CriticPatchContext
    → ℕ
    → Text
    → Text
    → Step CriticRunResult
validate deps patch context attempt file_path diff_content =
    try_finally
      (do
        failure ← attempt_checks deps patch context file_path diff_content
        finish deps patch context attempt failure)
      (λ _ journal. tear_down_if deps journal.sandbox journal)

abbrev supported_critic_types : List String
supported_critic_types =
    "SQL_INJECTION" ∷ "SECURITY_MISCONFIGURATION" ∷ "XSS" ∷ "BROKEN_ACCESS_CONTROL"
    ∷ "PATH_TRAVERSAL" ∷ []

abbrev status_name : ReviewablePatchStatus → Text
status_name generated = codes "GENERATED"
status_name under_review = codes "UNDER_REVIEW"
status_name patch_approved = codes "APPROVED"
status_name patch_rejected_status = codes "REJECTED"

abbrev pub invalid_patch_status : Text → ReviewablePatchStatus → Thrown
invalid_patch_status patch_id status = invalid_patch_status_error (
    codes "patch "
    ++ (patch_id ++ (codes " is not reviewable (status=" ++ (status_name status ++ codes ")"))))

abbrev unsupported_vulnerability : Text → String → String → Thrown
unsupported_vulnerability id status type = unsupported_vulnerability_error (
    codes "vulnerability "
    ++ (id
        ++ (codes " is not a CONFIRMED SQL_INJECTION (status="
            ++ (codes status ++ (codes " type=" ++ (codes type ++ codes ")"))))))

abbrev pub require_patch : Text → Option ReviewablePatch → Step ReviewablePatch
require_patch patch_id none = throw (patch_not_found_error patch_id)
require_patch patch_id (some patch) = return patch

abbrev pub require_generated : Text → ReviewablePatchStatus → Step (Unit {0})
require_generated patch_id generated = return tt
require_generated patch_id status = throw (invalid_patch_status patch_id status)

abbrev pub require_supported : Text → Option CriticPatchContext → Step CriticPatchContext
require_supported patch_id none = throw (unsupported_vulnerability patch_id "n/a" "n/a")
require_supported patch_id (some context) =
    if context.finding_status == "CONFIRMED"
      && any (λ t. t == context.finding_type) supported_critic_types
    then return context
    else throw (unsupported_vulnerability patch_id context.finding_status context.finding_type)

-- A text that is there and is not empty.
abbrev pub require_text : Option Text → Step Text
require_text none = throw (patch_conflict_error (codes "patch has no file content to validate"))
require_text (some []) =
    throw (patch_conflict_error (codes "patch has no file content to validate"))
require_text (some (c ∷ text)) = return (c ∷ text)

-- The variables of one call of `validate`, which starts with none of them set.
abbrev pub fresh_locals : Step (Unit {0})
fresh_locals journal = (ok tt, record journal { checks = []; sandbox = none; exploit = none })

abbrev pub read_status : Step ReviewablePatchStatus
read_status journal = (ok journal.patch_status, journal)

-- `run` from the context of the finding on.
unfoldable pub run_context :
    CriticDependencies → ReviewablePatch → ℕ → CriticPatchContext → Step CriticRunResult
run_context deps patch attempt context = do
  file_path ← require_text patch.file_path
  diff_content ← require_text patch.diff_content
  _ ← set_row under_review deps.mark_under_review
  _ ← fresh_locals
  validate deps patch context attempt file_path diff_content

-- `run` from the patch on.
unfoldable pub run_patch : CriticDependencies → Text → ℕ → ReviewablePatch → Step CriticRunResult
run_patch deps patch_id attempt patch = do
  status ← read_status
  _ ← require_generated patch_id status
  resolved ← call deps.resolve_for_patch
  context ← require_supported patch_id resolved
  run_context deps patch attempt context

unfoldable pub run : CriticDependencies → Text → ℕ → Step CriticRunResult
run deps patch_id attempt = do
  found ← call deps.get_patch
  patch ← require_patch patch_id found
  run_patch deps patch_id attempt patch
