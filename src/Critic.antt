-- ===== src/Critic.antt =====
-- The Critic of backend/src/critic: what one validation of a patch records, the errors it tells
-- apart (domain/errors/critic.errors.ts), and the services that it is given, as an interface.
-- The modules below it model application/services: the steps, the outcome, the service, the loop.
pub mod Step
pub mod Outcome
pub mod Steps
pub mod Service
pub mod Loop
pub mod Frame
pub mod Waiting
pub mod Secures
pub mod Checks
pub mod Approval
pub mod Row
pub mod Teardown
pub mod Once
mod Tests
use autoforge.Common.{ℕ, String, Bool, Option, List, tests}
use autoforge.Common.Texts.{Text}
use autoforge.Common.Result.{Result}

pub data CriticStatus : Type 0 where
  approved rejected failed : CriticStatus

pub data CriticFailureKind : Type 0 where
  patch_rejected validation_infrastructure_failure baseline_invalid : CriticFailureKind
  sandbox_provision_failure application_start_failure exploit_still_succeeds : CriticFailureKind

pub data CriticCheckName : Type 0 where
  baseline patch_apply application_startup build test_suite exploit_retest security_review :
      CriticCheckName

pub data CriticCheckStatus : Type 0 where
  check_passed check_failed check_not_available check_skipped check_error : CriticCheckStatus

pub record CriticCheck : Type 0 where
  pub name : CriticCheckName
  pub status : CriticCheckStatus
  pub duration_ms : ℕ
  pub detail : Text

-- `exploit.status` of a Sniper report: the two values that the Critic tests, and the others.
pub data ExploitStatus : Type 0 where
  confirmed not_confirmed : ExploitStatus
  other_status : Text → ExploitStatus

pub data RetestStatus : Type 0 where
  retest_confirmed retest_not_confirmed retest_inconclusive : RetestStatus

-- The status of a baseline that has run to its end.
pub data BaselineStatus : Type 0 where
  reproduced not_reproduced : BaselineStatus

pub record ExploitCriticOutcome : Type 0 where
  pub baseline_status : BaselineStatus
  pub retest_status : RetestStatus
  pub target_id : Text

-- `evidence` is left out: every feedback of the source has none.
pub record CriticFeedback : Type 0 where
  pub reason : CriticFailureKind
  pub failed_checks : List Text
  pub guidance : Text

-- What can be thrown: the classes of the errors module, other errors, and values that are none.
pub data Thrown : Type 0 where
  patch_not_found_error : Text → Thrown
  invalid_patch_status_error : Text → Thrown
  unsupported_vulnerability_error : Text → Thrown
  sandbox_provision_error : Text → Thrown
  baseline_invalid_error : Text → Thrown
  application_start_error : Text → Thrown
  patch_conflict_error : Text → Thrown
  exploit_still_succeeds_error : Text → Thrown
  exploit_inconclusive_error : Text → Thrown
  security_gate_error : List Text → Thrown
  validation_infrastructure_error : Text → Thrown
  other_error : Text → Thrown
  not_an_error : Thrown

pub data ReviewablePatchStatus : Type 0 where
  generated under_review patch_approved : ReviewablePatchStatus
  patch_rejected_status : ReviewablePatchStatus

pub record ReviewablePatch : Type 0 where
  pub id : Text
  pub file_path : Option Text
  pub diff_content : Option Text

pub record CriticPatchContext : Type 0 where
  pub vulnerability_id : Text
  pub finding_type : String
  pub finding_status : String
  pub finding_file_path : Option Text
  pub line_number : Option ℕ
  pub exploit_target_id : Text

pub data CriticEventName : Type 0 where
  sandbox_provisioning sandbox_ready baseline_check_started : CriticEventName
  baseline_check_completed patch_apply_started patch_applied : CriticEventName
  build_started build_completed tests_started tests_completed : CriticEventName
  exploit_retest_started exploit_retest_completed critic_approved : CriticEventName
  critic_rejected sandbox_destroying sandbox_destroyed : CriticEventName

-- What a build check or a test run reports.
pub data RunStatus : Type 0 where
  run_passed run_failed run_not_available : RunStatus

pub record RunResult : Type 0 where
  pub status : RunStatus
  pub detail : Option Text
  pub duration_ms : ℕ

pub record RuntimeRepositoryRef : Type 0 where
  pub name : Option Text
  pub url : Option Text
  pub path : Option Text

-- What the Critic reads of the `RuntimeSandbox` that `create` returns.
pub record FreshSandbox : Type 0 where
  pub id : Text
  pub sandbox_id : Option Text
  pub target_url : Option Text
  pub internal_host : Option Text
  pub internal_port : Option ℕ

-- The two places where the run waits for the application, and the two runs of the exploit.
pub data Moment : Type 0 where
  before_patch after_patch : Moment

-- The services that the Critic is given, by what their calls give back in this run. A call that
-- throws gives the value thrown, and has changed nothing. `health` and `poll_ms` are those of the polls, by their number.
pub record CriticDependencies : Type 0 where
  pub get_patch : Result Thrown (Option ReviewablePatch)
  pub resolve_for_patch : Result Thrown (Option CriticPatchContext)
  pub mark_under_review : Result Thrown (Unit {0})
  pub set_verdict : Result Thrown (Unit {0})
  pub list_by_scan : Option (Result Thrown (List RuntimeRepositoryRef))
  pub create : RuntimeRepositoryRef → Result Thrown FreshSandbox
  pub health : Moment → ℕ → Bool
  pub poll_ms : Moment → ℕ → ℕ
  pub sniper : Moment → Result Thrown (Option ExploitStatus)
  pub retest_ms : ℕ
  pub apply : Result Thrown ℕ
  pub build_check : Result Thrown RunResult
  pub test_runner : Result Thrown RunResult
  pub security_gate : Text → Text → String → Bool × List (Text × Bool)
  pub advisory_enabled : Bool
  pub llm_review : Result Thrown (List Text)
  pub destroy : Result Thrown (Unit {0})
  pub record_execution : Result Thrown Text
  pub save : Result Thrown Text
  pub events_bridge : Bool
