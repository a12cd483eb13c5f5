-- ===== src/Critic/Tests.antt =====
-- Runs of the Critic and of the remediation loop, and their theorems at concrete services.
use autoforge.Critic.{
  before_patch, after_patch, confirmed, not_confirmed, not_an_error, other_error, generated,
  patch_rejected_status, FreshSandbox,
}
use autoforge.Common.Texts.{codes, Text}
use autoforge.Common.{
  ◌≡◌, refl, true, none, some, [], nat_eqb, ◌≤◌, ◌↔◌, ◌++◌, if◌then◌else◌, ℕ, length, arith, ◌∷◌,
}
use autoforge.Critic.Service.{
  validate, attempt_checks, check_all, check_in_sandbox, apply_in_sandbox, check_patched,
  check_exploit, review_gate, approve, conclude, run, run_context, run_patch, invalid_patch_status,
}
use autoforge.Common.Result.{Result, ok, err}
use autoforge.Critic.{
  CriticDependencies, ReviewablePatch, CriticPatchContext, patch_approved, under_review, Thrown,
  approved, RunResult, run_failed, run_passed, confirmed, rejected,
}
use autoforge.Critic.Step.{Journal}
use autoforge.Critic.Outcome.{CriticRunResult, persist, classify_failure, make_feedback, message_of}
use autoforge.Critic.Steps.{
  provision_fresh, run_baseline, baseline_body, apply_patch, run_build, run_tests, run_retest,
  advisory, teardown, wait_healthy, wait_from, repository_of, to_runtime_context, is_present,
  is_port,
}
use autoforge.Critic.Secures.{Passes}
use autoforge.Critic.Approval.{validate-Passes}
use autoforge.Critic.Row.{Settles, validate-Settles}
use autoforge.Critic.Loop.{
  EngineerRunResult, RemediationLoopDependencies, RemediationLoopInput, run_loop,
  engineer_generated, loop, round, after_engineer, after_patch_id, after_critic, after_status,
}
use autoforge.Critic.Loop.History.{
  History, IsNumbered, HasApproval, IsRetried, run_loop-History, run_loop-bounds, run_loop-approved,
}
use autoforge.Critic.Teardown.{made, listed, validate-destroyed}
use autoforge.Critic.Waiting.{wait_healthy-rounds}
use autoforge.Critic.Once.{run-once}

run_test : Unit {0}
unfolding validate attempt_checks check_all check_in_sandbox apply_in_sandbox check_patched
    check_exploit review_gate approve conclude persist provision_fresh run_baseline baseline_body
    apply_patch run_build run_tests run_retest advisory teardown wait_healthy wait_from
    classify_failure make_feedback made message_of run_loop loop round after_engineer after_patch_id
    after_critic after_status repository_of to_runtime_context is_present is_port
run_test = tt

abbrev passed_run : Result Thrown RunResult
passed_run = ok (record { status = run_passed; detail = none; duration_ms = 3 })

abbrev a_sandbox : FreshSandbox
a_sandbox = record {
  id = codes "s1";
  sandbox_id = some (codes "c1");
  target_url = some (codes "http://a");
  internal_host = some (codes "h1");
  internal_port = some 80;
}

-- A scan whose sandbox can be made, and a patch that fixes the exploit.
abbrev good : CriticDependencies
good = record {
  get_patch = ok none;
  resolve_for_patch = ok none;
  mark_under_review = ok tt;
  set_verdict = ok tt;
  list_by_scan = none;
  create = λ _. ok a_sandbox;
  health = λ _ poll. nat_eqb poll 1;
  poll_ms = λ _ _. 5;
  sniper = λ moment. elim moment [
    | before_patch ↦ ok (some confirmed)
    | after_patch ↦ ok (some not_confirmed)
  ];
  retest_ms = 7;
  apply = ok 120;
  build_check = passed_run;
  test_runner = passed_run;
  security_gate = λ _ _ _. (true, []);
  advisory_enabled = true;
  llm_review = err not_an_error;
  destroy = err (other_error (codes "gone"));
  record_execution = ok (codes "e1");
  save = ok (codes "r1");
  events_bridge = true;
}

-- The same, with a build check that fails.
abbrev bad_build : CriticDependencies
bad_build = record good {
  build_check =
      ok (record { status = run_failed; detail = some (codes "syntax"); duration_ms = 3 });
}

abbrev a_patch : ReviewablePatch
a_patch = record {
  id = codes "p1";
  file_path = some (codes "a.ts");
  diff_content = some (codes "+x");
}

abbrev a_context : CriticPatchContext
a_context = record {
  vulnerability_id = codes "v1";
  finding_type = "SQL_INJECTION";
  finding_status = "CONFIRMED";
  finding_file_path = none;
  line_number = none;
  exploit_target_id = codes "t1";
}

abbrev start : Journal
start = record {
  patch_status = under_review;
  events = [];
  bridged = [];
  created = [];
  destroyed = [];
  checks = [];
  sandbox = none;
  exploit = none;
}

abbrev validated : CriticDependencies → Result Thrown CriticRunResult × Journal
validated deps = validate deps a_patch a_context 1 (codes "a.ts") (codes "+x") start

abbrev good_result : CriticRunResult
good_result = record {
  id = codes "r1";
  patch_id = codes "p1";
  vulnerability_id = codes "v1";
  execution_id = codes "e1";
  attempt = 1;
  status = approved;
  failure_kind = none;
  error_message = none;
  checks = [];
  exploit = none;
  feedback = none;
}

good_test : (validated good).1.patch_status ≡ patch_approved
unfolding run_test
good_test = refl

-- A sandbox that is made without a port is not used, and nobody asks for its destruction.
abbrev portless : CriticDependencies
portless = record good { create = λ _. ok (record a_sandbox { internal_port = none }) }

portless_test :
    ((validated portless).1.created ≡ codes "s1" ∷ []) × ((validated portless).1.destroyed ≡ [])
unfolding run_test
portless_test = (refl, refl)

-- A build that fails after the patch leaves the row as it was.
bad_build_test : (validated bad_build).1.patch_status ≡ under_review
unfolding run_test
bad_build_test = refl

abbrev result_of : Result Thrown CriticRunResult × Journal → CriticRunResult
result_of (err error, journal) = good_result
result_of (ok result, journal) = result

-- The same, with an exploit that still succeeds.
abbrev exploited : CriticDependencies
exploited = record good { sniper = λ _. ok (some confirmed) }

validate-Passes_example :
    ((id : Text) × (made good ≡ some id)) × Passes good a_context (codes "a.ts") (codes "+x")
unfolding run_test
validate-Passes_example =
    validate-Passes good a_patch a_context 1 (codes "a.ts") (codes "+x") start refl refl refl

validate-Settles_example :
    Settles exploited a_patch a_context 1 under_review
      (result_of (validated exploited))
      (validated exploited).1
unfolding run_test
validate-Settles_example =
    validate-Settles exploited a_patch a_context 1 (codes "a.ts") (codes "+x") start refl refl

validate-destroyed_example : (validated exploited).1.destroyed ≡ [] ++ listed (some (codes "s1"))
unfolding run_test
validate-destroyed_example =
    validate-destroyed exploited a_patch a_context 1 (codes "a.ts") (codes "+x") start refl

-- An Engineer that generates a patch each time, and a Critic that approves the second.
abbrev an_engineer : EngineerRunResult
an_engineer = record {
  vulnerability_id = codes "v1";
  patch_id = some (codes "p1");
  status = engineer_generated;
  reason = none;
}

abbrev second_time : ℕ → CriticRunResult
second_time n = record good_result { status = if nat_eqb n 2 then approved else rejected }

abbrev two_rounds : RemediationLoopDependencies
two_rounds = record {
  engineer = λ n input. ok an_engineer;
  critic = λ n patch_id. ok (second_time n);
  max_engineer_attempts = 3;
}

abbrev an_input : RemediationLoopInput
an_input = record { scan_id = codes "s"; vulnerability_id = none }

two_rounds_test : (run_loop two_rounds an_input).final_status ≡ approved
unfolding run_test
two_rounds_test = refl

run_loop-History_example :
    History two_rounds
      (codes "s")
      3
      1
      []
      none
      (run_loop two_rounds an_input).attempts
      (run_loop two_rounds an_input).final_status
run_loop-History_example = run_loop-History two_rounds an_input

run_loop-bounds_example :
    (length (run_loop two_rounds an_input).attempts ≤ 3)
    × IsNumbered 1 (run_loop two_rounds an_input).attempts
    × IsRetried (run_loop two_rounds an_input).attempts
run_loop-bounds_example = run_loop-bounds two_rounds an_input

run_loop-approved_example :
    ((run_loop two_rounds an_input).final_status ≡ approved)
    ↔ HasApproval (run_loop two_rounds an_input).attempts
run_loop-approved_example = run_loop-approved two_rounds an_input

wait_healthy-rounds_example : wait_from good after_patch 40 0 0 ≡ wait_healthy good after_patch
wait_healthy-rounds_example = wait_healthy-rounds good after_patch 40 (omega arith)

abbrev with_patch : CriticDependencies
with_patch = record exploited {
  get_patch = ok (some a_patch);
  resolve_for_patch = ok (some a_context);
}

abbrev generated_start : Journal
generated_start = record start { patch_status = generated }

abbrev first_run : Result Thrown CriticRunResult × Journal
first_run = run with_patch (codes "p1") 1 generated_start

run-once_example :
    run with_patch (codes "p1") 2 first_run.1
    ≡ (err (invalid_patch_status (codes "p1") patch_rejected_status), first_run.1)
unfolding run_test run run_context run_patch
run-once_example = run-once with_patch with_patch (codes "p1") 1 2 generated_start refl refl
