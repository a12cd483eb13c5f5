-- ===== src/Critic/Outcome.antt =====
-- critic/application/services/critic-outcome.ts, and the messages of the errors.
use autoforge.Common.Result.{◌>>=◌, ok}
use autoforge.Common.Texts.{Text, codes}
use autoforge.Common.{
  ◌∷◌, ◌++◌, if◌then◌else◌, ℕ, Option, none, some, List, [], nat_eqb, length, take,
}
use autoforge.Critic.{
  Thrown, CriticFailureKind, CriticStatus, CriticDependencies, patch_not_found_error,
  security_gate_error, CriticFeedback, rejected, failed, exploit_still_succeeds_error, CriticCheck,
  invalid_patch_status_error, exploit_still_succeeds, ExploitCriticOutcome,
  unsupported_vulnerability_error, patch_rejected, sandbox_provision_error, patch_conflict_error,
  baseline_invalid_error, application_start_error, baseline_invalid, exploit_inconclusive_error,
  application_start_failure, validation_infrastructure_error, sandbox_provision_failure,
  other_error, validation_infrastructure_failure, not_an_error, ReviewablePatch, CriticPatchContext,
}
use autoforge.Common.Decimal.{show_ℕ}
use autoforge.Critic.Step.{Step}

-- `texts.join(separator)`.
unfoldable pub join_with : Text → List Text → Text
join_with separator [] = []
join_with separator (text ∷ []) = text
join_with separator (text ∷ next ∷ texts) =
    text ++ (separator ++ join_with separator (next ∷ texts))

-- `labels.join(', ') || 'unknown'`.
unfoldable pub labels_or_unknown : List Text → Text
unfolding join_with
labels_or_unknown labels =
    let joined = join_with (codes ", ") labels in
    if nat_eqb (length joined) 0 then codes "unknown" else joined

-- `error instanceof Error ? error.message.slice(0, 300) : fallback`, the fallback given.
unfoldable pub message_of : Text → Thrown → Text
unfolding labels_or_unknown
message_of fallback (patch_not_found_error id) =
    take 300 (codes "patch " ++ (id ++ codes " not found"))
message_of fallback (invalid_patch_status_error text) = take 300 text
message_of fallback (unsupported_vulnerability_error text) = take 300 text
message_of fallback (sandbox_provision_error text) = take 300 text
message_of fallback (baseline_invalid_error text) = take 300 text
message_of fallback (application_start_error text) = take 300 text
message_of fallback (patch_conflict_error text) = take 300 text
message_of fallback (exploit_still_succeeds_error text) = take 300 text
message_of fallback (exploit_inconclusive_error detail) =
    take 300 (codes "exploit retest is inconclusive: " ++ detail)
message_of fallback (security_gate_error labels) =
    take 300 (codes "security review failed: " ++ labels_or_unknown labels)
message_of fallback (validation_infrastructure_error text) = take 300 text
message_of fallback (other_error text) = take 300 text
message_of fallback not_an_error = fallback

-- `new SecurityGateFailureError(labels)`.
abbrev pub security_gate_failure : List Text → Thrown
security_gate_failure labels = security_gate_error (take 6 labels)

unfoldable pub make_feedback : CriticFailureKind → List Text → Text → CriticFeedback
make_feedback reason failed_checks guidance = record {
  reason = reason;
  failed_checks = take 6 failed_checks;
  guidance = take 400 guidance;
}

pub record Failure : Type 0 where
  pub status : CriticStatus
  pub failure_kind : CriticFailureKind
  pub feedback : Option CriticFeedback
  pub error_message : Text

abbrev rejection : CriticFailureKind → List Text → Text → Failure
rejection kind failed_checks message = record {
  status = rejected;
  failure_kind = kind;
  feedback = some (make_feedback kind failed_checks message);
  error_message = message;
}

abbrev breakdown : CriticFailureKind → Text → Failure
breakdown kind message = record {
  status = failed;
  failure_kind = kind;
  feedback = none;
  error_message = message;
}

unfoldable pub classify_failure : Thrown → Failure
classify_failure error =
    let message = message_of (codes "validation failed") error in
    elim error [
      | exploit_still_succeeds_error _ ↦
          rejection exploit_still_succeeds (codes "exploit-retest" ∷ []) message
      | security_gate_error labels ↦
          rejection patch_rejected (codes "security-review" ∷ labels) message
      | patch_conflict_error _ ↦
          rejection patch_rejected (codes "build" ∷ codes "tests" ∷ []) message
      | baseline_invalid_error _ ↦ breakdown baseline_invalid message
      | application_start_error _ ↦ breakdown application_start_failure message
      | sandbox_provision_error _ ↦ breakdown sandbox_provision_failure message
      | exploit_inconclusive_error _ ↦ breakdown validation_infrastructure_failure message
      | validation_infrastructure_error _ ↦ breakdown validation_infrastructure_failure message
      | _ ↦ breakdown validation_infrastructure_failure message
    ]

pub record CriticRunResult : Type 0 where
  pub id : Text
  pub patch_id : Text
  pub vulnerability_id : Text
  pub execution_id : Text
  pub attempt : ℕ
  pub status : CriticStatus
  pub failure_kind : Option CriticFailureKind
  pub error_message : Option Text
  pub checks : List CriticCheck
  pub exploit : Option ExploitCriticOutcome
  pub feedback : Option CriticFeedback

-- `CriticOutcomeWriter.persist`: the execution is recorded, and then the run is saved.
unfoldable pub persist :
    CriticDependencies
    → ReviewablePatch
    → CriticPatchContext
    → ℕ
    → CriticStatus
    → Option CriticFailureKind
    → Option CriticFeedback
    → Option Text
    → Step CriticRunResult
persist deps patch context attempt status failure_kind feedback error_message journal = (
  (do
    execution_id ← deps.record_execution
    id ← deps.save
    ok record {
      id = id;
      patch_id = patch.id;
      vulnerability_id = context.vulnerability_id;
      execution_id = execution_id;
      attempt = attempt;
      status = status;
      failure_kind = failure_kind;
      error_message = error_message;
      checks = journal.checks;
      exploit = journal.exploit;
      feedback = feedback;
    }),
  journal,
)

-- `summarizeFinding`.
unfoldable pub summarize_finding : Text → Text → Text → Text → Option ℕ → Text
summarize_finding type status vulnerability_id file_path line = take 500 (
    type
    ++ (codes " "
        ++ (vulnerability_id
            ++ (codes " (" ++ (status ++ (codes ") at " ++ (file_path ++ line_suffix line)))))))
  where
    line_suffix : Option ℕ → Text
    line_suffix none = []
    line_suffix (some n) = if nat_eqb n 0 then [] else codes ":" ++ show_ℕ n
