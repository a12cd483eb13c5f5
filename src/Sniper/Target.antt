-- ===== src/Sniper/Target.antt =====
-- backend/src/sniper/application/services/sniper-run.ts: the class SniperTargetRunner. The log lines and
-- the retrieval service are left out; the tool runtime is part of what a verifier does to `W`. The
-- parameter `parse_url` is the platform's class `URL`.
use mathlib.Core.Option
use autoforge.Common.Effect.{◌>>=◌, Effect, modify, return, try_catch}
use autoforge.Common.{
  ◌||◌, ◌∷◌, ◌++◌, ◌==◌, if◌then◌else◌, ℕ, max, Bool, true, false, not, Option, none, some, List,
  [],
}
use autoforge.Sniper.{
  SniperRunDeps, Text, SaveExploitPayload, RunSniperInput, VulnerabilityType, CorrelatedFinding,
  PlannedTargetSnapshot, VerificationOutcome, VulnerabilityVerifier, same_type, SniperRun,
  VerificationContext, SniperError, unknown, ProofOfConcept, TargetRunOutcome, sandbox_mismatch,
  passed, clock, type_text, emit_event, lift, target_not_found, authentication_unavailable,
  message_of, ok,
}
use autoforge.Sniper.Records.{
  Candidate, best_finding_for, is_persisted, refusal_payload, final_payload, unsupported_reason,
  in_memory_poc, verdict_event, head_or, not_tested_event, selected_event, label_of, seed_payload,
}
use autoforge.Common.Texts.{Text, codes, text_eq}
use autoforge.Sniper.Labels.{resolve_vulnerability_type}
use autoforge.Sniper.Origin.{Url, require, or_throw, resolve_same_origin_endpoint}
use autoforge.Common.JsMap.{is_some}
use autoforge.Sniper.Attempts.{AttemptParts, run_attempts}
use autoforge.Common.Result.{ok}

module _ {W : Type 0} (deps : SniperRunDeps W) where
  abbrev found_verifier :
      Candidate W → Text → VulnerabilityType → Option (VulnerabilityVerifier W) → Candidate W
  found_verifier rest label type none = rest
  found_verifier rest label type (some verifier) = record {
    label = label;
    type = type;
    verifier = some verifier;
  }

  -- The loop of `pickCandidateVulnerability`.
  unfoldable pub pick_from : Candidate W → List Text → Candidate W
  pick_from otherwise [] = otherwise
  pick_from otherwise (label ∷ labels) =
      let rest = pick_from otherwise labels in
      let type = resolve_vulnerability_type label in
      if same_type type unknown
      then rest
      else found_verifier rest label type (deps.get_verifier type)

  unfoldable pub pick_candidate_vulnerability : List Text → Candidate W
  unfolding pick_from
  pick_candidate_vulnerability labels =
      let label = head_or labels (codes "unknown") in
      pick_from (record { label = label; type = resolve_vulnerability_type label; verifier = none })
        labels

  abbrev note_payload : SaveExploitPayload → Effect (SniperRun W) SniperError (Unit {0})
  note_payload payload = modify (λ run. record run { saved = run.saved ++ payload ∷ [] })

  -- `persist ? await repository.saveExploit(…) : inMemoryPoc(…)`.
  abbrev pub store :
      Bool → SaveExploitPayload → Text → Effect (SniperRun W) SniperError ProofOfConcept
  store true payload verifier = do _ ← note_payload payload; passed (deps.save_exploit payload)
  store false payload verifier = return (in_memory_poc payload verifier)

  unfoldable pub refusal_record :
      RunSniperInput
      → Text
      → ℕ
      → Text
      → Text
      → List CorrelatedFinding
      → Option PlannedTargetSnapshot
      → Effect (SniperRun W) SniperError TargetRunOutcome
  refusal_record input target_id started_at label reason findings planned = do
    completed_at ← clock deps
    poc ←
        store (is_persisted input)
          (refusal_payload input target_id started_at label reason findings planned completed_at)
          (codes "-")
    _ ← emit_event (not_tested_event target_id reason)
    return (record { target_id = target_id; exploit = poc })

  abbrev pub max_attempts_of : RunSniperInput → ℕ
  max_attempts_of input = max 1 (Option.get_or input.max_attempts deps.config.max_attempts)

  abbrev pub timeout_of : RunSniperInput → ℕ
  timeout_of input = max 1_000 (Option.get_or input.timeout_ms deps.config.attempt_timeout_ms)

  -- `buildContext`, with the target.
  abbrev pub build_context :
      RunSniperInput
      → PlannedTargetSnapshot
      → Text
      → Text
      → VulnerabilityType
      → List CorrelatedFinding
      → VerificationContext
  build_context input planned target_id url type findings = record {
    scan_id = input.scan_id;
    sandbox_id = input.sandbox_id;
    base_url = input.base_url;
    target = record {
      target_id = target_id;
      endpoint = url;
      method = planned.method;
      type = type;
      requires_authentication = planned.requires_authentication;
      credentials = input.credentials;
      verification_hints = planned.verification_hints;
    };
    static_finding = best_finding_for findings (type_text type);
    timeout_ms = timeout_of input;
  }

  -- From the reserved row to the verdict.
  abbrev pub settle_verdict :
      RunSniperInput
      → Text
      → SaveExploitPayload
      → VerificationOutcome × ℕ
      → Effect (SniperRun W) SniperError TargetRunOutcome
  settle_verdict input target_id seed (outcome, attempts) = do
    completed_at ← clock deps
    poc ←
        store (is_persisted input) (final_payload seed outcome attempts completed_at)
          outcome.verifier
    _ ← emit_event (verdict_event target_id outcome.status outcome.reason)
    return (record { target_id = target_id; exploit = poc })

  abbrev pub parts_of :
      RunSniperInput
      → PlannedTargetSnapshot
      → Text
      → Text
      → VulnerabilityType
      → VulnerabilityVerifier W
      → List CorrelatedFinding
      → Text
      → AttemptParts W
  parts_of input planned target_id url type verifier findings exploit_id = record {
    verifier = verifier;
    context = build_context input planned target_id url type findings;
    exploit_id = exploit_id;
    max_attempts = max_attempts_of input;
    persist = is_persisted input;
  }

  abbrev pub attack :
      RunSniperInput
      → PlannedTargetSnapshot
      → Text
      → Text
      → VulnerabilityType
      → VulnerabilityVerifier W
      → List CorrelatedFinding
      → SaveExploitPayload
      → Effect (SniperRun W) SniperError TargetRunOutcome
  attack input planned target_id url type verifier findings seed = do
    reserved ← store (is_persisted input) seed verifier.id
    final ←
        run_attempts deps (parts_of input planned target_id url type verifier findings reserved.id)
    settle_verdict input target_id seed final

  abbrev pub may_authenticate : RunSniperInput → PlannedTargetSnapshot → Bool
  may_authenticate input planned = not planned.requires_authentication || is_some input.credentials

  -- A supported candidate: its authentication, the reserved row, the attempts.
  abbrev pub verify_target :
      RunSniperInput
      → PlannedTargetSnapshot
      → Text
      → ℕ
      → Text
      → VulnerabilityType
      → VulnerabilityVerifier W
      → List CorrelatedFinding
      → Effect (SniperRun W) SniperError TargetRunOutcome
  verify_target input planned target_id started_at url type verifier findings = do
    _ ← emit_event (selected_event target_id type)
    _ ← lift (require (may_authenticate input planned) (authentication_unavailable target_id))
    completed_at ← clock deps
    attack input planned target_id url type verifier findings (
        seed_payload input planned target_id started_at findings type url verifier.tool
          completed_at)

  -- Verifier or refusal. A refusal is a promise that the `try` returns and does not await: it runs
  -- after the `try`, which does not catch what it throws.
  abbrev pub choose :
      RunSniperInput
      → PlannedTargetSnapshot
      → Text
      → ℕ
      → Text
      → List CorrelatedFinding
      → Text
      → VulnerabilityType
      → Option (VulnerabilityVerifier W)
      → Effect (SniperRun W) SniperError (Effect (SniperRun W) SniperError TargetRunOutcome)
  choose input planned target_id started_at url findings label type none = return (
      refusal_record input target_id started_at (type_text type) (unsupported_reason type label)
        findings (some planned))
  choose input planned target_id started_at url findings label type (some verifier) = do
    result ← verify_target input planned target_id started_at url type verifier findings
    return (return result)

  module _ (parse_url : Text → Option Url → Option Url) where
    abbrev pub mismatch : RunSniperInput → Text → PlannedTargetSnapshot → SniperError
    mismatch input target_id planned =
        sandbox_mismatch input.sandbox_id target_id input.scan_id planned.scan_id

    -- The part of the `try` after the target is loaded.
    abbrev pub check_target :
        RunSniperInput
        → Text
        → ℕ
        → List CorrelatedFinding
        → PlannedTargetSnapshot
        → Effect (SniperRun W) SniperError (Effect (SniperRun W) SniperError TargetRunOutcome)
    check_target input target_id started_at findings planned = do
      _ ← lift (require (planned.scan_id == input.scan_id) (mismatch input target_id planned))
      resolved ← lift (resolve_same_origin_endpoint parse_url planned.endpoint input.base_url)
      let picked = pick_candidate_vulnerability planned.candidate_vulnerabilities
      choose input planned target_id started_at resolved.url findings picked.label picked.type
          picked.verifier

    abbrev note_planned : Option PlannedTargetSnapshot → Effect (SniperRun W) SniperError (Unit {0})
    note_planned planned = modify (λ run. record run { planned = planned })

    -- The body of the `try`.
    abbrev pub body_of :
        RunSniperInput
        → Text
        → ℕ
        → List CorrelatedFinding
        → Effect (SniperRun W) SniperError (Effect (SniperRun W) SniperError TargetRunOutcome)
    body_of input target_id started_at findings = do
      loaded ← passed (deps.load_planned_target target_id)
      _ ← note_planned loaded
      planned ← lift (or_throw (target_not_found target_id) loaded)
      check_target input target_id started_at findings planned

    -- The `catch`: the refusal has the label of the first candidate and no planned target.
    abbrev pub refuse :
        RunSniperInput
        → Text
        → ℕ
        → List CorrelatedFinding
        → SniperError
        → Effect (SniperRun W) SniperError (Effect (SniperRun W) SniperError TargetRunOutcome)
    refuse input target_id started_at findings thrown run = (
      ok (
          refusal_record input target_id started_at (label_of run.planned) (message_of thrown)
            findings none),
      run,
    )

    unfoldable pub run_target :
        RunSniperInput
        → Text
        → List CorrelatedFinding
        → Effect (SniperRun W) SniperError TargetRunOutcome
    run_target input target_id findings = do
      started_at ← clock deps
      _ ← note_planned none
      pending ←
          try_catch (body_of input target_id started_at findings)
            (refuse input target_id started_at findings)
      pending
