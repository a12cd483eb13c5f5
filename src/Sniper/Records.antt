-- ===== src/Sniper/Records.antt =====
-- backend/src/sniper/application/services/sniper-run.ts: the functions beside the class
-- below it. The log lines, the metadata of the events and the retrieval service are left out; the
-- tool runtime is part of what a verifier does to the state `W`.
use mathlib.Core.Option
use autoforge.Common.{
  ◌-◌, ◌&&◌, ◌||◌, ◌∷◌, ◌++◌, ◌==◌, if◌then◌else◌, ℕ, String, Bool, true, false, Option, none, some,
  List, [], ltb,
}
use autoforge.Sniper.{
  CorrelatedFinding, PlannedTargetSnapshot, RunSniperInput, SaveExploitPayload, VulnerabilityType,
  type_text, ProofOfConcept, VulnerabilityVerifier, same_type, not_tested, SniperEvent,
  VerificationStatus, VerificationOutcome, unknown, testing, confirmed, not_confirmed, inconclusive,
  failed,
}
use autoforge.Sniper.Labels.{has_words, resolve_vulnerability_type, has_word}
use autoforge.Common.Texts.{Text, codes, text_eq}
use autoforge.Sandbox.Runtime.{truthy}
use autoforge.Sniper.Attempts.{is_failed}

-- `/digits/.test(f.cwe ?? '')`.
abbrev cwe_has : String → CorrelatedFinding → Bool
cwe_has number finding = has_word number (Option.get_or finding.cwe [])

unfoldable cwe_matches : Text → CorrelatedFinding → Bool
unfolding has_words
cwe_matches type finding =
    (type == codes "SQL_INJECTION" && cwe_has "89" finding)
    || (type == codes "NOSQL_INJECTION" && cwe_has "943" finding)
    || (type == codes "XSS" && cwe_has "79" finding)
    || (type == codes "SECURITY_MISCONFIGURATION"
        && (cwe_has "16" finding || cwe_has "200" finding))

abbrev resolved_is : Option Text → Text → Bool
resolved_is none type = false
resolved_is (some label) type = type_text (resolve_vulnerability_type label) == type

abbrev finding_matches : Text → CorrelatedFinding → Bool
finding_matches type finding =
    resolved_is (truthy finding.vuln_type) type || cwe_matches type finding

abbrev better : Option CorrelatedFinding → CorrelatedFinding → Option CorrelatedFinding
better none finding = some finding
better (some best) finding =
    if ltb best.confidence finding.confidence then some finding else some best

abbrev best_from :
    Text → Option CorrelatedFinding → List CorrelatedFinding → Option CorrelatedFinding
best_from type best [] = best
best_from type best (finding ∷ findings) =
    best_from type (if finding_matches type finding then better best finding else best) findings

-- `bestFindingFor`; a type is its text here, since a refusal passes a label.
unfoldable pub best_finding_for : List CorrelatedFinding → Text → Option CorrelatedFinding
unfolding cwe_matches resolve_vulnerability_type
best_finding_for findings type = best_from type none findings

abbrev first_id : List CorrelatedFinding → Option Text
first_id [] = none
first_id (finding ∷ findings) = some finding.id

abbrev id_of_best : Option CorrelatedFinding → List CorrelatedFinding → Option Text
id_of_best (some finding) findings = some finding.id
id_of_best none findings = first_id findings

abbrev planned_id : Option PlannedTargetSnapshot → Option Text
planned_id none = none
planned_id (some planned) = truthy planned.vulnerability_id

abbrev planned_or_found : Option Text → List CorrelatedFinding → Text → Option Text
planned_or_found (some id) findings type = some id
planned_or_found none findings type = id_of_best (best_finding_for findings type) findings

abbrev pub correlate_finding_id :
    Option PlannedTargetSnapshot → List CorrelatedFinding → Text → Option Text
correlate_finding_id planned findings type = planned_or_found (planned_id planned) findings type

abbrev endpoint_or : Option PlannedTargetSnapshot → Text → Text
endpoint_or none target_id = target_id
endpoint_or (some planned) target_id = planned.endpoint

abbrev method_or : Option PlannedTargetSnapshot → Text
method_or none = codes "GET"
method_or (some planned) = planned.method

abbrev pub head_or : List Text → Text → Text
head_or [] absent = absent
head_or (label ∷ labels) absent = label

-- `planned?.candidateVulnerabilities?.[0] ?? '-'`.
abbrev pub label_of : Option PlannedTargetSnapshot → Text
label_of none = codes "-"
label_of (some planned) = head_or planned.candidate_vulnerabilities (codes "-")

abbrev pub is_persisted : RunSniperInput → Bool
is_persisted input = Option.get_or input.persist true

-- `inMemoryPoc`, of the fields that a stored record would have been asked to have.
abbrev pub in_memory_poc : SaveExploitPayload → Text → ProofOfConcept
in_memory_poc payload verifier = record {
  id = codes "in-memory:" ++ (payload.scan_id ++ (58 ∷ payload.target_id));
  target_id = payload.target_id;
  scan_id = payload.scan_id;
  vulnerability_id = payload.vulnerability_id;
  type = payload.type;
  status = payload.status;
  confidence = payload.confidence;
  confidence_breakdown = payload.confidence_breakdown;
  endpoint = payload.endpoint;
  method = payload.method;
  parameter = payload.parameter;
  verifier = verifier;
  tool = payload.tool;
  reason = payload.reason;
  evidence = payload.evidence;
  attacks = payload.attacks;
  started_at = payload.started_at;
  completed_at = payload.completed_at;
  duration_ms = payload.duration_ms;
}

-- What `pickCandidateVulnerability` gives.
pub record Candidate (W : Type 0) : Type 0 where
  pub label : Text
  pub type : VulnerabilityType
  pub verifier : Option (VulnerabilityVerifier W)

abbrev pub unsupported_reason : VulnerabilityType → Text → Text
unsupported_reason type label =
    if same_type type unknown
    then codes "unsupported candidate vulnerability (" ++ (label ++ codes ")")
    else codes "unsupported vulnerability type (" ++ (type_text type ++ codes ")")

abbrev pub refusal_payload :
    RunSniperInput
    → Text
    → ℕ
    → Text
    → Text
    → List CorrelatedFinding
    → Option PlannedTargetSnapshot
    → ℕ
    → SaveExploitPayload
refusal_payload input target_id started_at label reason findings planned completed_at = record {
  scan_id = input.scan_id;
  target_id = target_id;
  vulnerability_id = correlate_finding_id planned findings label;
  type = label;
  status = not_tested;
  confidence = none;
  confidence_breakdown = none;
  endpoint = endpoint_or planned target_id;
  method = method_or planned;
  parameter = none;
  tool = none;
  reason = reason;
  evidence = [];
  attacks = 0;
  started_at = started_at;
  completed_at = completed_at;
  duration_ms = some 0;
  error_message = none;
}

abbrev pub not_tested_event : Text → Text → SniperEvent
not_tested_event target_id reason = record {
  event_type = "SNIPER_NOT_TESTED";
  status = "SKIPPED";
  message = codes "target \"" ++ (target_id ++ (codes "\" not tested (" ++ (reason ++ codes ")")));
}

abbrev pub selected_event : Text → VulnerabilityType → SniperEvent
selected_event target_id type = record {
  event_type = "SNIPER_TARGET_SELECTED";
  status = "IN_PROGRESS";
  message = codes "selected " ++ (target_id ++ (codes " (" ++ (type_text type ++ codes ")")));
}

abbrev rejected_event : String → Text → Text → SniperEvent
rejected_event status target_id reason = record {
  event_type = "SNIPER_REJECTED";
  status = status;
  message =
      codes "target \"" ++ (target_id ++ (codes "\" not exploited (" ++ (reason ++ codes ")")));
}

-- The event of a verdict.
abbrev pub verdict_event : Text → VerificationStatus → Text → SniperEvent
verdict_event target_id confirmed reason = record {
  event_type = "SNIPER_CONFIRMED";
  status = "CONFIRMED";
  message = codes "exploit confirmed for target \"" ++ (target_id ++ codes "\"");
}
verdict_event target_id not_tested reason = not_tested_event target_id reason
verdict_event target_id not_confirmed reason = rejected_event "NOT_CONFIRMED" target_id reason
verdict_event target_id testing reason = rejected_event "REJECTED" target_id reason
verdict_event target_id inconclusive reason = rejected_event "REJECTED" target_id reason
verdict_event target_id failed reason = rejected_event "REJECTED" target_id reason

-- The payload that reserves the row, and the final one.
abbrev pub seed_payload :
    RunSniperInput
    → PlannedTargetSnapshot
    → Text
    → ℕ
    → List CorrelatedFinding
    → VulnerabilityType
    → Text
    → Text
    → ℕ
    → SaveExploitPayload
seed_payload input planned target_id started_at findings type url tool completed_at = record {
  scan_id = input.scan_id;
  target_id = target_id;
  vulnerability_id = correlate_finding_id (some planned) findings (type_text type);
  type = type_text type;
  status = testing;
  confidence = none;
  confidence_breakdown = none;
  endpoint = url;
  method = planned.method;
  parameter = none;
  tool = some tool;
  reason = codes "verification in progress";
  evidence = [];
  attacks = 0;
  started_at = started_at;
  completed_at = completed_at;
  duration_ms = none;
  error_message = none;
}

abbrev pub final_payload : SaveExploitPayload → VerificationOutcome → ℕ → ℕ → SaveExploitPayload
final_payload seed outcome attempts completed_at = record seed {
  status = outcome.status;
  confidence = some outcome.confidence.score;
  confidence_breakdown = some outcome.confidence;
  parameter = outcome.parameter;
  tool = some outcome.tool;
  reason = outcome.reason;
  evidence = outcome.evidence;
  attacks = attempts;
  completed_at = completed_at;
  duration_ms = some (completed_at - seed.started_at);
  error_message = if is_failed outcome.status then some outcome.reason else none;
}
