-- ===== src/Sniper.antt =====
-- The Sniper agent: backend/src/sniper. It verifies planned targets of a scan by running verifiers
-- against the application in the sandbox. Here: the data of domain/models/verification.ts, of the
-- ports sniper-repository.ts, sniper-service.ts and vulnerability-verifier.ts, and the errors of
-- domain/errors/sniper.errors.ts with their messages.
-- Scores and confidences are numbers of thousandths, times are milliseconds; the repository, the
-- verifiers and the clock are calls on a state of their own, the parameter `W`.
pub mod Labels
pub mod Origin
pub mod Confidence
pub mod Registry
pub mod Attempts
pub mod Records
pub mod Target
pub mod Tries
pub mod Peel
pub mod Admission
pub mod DryRun
mod Tests
use autoforge.Common.{◌∷◌, ◌++◌, ℕ, String, Bool, Option, List, [], nat_eqb, none, some}
use autoforge.Common.Texts.{Text, codes}
use autoforge.Common.Result.{Result, ok}
use autoforge.Common.Effect.{Effect, modify, reads}

-- `ALL_CANONICAL_VULNERABILITY_TYPES` and 'UNKNOWN'.
pub data VulnerabilityType : Type 0 where
  sql_injection nosql_injection file_upload xss ssrf idor path_traversal : VulnerabilityType
  command_injection auth_bypass broken_access_control security_misconfiguration : VulnerabilityType
  unknown : VulnerabilityType

abbrev pub type_text : VulnerabilityType → Text
type_text sql_injection = codes "SQL_INJECTION"
type_text nosql_injection = codes "NOSQL_INJECTION"
type_text file_upload = codes "FILE_UPLOAD"
type_text xss = codes "XSS"
type_text ssrf = codes "SSRF"
type_text idor = codes "IDOR"
type_text path_traversal = codes "PATH_TRAVERSAL"
type_text command_injection = codes "COMMAND_INJECTION"
type_text auth_bypass = codes "AUTH_BYPASS"
type_text broken_access_control = codes "BROKEN_ACCESS_CONTROL"
type_text security_misconfiguration = codes "SECURITY_MISCONFIGURATION"
type_text unknown = codes "UNKNOWN"

abbrev pub type_index : VulnerabilityType → ℕ
type_index sql_injection = 0
type_index nosql_injection = 1
type_index file_upload = 2
type_index xss = 3
type_index ssrf = 4
type_index idor = 5
type_index path_traversal = 6
type_index command_injection = 7
type_index auth_bypass = 8
type_index broken_access_control = 9
type_index security_misconfiguration = 10
type_index unknown = 11

-- `===` on types.
abbrev pub same_type : VulnerabilityType → VulnerabilityType → Bool
same_type a b = nat_eqb (type_index a) (type_index b)

pub data VerificationStatus : Type 0 where
  not_tested testing confirmed not_confirmed inconclusive failed : VerificationStatus

pub data ConfidenceFactorCategory : Type 0 where
  tool_confirmation reproducibility response_behavior : ConfidenceFactorCategory
  static_correlation endpoint_reachability : ConfidenceFactorCategory

pub record ConfidenceFactor : Type 0 where
  pub category : ConfidenceFactorCategory
  pub score : ℕ
  pub reason : Text

pub record ConfidenceBreakdown : Type 0 where
  pub score : ℕ
  pub weighted : Bool
  pub factors : List ConfidenceFactor

pub record EvidenceItem : Type 0 where
  pub indicator : Text
  pub category : ConfidenceFactorCategory
  pub http_status : Option ℕ
  pub detail : Option Text
  pub confidence_factor : ℕ

pub record CorrelatedFinding : Type 0 where
  pub id : Text
  pub vuln_type : Option Text
  pub cwe : Option Text
  pub confidence : ℕ
  pub severity : Text

pub record SandboxCredentials : Type 0 where
  pub username : Option Text
  pub password : Option Text
  pub cookie : Option Text
  pub header : Option Text
  pub session_token : Option Text

pub record TargetVerificationHints : Type 0 where
  pub parameter_name : Option Text
  pub parameter_location : Option Text
  pub upload_field : Option Text
  pub resource_identifier : Option Text
  pub parameters : List Text

pub record VerificationTarget : Type 0 where
  pub target_id : Text
  pub endpoint : Text
  pub method : Text
  pub type : VulnerabilityType
  pub requires_authentication : Bool
  pub credentials : Option SandboxCredentials
  pub verification_hints : Option TargetVerificationHints

pub record VerificationContext : Type 0 where
  pub scan_id : Text
  pub sandbox_id : Text
  pub base_url : Text
  pub target : VerificationTarget
  pub static_finding : Option CorrelatedFinding
  pub timeout_ms : ℕ

pub record VerificationOutcome : Type 0 where
  pub status : VerificationStatus
  pub confidence : ConfidenceBreakdown
  pub evidence : List EvidenceItem
  pub verifier : Text
  pub tool : Text
  pub tool_summary : Text
  pub tool_stderr : Text
  pub parameter : Option Text
  pub reason : Text
  pub indicator : Option Text
  pub retryable : Bool

pub record ProofOfConcept : Type 0 where
  pub id : Text
  pub target_id : Text
  pub scan_id : Text
  pub vulnerability_id : Option Text
  pub type : Text
  pub status : VerificationStatus
  pub confidence : Option ℕ
  pub confidence_breakdown : Option ConfidenceBreakdown
  pub endpoint : Text
  pub method : Text
  pub parameter : Option Text
  pub verifier : Text
  pub tool : Option Text
  pub reason : Text
  pub evidence : List EvidenceItem
  pub attacks : ℕ
  pub started_at : ℕ
  pub completed_at : ℕ
  pub duration_ms : Option ℕ

-- What the planner has stored of a target, as far as the Sniper reads it.
pub record PlannedTargetSnapshot : Type 0 where
  pub target_id : Text
  pub scan_id : Text
  pub vulnerability_id : Option Text
  pub endpoint : Text
  pub method : Text
  pub candidate_vulnerabilities : List Text
  pub requires_authentication : Bool
  pub verification_hints : Option TargetVerificationHints

pub record SaveExploitPayload : Type 0 where
  pub scan_id : Text
  pub target_id : Text
  pub vulnerability_id : Option Text
  pub type : Text
  pub status : VerificationStatus
  pub confidence : Option ℕ
  pub confidence_breakdown : Option ConfidenceBreakdown
  pub endpoint : Text
  pub method : Text
  pub parameter : Option Text
  pub tool : Option Text
  pub reason : Text
  pub evidence : List EvidenceItem
  pub attacks : ℕ
  pub started_at : ℕ
  pub completed_at : ℕ
  pub duration_ms : Option ℕ
  pub error_message : Option Text

pub record SaveAttemptPayload : Type 0 where
  pub exploit_id : Text
  pub attempt_number : ℕ
  pub verifier : Text
  pub tool : Option Text
  pub status : VerificationStatus
  pub stdout : Option Text
  pub stderr : Option Text
  pub error_message : Option Text
  pub exit_code : Option ℕ
  pub timed_out : Bool
  pub retried : Bool
  pub started_at : ℕ
  pub completed_at : ℕ
  pub duration_ms : ℕ

pub record RunSniperInput : Type 0 where
  pub scan_id : Text
  pub sandbox_id : Text
  pub base_url : Text
  pub target_ids : List Text
  pub credentials : Option SandboxCredentials
  pub timeout_ms : Option ℕ
  pub concurrency : Option ℕ
  pub max_attempts : Option ℕ
  pub persist : Option Bool

pub record TargetRunOutcome : Type 0 where
  pub target_id : Text
  pub exploit : ProofOfConcept

-- The errors that the Sniper throws, and those that its collaborators throw, by their message.
pub data SniperError : Type 0 where
  target_not_found : Text → SniperError
  sandbox_mismatch : Text → Text → Text → Text → SniperError
  sandbox_unavailable : Text → Option Text → SniperError
  cross_origin_target : Text → Text → SniperError
  unsupported_vulnerability_type : Text → Text → Text → SniperError
  authentication_unavailable : Text → SniperError
  verifier_execution : Text → Text → SniperError
  invalid_base_url : Text → SniperError
  other_error : Text → SniperError

abbrev quoted : Text → Text → Text
quoted text rest = 39 ∷ (text ++ (39 ∷ rest))

-- `messageOf`, with the message that the constructor of the error gives.
unfoldable pub message_of : SniperError → Text
message_of (target_not_found target_id) = codes "Planned target not found: " ++ target_id
message_of (sandbox_mismatch sandbox_id target_id expected actual) =
    codes "Sandbox "
    ++ (sandbox_id
        ++ (codes " is scoped to scan "
            ++ quoted actual (
                codes " but target "
                ++ quoted target_id (codes " belongs to scan " ++ quoted expected []))))
message_of (sandbox_unavailable sandbox_id none) = codes "Sandbox unavailable: " ++ sandbox_id
message_of (sandbox_unavailable sandbox_id (some reason)) =
    codes "Sandbox unavailable: " ++ (sandbox_id ++ (codes " (" ++ (reason ++ codes ")")))
message_of (cross_origin_target endpoint base_url) =
    codes "Endpoint "
    ++ quoted endpoint (codes " is not same-origin with sandbox target " ++ quoted base_url [])
message_of (authentication_unavailable target_id) =
    codes "Target "
    ++ quoted target_id (
        codes
          " requires authentication but no credentials were provided; verification was not attempted")
message_of (unsupported_vulnerability_type target_id label supported) =
    codes "Target "
    ++ quoted target_id (
        codes " candidate "
        ++ quoted label (codes " is unsupported (supported: " ++ (supported ++ codes ")")))
message_of (verifier_execution verifier message) =
    codes "Verifier " ++ quoted verifier (codes " failed: " ++ message)
message_of (invalid_base_url base_url) = codes "Invalid sandbox base URL: " ++ base_url
message_of (other_error message) = message

pub record SniperConfig : Type 0 where
  pub max_attempts : ℕ
  pub attempt_timeout_ms : ℕ
  pub concurrency : ℕ
  pub retry_delay_ms : ℕ

pub record VulnerabilityVerifier (W : Type 0) : Type 0 where
  pub id : Text
  pub tool : Text
  pub supports : VulnerabilityType → Bool
  pub verify : VerificationTarget → VerificationContext → Effect W SniperError VerificationOutcome

-- The collaborators of a run.
pub record SniperRunDeps (W : Type 0) : Type 0 where
  pub load_planned_target : Text → Effect W SniperError (Option PlannedTargetSnapshot)
  pub save_exploit : SaveExploitPayload → Effect W SniperError ProofOfConcept
  pub save_attempt : SaveAttemptPayload → Effect W SniperError (Unit {0})
  pub get_verifier : VulnerabilityType → Option (VulnerabilityVerifier W)
  pub config : SniperConfig
  pub now : W → ℕ
  pub sleep : ℕ → W → W

-- An event for the bus, by its type, its status and its message.
pub record SniperEvent : Type 0 where
  pub event_type : String
  pub status : String
  pub message : Text

-- One run: the state of the collaborators, what they have been asked to store, the outcomes of the
-- verifier's calls, the events, and the variable `planned` of runTarget.
pub record SniperRun (W : Type 0) : Type 0 where
  pub world : W
  pub saved : List SaveExploitPayload
  pub saved_attempts : List SaveAttemptPayload
  pub tried : List VerificationOutcome
  pub published : List SniperEvent
  pub planned : Option PlannedTargetSnapshot

module _ {W A : Type 0} where
  abbrev pub passed_from :
      SniperRun W → Result SniperError A × W → Result SniperError A × SniperRun W
  passed_from run (result, world) = (result, record run { world = world })

  -- A call of a collaborator.
  abbrev pub passed : Effect W SniperError A → Effect (SniperRun W) SniperError A
  passed call run = passed_from run (call run.world)

  abbrev pub lift : Result SniperError A → Effect (SniperRun W) SniperError A
  lift result run = (result, run)

abbrev pub emit_event : {W : Type 0} → SniperEvent → Effect (SniperRun W) SniperError (Unit {0})
emit_event event = modify (λ run. record run { published = run.published ++ event ∷ [] })

abbrev pub clock : {W : Type 0} → SniperRunDeps W → Effect (SniperRun W) SniperError ℕ
clock deps = reads (λ run. ok (deps.now run.world))
