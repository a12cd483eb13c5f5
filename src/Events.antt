-- ===== src/Events.antt =====
-- The canonical event model: backend/src/observability/domain/events/amass-event.ts and the input
-- of backend/src/observability/domain/ports/event-bus.ts. An optional field is an `Option`, and a
-- member of a union of literals is the literal. A metadata value is what JavaScript allows there;
-- its numbers are only passed on and measured, so they are natural numbers here.
pub mod Sanitize
use autoforge.Common.{
  ℕ, String, Bool, true, false, ◌||◌, Option, List, [], ◌∷◌, ◌==◌, string_eq, any,
}
use autoforge.Common.Texts.{Text}

mutual
  pub data Value : Type 0 where
    nothing : Value  -- `null` or `undefined`
    str : Text → Value
    num : ℕ → Value
    boolean : Bool → Value
    object : Node → Value

  pub data Node : Type 0 where
    empty : Node
    entry : Text → Value → Node → Node

abbrev pub amass_event_types : List String
amass_event_types =
    "SCAN_STARTED" ∷ "SCAN_COMPLETED" ∷ "SCAN_FAILED" ∷ "ANALYZER_STARTED" ∷ "ANALYZER_COMPLETED"
    ∷ "SCANNER_STARTED" ∷ "SCANNER_COMPLETED" ∷ "SANDBOX_PROVISIONING" ∷ "SANDBOX_READY"
    ∷ "SANDBOX_FAILED" ∷ "SANDBOX_DESTROYING" ∷ "SANDBOX_DESTROYED" ∷ "SCOUT_STARTED"
    ∷ "SCOUT_ENDPOINT_DISCOVERED" ∷ "SCOUT_COMPLETED" ∷ "PLANNER_STARTED" ∷ "PLANNER_COMPLETED"
    ∷ "SNIPER_STARTED" ∷ "SNIPER_TARGET_SELECTED" ∷ "SNIPER_VERIFICATION_STARTED"
    ∷ "SNIPER_VERIFICATION_COMPLETED" ∷ "SNIPER_CONFIRMED" ∷ "SNIPER_NOT_TESTED" ∷ "SNIPER_REJECTED"
    ∷ "ENGINEER_STARTED" ∷ "ENGINEER_SOURCE_RESOLUTION_STARTED" ∷ "ENGINEER_SOURCE_CANDIDATE"
    ∷ "ENGINEER_SOURCE_RESOLVED" ∷ "ENGINEER_SOURCE_RESOLUTION_FAILED" ∷ "ENGINEER_SOURCE_READ"
    ∷ "ENGINEER_RAG_STARTED" ∷ "ENGINEER_RAG_COMPLETED" ∷ "ENGINEER_LLM_STARTED"
    ∷ "ENGINEER_LLM_COMPLETED" ∷ "ENGINEER_PATCH_GENERATED" ∷ "ENGINEER_REJECTED"
    ∷ "ENGINEER_FAILED" ∷ "CRITIC_STARTED" ∷ "BASELINE_CHECK_STARTED" ∷ "BASELINE_CHECK_COMPLETED"
    ∷ "PATCH_APPLY_STARTED" ∷ "PATCH_APPLIED" ∷ "BUILD_STARTED" ∷ "BUILD_COMPLETED"
    ∷ "TESTS_STARTED" ∷ "TESTS_COMPLETED" ∷ "EXPLOIT_RETEST_STARTED" ∷ "EXPLOIT_RETEST_COMPLETED"
    ∷ "CRITIC_APPROVED" ∷ "CRITIC_REJECTED" ∷ "CRITIC_FAILED" ∷ "REMEDIATION_PR_CREATED"
    ∷ "REMEDIATION_DELIVERY_FAILED" ∷ "BROWSER_NAVIGATION" ∷ "BROWSER_PAGE_LOADED"
    ∷ "NETWORK_REQUEST" ∷ "NETWORK_RESPONSE" ∷ []

unfoldable pub is_amass_event_type : String → Bool
is_amass_event_type value = any (λ t. t == value) amass_event_types

pub record AmassEventInput : Type 0 where
  pub scan_id : Text
  pub event_type : String
  pub agent_type : Option String
  pub phase : String
  pub level : Option String
  pub status : String
  pub message : Text
  pub metadata : Option Node

pub record AmassEvent : Type 0 where
  pub event_id : String
  pub scan_id : Text
  pub sequence : ℕ
  pub timestamp : String
  pub event_type : String
  pub agent_type : Option String
  pub phase : String
  pub level : String
  pub status : String
  pub message : Text
  pub metadata : Option Node
