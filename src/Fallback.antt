-- ===== src/Fallback.antt =====
-- The coordinator of model providers: backend/src/llm/application/services/fallback-llm-provider.ts,
-- with the errors of backend/src/llm/domain/errors/llm.errors.ts. A provider is a call on a state of
-- the world; a request and a response are values of any type.
pub mod Order
mod Tests
use autoforge.Common.Effect.{Effect, throw, return}
use autoforge.Common.{
  ◌∷◌, if◌then◌else◌, ℕ, Bool, true, false, Option, List, [], ◌++◌, some, length, filter,
}
use autoforge.Common.Texts.{Text, codes}
use autoforge.Common.Result.{Result, err, ok}
use autoforge.Common.Decimal.{show_ℕ}

pub data LlmErrorCode : Type 0 where
  config_code auth_code malformed_request_code policy_code rate_limit_code : LlmErrorCode
  model_unavailable_code unavailable_code timeout_code response_code : LlmErrorCode

-- What is thrown: an `LLMError`, or anything else.
pub data LlmFault : Type 0 where
  llm_error : LlmErrorCode → Text → Text → LlmFault
  other_llm_fault : Text → LlmFault

abbrev pub is_eligible_code : LlmErrorCode → Bool
is_eligible_code rate_limit_code = true
is_eligible_code unavailable_code = true
is_eligible_code model_unavailable_code = true
is_eligible_code timeout_code = true
is_eligible_code _ = false

-- `isFallbackEligible`.
abbrev pub is_fallback_eligible : LlmFault → Bool
is_fallback_eligible (llm_error code provider message) = is_eligible_code code
is_fallback_eligible (other_llm_fault text) = false

pub record ProviderHealth : Type 0 where
  pub is_up : Bool
  pub latency_ms : ℕ
  pub detail : Option Text

abbrev is_up_of : ProviderHealth → Bool
is_up_of health = health.is_up

-- The health of the coordinator, from that of its first provider and of the others.
abbrev combine : ProviderHealth → List ProviderHealth → ProviderHealth
combine first [] = first
combine first (other ∷ others) = record first {
  detail = some (
      show_ℕ (length (filter is_up_of (first ∷ other ∷ others)))
      ++ (codes "/" ++ (show_ℕ (length (first ∷ other ∷ others)) ++ codes " providers healthy")));
}

pub record LlmProvider (W Q A : Type 0) : Type 0 where
  pub generate : Q → Effect W LlmFault A
  pub health_check : W → ProviderHealth × W

module _ {W Q A : Type 0} where
  -- The constructor: a coordinator of no providers is refused.
  abbrev pub new_fallback : List (LlmProvider W Q A) → Result Text (List (LlmProvider W Q A))
  new_fallback [] = err (codes "fallback provider requires at least one provider")
  new_fallback (provider ∷ providers) = ok (provider ∷ providers)

  -- What follows the answer of a provider: `rest` asks the providers after it, of which there are some
  -- or none.
  abbrev pub after_answer :
      List (LlmProvider W Q A)
      → (LlmFault → Effect W LlmFault A)
      → Result LlmFault A × W
      → Result LlmFault A × W
  after_answer providers rest (ok response, w) = (ok response, w)
  after_answer [] rest (err error, w) = (err error, w)
  after_answer (provider ∷ providers) rest (err error, w) =
      if is_fallback_eligible error then rest error w else (err error, w)

  -- `generate`: the providers in their order, with the last error.
  unfoldable pub generate_from : Q → List (LlmProvider W Q A) → LlmFault → Effect W LlmFault A
  generate_from request [] last w = (err last, w)
  generate_from request (provider ∷ providers) last w =
      after_answer providers (generate_from request providers) (provider.generate request w)

  abbrev pub generate : Q → List (LlmProvider W Q A) → Effect W LlmFault A
  generate request providers = generate_from request providers (other_llm_fault (codes "null"))

  -- `healthCheck`: every provider is asked, and the first one decides.
  abbrev ask_all : List (LlmProvider W Q A) → W → List ProviderHealth × W
  ask_all [] w = ([], w)
  ask_all (provider ∷ providers) w =
      let (health, next) = provider.health_check w in
      let (healths, last) = ask_all providers next in (health ∷ healths, last)

  abbrev pub health_check_all :
      LlmProvider W Q A → List (LlmProvider W Q A) → W → ProviderHealth × W
  health_check_all provider providers w =
      let (first, next) = provider.health_check w in
      let (others, last) = ask_all providers next in (combine first others, last)
