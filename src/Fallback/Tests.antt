-- ===== src/Fallback/Tests.antt =====
-- A coordinator of two providers: the first is limited, the second answers.
use autoforge.Common.{◌+◌, ◌≡◌, ◌∷◌, ℕ, suc, refl, true, none, []}
use autoforge.Fallback.{
  ProviderHealth, LlmProvider, generate_from, err, ok, generate, llm_error, rate_limit_code, codes,
}
use autoforge.Fallback.Order.{FromOne, generate-FromOne}
use autoforge.Common.Result.{err, ok}
use autoforge.Common.Texts.{codes}

abbrev healthy : ProviderHealth
healthy = record { is_up = true; latency_ms = 1; detail = none }

abbrev limited : LlmProvider ℕ ℕ ℕ
limited = record {
  generate = λ request w. (err (llm_error rate_limit_code (codes "a") (codes "slow down")), suc w);
  health_check = λ w. (healthy, w);
}

abbrev answering : LlmProvider ℕ ℕ ℕ
answering = record {
  generate = λ request w. (ok (request + w), suc w);
  health_check = λ w. (healthy, w);
}

generate_test : generate 7 (limited ∷ answering ∷ answering ∷ []) 0 ≡ (ok 8, 2)
unfolding generate_from
generate_test = refl

generate-FromOne_example :
    FromOne 7
      (limited ∷ answering ∷ answering ∷ [])
      0
      (generate 7 (limited ∷ answering ∷ answering ∷ []) 0)
generate-FromOne_example = generate-FromOne 7 limited (answering ∷ answering ∷ []) 0
