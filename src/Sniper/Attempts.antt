-- ===== src/Sniper/Attempts.antt =====
-- backend/src/sniper/application/services/attempt-loop.ts: the class AttemptLoop. The loop runs on the
-- attempts that are left, its own bound. A verifier that throws a value other than an error is not
-- told apart.
use autoforge.Common.Effect.{◌>>=◌, Effect, modify, return}
use autoforge.Common.{
  ◌+◌, ◌-◌, ◌&&◌, ◌∷◌, ◌++◌, if◌then◌else◌, ℕ, zero, suc, Bool, true, false, none, some, [], map,
  ltb, leb,
}
use autoforge.Sniper.{
  VerificationStatus, VerificationOutcome, VulnerabilityVerifier, SaveAttemptPayload, SniperRunDeps,
  failed, VerificationContext, SniperError, confirmed, SniperRun, not_confirmed, not_tested, passed,
  clock, testing, message_of, inconclusive,
}
use autoforge.Common.Texts.{Text, codes}
use autoforge.Sniper.Labels.{has_words, has_word}
use autoforge.Common.Result.{Result, ok, err}

-- `TERMINAL_STATUSES.has_word(status)`.
abbrev pub is_terminal : VerificationStatus → Bool
is_terminal confirmed = true
is_terminal not_confirmed = true
is_terminal not_tested = true
is_terminal testing = false
is_terminal inconclusive = false
is_terminal failed = false

unfoldable pub retry_allowed : VerificationOutcome → Bool
retry_allowed outcome = if is_terminal outcome.status then false else outcome.retryable

abbrev pub is_failed : VerificationStatus → Bool
is_failed failed = true
is_failed not_tested = false
is_failed testing = false
is_failed confirmed = false
is_failed not_confirmed = false
is_failed inconclusive = false

abbrev pub failed_outcome : Text → Bool → VerificationOutcome
failed_outcome reason retryable = record {
  status = failed;
  confidence = record { score = 0; weighted = true; factors = [] };
  evidence = [];
  verifier = codes "unknown";
  tool = [];
  tool_summary = [];
  tool_stderr = [];
  parameter = none;
  reason = reason;
  indicator = none;
  retryable = retryable;
}

-- `/i` folds the letters A to Z only.
abbrev fold_case : Text → Text
fold_case text = map (λ c. if leb 65 c && leb c 90 then c + 32 else c) text

-- `/timeout/i.test(reason)`.
unfoldable pub mentions_timeout : Text → Bool
unfolding has_words
mentions_timeout reason = has_word "timeout" (fold_case reason)

-- `AttemptParts`.
pub record AttemptParts (W : Type 0) : Type 0 where
  pub verifier : VulnerabilityVerifier W
  pub context : VerificationContext
  pub exploit_id : Text
  pub max_attempts : ℕ
  pub persist : Bool

-- `singleAttempt`: a verifier that throws has failed, and may be tried again.
abbrev outcome_of : Result SniperError VerificationOutcome → VerificationOutcome
outcome_of (ok outcome) = outcome
outcome_of (err thrown) = failed_outcome (codes "verifier threw: " ++ message_of thrown) true

module _ {W : Type 0} where
  abbrev note_outcome : VerificationOutcome → Effect (SniperRun W) SniperError VerificationOutcome
  note_outcome outcome run = (ok outcome, record run { tried = run.tried ++ outcome ∷ [] })

  abbrev caught_outcome :
      Result SniperError VerificationOutcome × W → Result SniperError VerificationOutcome × W
  caught_outcome (result, world) = (ok (outcome_of result), world)

  abbrev pub single_attempt :
      VulnerabilityVerifier W
      → VerificationContext
      → Effect (SniperRun W) SniperError VerificationOutcome
  single_attempt verifier context = do
    outcome ← passed (λ world. caught_outcome (verifier.verify context.target context world))
    note_outcome outcome

  abbrev pub attempt_payload :
      AttemptParts W → VerificationOutcome → ℕ → ℕ → ℕ → ℕ → SaveAttemptPayload
  attempt_payload parts outcome attempt duration_ms started_at completed_at = record {
    exploit_id = parts.exploit_id;
    attempt_number = attempt;
    verifier = outcome.verifier;
    tool = some outcome.tool;
    status = outcome.status;
    stdout = some outcome.tool_summary;
    stderr = some outcome.tool_stderr;
    error_message = if is_failed outcome.status then some outcome.reason else none;
    exit_code = none;
    timed_out = is_failed outcome.status && mentions_timeout outcome.reason;
    retried = ltb 1 attempt;
    started_at = started_at;
    completed_at = completed_at;
    duration_ms = duration_ms;
  }

  abbrev note_attempt : SaveAttemptPayload → Effect (SniperRun W) SniperError (Unit {0})
  note_attempt payload =
      modify (λ run. record run { saved_attempts = run.saved_attempts ++ payload ∷ [] })

  module _ (deps : SniperRunDeps W) where
    abbrev persist_attempt :
        AttemptParts W
        → VerificationOutcome
        → ℕ
        → ℕ
        → ℕ
        → Effect (SniperRun W) SniperError (Unit {0})
    persist_attempt parts outcome attempt duration_ms started_at = do
      completed_at ← clock deps
      _ ← note_attempt (attempt_payload parts outcome attempt duration_ms started_at completed_at)
      passed (
          deps.save_attempt
            (attempt_payload parts outcome attempt duration_ms started_at completed_at))

    abbrev pub record_attempt :
        Bool
        → AttemptParts W
        → VerificationOutcome
        → ℕ
        → ℕ
        → ℕ
        → Effect (SniperRun W) SniperError (Unit {0})
    record_attempt true parts outcome attempt duration_ms started_at =
        persist_attempt parts outcome attempt duration_ms started_at
    record_attempt false parts outcome attempt duration_ms started_at = return tt

    -- One round: the call of the verifier, and its record.
    abbrev pub round_of : AttemptParts W → ℕ → Effect (SniperRun W) SniperError VerificationOutcome
    round_of parts attempt = do
      started ← clock deps
      outcome ← single_attempt parts.verifier parts.context
      finished ← clock deps
      _ ← record_attempt parts.persist parts outcome attempt (finished - started) started
      return outcome

    abbrev pause : Effect (SniperRun W) SniperError (Unit {0})
    pause = modify (λ run. record run { world = deps.sleep deps.config.retry_delay_ms run.world })

    -- What the loop does after a round, with attempts left; `rest` is the next round.
    abbrev pub after_round :
        ℕ
        → ℕ
        → Effect (SniperRun W) SniperError (VerificationOutcome × ℕ)
        → VerificationOutcome
        → Effect (SniperRun W) SniperError (VerificationOutcome × ℕ)
    after_round left attempt rest outcome =
        if retry_allowed outcome && leb 1 left
        then (pause >>= λ _. rest)
        else return (outcome, attempt)

    unfoldable pub attempts_from :
        AttemptParts W
        → ℕ
        → ℕ
        → VerificationOutcome
        → Effect (SniperRun W) SniperError (VerificationOutcome × ℕ)
    attempts_from parts zero attempts last = return (last, attempts)
    attempts_from parts (suc left) attempts last = do
      outcome ← round_of parts (suc attempts)
      after_round left (suc attempts) (attempts_from parts left (suc attempts) outcome) outcome

    -- `run`: the last outcome and the number of attempts.
    abbrev pub run_attempts :
        AttemptParts W → Effect (SniperRun W) SniperError (VerificationOutcome × ℕ)
    run_attempts parts =
        attempts_from parts parts.max_attempts 0
          (failed_outcome (codes "verification did not complete") false)
