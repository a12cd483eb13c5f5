-- ===== src/Critic/Loop.antt =====
-- critic/application/services/remediation-loop.service.ts: the bounded loop of Engineer and Critic.
-- The two services are functions of the attempt, in which they may do anything else as well.
pub mod History
use mathlib.Core.Option
use autoforge.Critic.{approved, failed, rejected}
use autoforge.Common.Texts.{Text, codes}
use autoforge.Critic.Outcome.{CriticRunResult, message_of}
use autoforge.Common.{ℕ, Option, List, ◌∷◌, ◌++◌, zero, suc, none, some, [], take}
use autoforge.Critic.{CriticFailureKind, CriticStatus, Thrown, rejected, failed}
use autoforge.Common.Result.{Result, err, ok}
use autoforge.Critic.Service.{kind_text}

pub data EngineerStatus : Type 0 where
  engineer_generated engineer_rejected engineer_failed : EngineerStatus

pub record EngineerRunResult : Type 0 where
  pub vulnerability_id : Text
  pub patch_id : Option Text
  pub status : EngineerStatus
  pub reason : Option Text

pub record EngineerFeedback : Type 0 where
  pub reason : CriticFailureKind
  pub failed_checks : List Text
  pub guidance : Text
  pub attempt : ℕ

pub record EngineerRunInput : Type 0 where
  pub scan_id : Text
  pub vulnerability_id : Option Text
  pub feedback : Option EngineerFeedback

pub record RemediationLoopInput : Type 0 where
  pub scan_id : Text
  pub vulnerability_id : Option Text

pub record RemediationLoopDependencies : Type 0 where
  pub engineer : ℕ → EngineerRunInput → Result Thrown EngineerRunResult
  pub critic : ℕ → Text → Result Thrown CriticRunResult
  pub max_engineer_attempts : ℕ

pub record RemediationAttemptRecord : Type 0 where
  pub attempt : ℕ
  pub engineer : Option EngineerRunResult
  pub critic : Option CriticRunResult

pub record RemediationLoopResult : Type 0 where
  pub scan_id : Text
  pub vulnerability_id : Text
  pub attempts : List RemediationAttemptRecord
  pub final_status : CriticStatus
  pub reason : Option Text

abbrev pub done :
    Text → Text → List RemediationAttemptRecord → CriticStatus → Option Text → RemediationLoopResult
done scan_id vulnerability_id attempts final_status reason = record {
  scan_id = scan_id;
  vulnerability_id = vulnerability_id;
  attempts = attempts;
  final_status = final_status;
  reason = reason;
}

-- `engineer.patchId` of a run that has generated a patch.
abbrev pub patch_of : EngineerRunResult → Option Text
patch_of result = elim result.status [
  | engineer_generated ↦ elim result.patch_id [
    | none ↦ none
    | some [] ↦ none
    | some (c ∷ id) ↦ some (c ∷ id)
  ]
  | _ ↦ none
]

abbrev kind_name : Option CriticFailureKind → Text
kind_name none = codes "FAILED"
kind_name (some kind) = kind_text kind

-- The feedback that a rejection hands to the next attempt.
abbrev pub next_feedback : ℕ → CriticRunResult → Option EngineerFeedback
next_feedback attempt critic = elim critic.feedback [
  | none ↦ none
  | some feedback ↦ some record {
    reason = feedback.reason;
    failed_checks = take 6 feedback.failed_checks;
    guidance = feedback.guidance;
    attempt = attempt;
  }
]

-- The variables that one round hands to the next.
pub record LoopState : Type 0 where
  pub vulnerability_id : Text
  pub feedback : Option EngineerFeedback
  pub attempts : List RemediationAttemptRecord

-- What one round of the loop does: it returns, or it goes on.
pub data Round : Type 0 where
  returns : RemediationLoopResult → Round
  goes_on : LoopState → Round

abbrev pub attempt_record :
    ℕ → EngineerRunResult → Option CriticRunResult → RemediationAttemptRecord
attempt_record attempt engineer critic = record {
  attempt = attempt;
  engineer = some engineer;
  critic = critic;
}

abbrev non_empty : Text → Option Text
non_empty [] = none
non_empty (c ∷ text) = some (c ∷ text)

abbrev pub engineer_input : Text → LoopState → EngineerRunInput
engineer_input scan_id state = record {
  scan_id = scan_id;
  vulnerability_id = non_empty state.vulnerability_id;
  feedback = state.feedback;
}

-- A round from the status of the Critic's result on.
unfoldable pub after_status :
    Text
    → ℕ
    → List RemediationAttemptRecord
    → EngineerRunResult
    → CriticRunResult
    → CriticStatus
    → Round
after_status scan_id attempt attempts engineer critic approved =
    returns (done scan_id engineer.vulnerability_id attempts approved none)
after_status scan_id attempt attempts engineer critic failed = returns (
    done scan_id engineer.vulnerability_id attempts failed
      (some (codes "validation infrastructure: " ++ kind_name critic.failure_kind)))
after_status scan_id attempt attempts engineer critic rejected = goes_on record {
  vulnerability_id = engineer.vulnerability_id;
  feedback = next_feedback attempt critic;
  attempts = attempts;
}

-- A round from the Critic's answer on.
unfoldable pub after_critic :
    Text
    → ℕ
    → List RemediationAttemptRecord
    → EngineerRunResult
    → Result Thrown CriticRunResult
    → Round
unfolding after_status
after_critic scan_id attempt attempts engineer (err error) = returns (
    done scan_id engineer.vulnerability_id (attempts ++ attempt_record attempt engineer none ∷ [])
      failed (some (message_of (codes "critic failed") error)))
after_critic scan_id attempt attempts engineer (ok critic) =
    after_status scan_id attempt (attempts ++ attempt_record attempt engineer (some critic) ∷ [])
      engineer critic critic.status

-- A round from the patch of the Engineer's run on.
unfoldable pub after_patch_id :
    RemediationLoopDependencies → Text → ℕ → LoopState → EngineerRunResult → Option Text → Round
unfolding after_critic
after_patch_id deps scan_id attempt state engineer none = returns (
    done scan_id engineer.vulnerability_id
      (state.attempts ++ attempt_record attempt engineer none ∷ []) rejected
      (some (Option.get_or engineer.reason (codes "engineer did not produce a patch"))))
after_patch_id deps scan_id attempt state engineer (some patch_id) =
    after_critic scan_id attempt state.attempts engineer (deps.critic attempt patch_id)

-- A round from the Engineer's answer on.
unfoldable pub after_engineer :
    RemediationLoopDependencies → Text → ℕ → LoopState → Result Thrown EngineerRunResult → Round
unfolding after_patch_id
after_engineer deps scan_id attempt state (err error) = returns (
    done scan_id state.vulnerability_id state.attempts failed
      (some (message_of (codes "engineer failed") error)))
after_engineer deps scan_id attempt state (ok engineer) =
    after_patch_id deps scan_id attempt state engineer (patch_of engineer)

unfoldable pub round : RemediationLoopDependencies → Text → ℕ → LoopState → Round
unfolding after_engineer
round deps scan_id attempt state =
    after_engineer deps scan_id attempt state (deps.engineer attempt (engineer_input scan_id state))

abbrev pub exhausted : Text → LoopState → RemediationLoopResult
exhausted scan_id state =
    done scan_id state.vulnerability_id state.attempts rejected
      (some (codes "patch rejected after max attempts"))

abbrev pub rest_of : (LoopState → RemediationLoopResult) → Round → RemediationLoopResult
rest_of rounds (returns result) = result
rest_of rounds (goes_on next) = rounds next

-- The `for` loop, from `attempt`, with so many rounds left.
unfoldable pub loop : RemediationLoopDependencies → Text → ℕ → ℕ → LoopState → RemediationLoopResult
unfolding round
loop deps scan_id zero attempt state = exhausted scan_id state
loop deps scan_id (suc left) attempt state =
    rest_of (λ next. loop deps scan_id left (suc attempt) next) (round deps scan_id attempt state)

abbrev pub first_state : RemediationLoopInput → LoopState
first_state input = record {
  vulnerability_id = Option.get_or input.vulnerability_id [];
  feedback = none;
  attempts = [];
}

unfoldable pub run_loop : RemediationLoopDependencies → RemediationLoopInput → RemediationLoopResult
unfolding loop
run_loop deps input = loop deps input.scan_id deps.max_engineer_attempts 1 (first_state input)
