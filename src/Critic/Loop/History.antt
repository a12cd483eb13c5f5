-- ===== src/Critic/Loop/History.antt =====
-- The runs of the remediation loop, described by what the Engineer and the Critic answered, and
-- the loop of remediation-loop.service.ts against that description.
use mathlib.Core.Option
use autoforge.Critic.{approved, failed, rejected, CriticStatus, Thrown}
use autoforge.Common.Texts.{Text}
use autoforge.Common.{
  ◌≡◌, ◌≢◌, ◌∷◌, ℕ, suc, Option, none, some, List, [], ◌∙◌, ◌++◌, zero, refl, sym, subst,
  append-nil, append_assoc, ◌≤◌, ◌↔◌, ◌⊎◌, inl, inr, arith, length,
}
use autoforge.Critic.Loop.{
  RemediationLoopDependencies, EngineerFeedback, EngineerRunInput, RemediationAttemptRecord,
  engineer_input, err, EngineerRunResult, patch_of, LoopState, after_status, after_critic,
  after_engineer, loop, attempt_record, RemediationLoopResult, CriticRunResult, round,
  next_feedback, rest_of, RemediationLoopInput, run_loop, first_state, after_patch_id,
}
use autoforge.Common.Result.{err, ok, Result}
use autoforge.Critic.Outcome.{CriticRunResult}

-- The attempts are numbered from here on.
pub IsNumbered : ℕ → List RemediationAttemptRecord → Type 0
IsNumbered n [] = Unit
IsNumbered n (r ∷ rs) = (r.attempt ≡ n) × IsNumbered (suc n) rs

HasStatus : CriticStatus → Option CriticRunResult → Type 0
HasStatus status none = ⊥
HasStatus status (some critic) = critic.status ≡ status

-- Every attempt but the last was rejected by the Critic.
pub IsRetried : List RemediationAttemptRecord → Type 0
unfolding HasStatus
IsRetried [] = Unit
IsRetried (r ∷ []) = Unit
IsRetried (r ∷ next ∷ rs) = HasStatus rejected r.critic × IsRetried (next ∷ rs)

-- Some attempt was approved by the Critic.
pub HasApproval : List RemediationAttemptRecord → Type 0
unfolding HasStatus
HasApproval [] = ⊥
HasApproval (r ∷ rs) = HasStatus approved r.critic ⊎ HasApproval rs

module _ (deps : RemediationLoopDependencies) (scan_id : Text) where
  abbrev pub input_of : Text → Option EngineerFeedback → EngineerRunInput
  input_of vulnerability_id feedback =
      engineer_input scan_id
        (record { vulnerability_id = vulnerability_id; feedback = feedback; attempts = [] })

  -- The records of the attempts from a number on, with so many allowed, for a vulnerability and a
  -- feedback in hand, and the final status.
  pub data History
      : ℕ
        → ℕ
        → Text
        → Option EngineerFeedback
        → List RemediationAttemptRecord
        → CriticStatus
        → Type 0 where
    no_attempt_left : {n : ℕ} {v : Text} {f : Option EngineerFeedback} → History 0 n v f [] rejected
    engineer_throws :
        {left n : ℕ} {v : Text} {f : Option EngineerFeedback} {error : Thrown}
        → deps.engineer n (input_of v f) ≡ err error
        → History (suc left) n v f [] failed
    engineer_has_no_patch :
        {left n : ℕ} {v : Text} {f : Option EngineerFeedback} {e : EngineerRunResult}
        → deps.engineer n (input_of v f) ≡ ok e
        → patch_of e ≡ none
        → History (suc left) n v f (attempt_record n e none ∷ []) rejected
    critic_throws :
        {left n : ℕ} {v : Text} {f : Option EngineerFeedback} {e : EngineerRunResult} {p : Text}
        {error : Thrown}
        → deps.engineer n (input_of v f) ≡ ok e
        → patch_of e ≡ some p
        → deps.critic n p ≡ err error
        → History (suc left) n v f (attempt_record n e none ∷ []) failed
    critic_decides :
        {left n : ℕ} {v : Text} {f : Option EngineerFeedback} {e : EngineerRunResult} {p : Text}
        {c : CriticRunResult}
        → deps.engineer n (input_of v f) ≡ ok e
        → patch_of e ≡ some p
        → deps.critic n p ≡ ok c
        → c.status ≢ rejected
        → History (suc left) n v f (attempt_record n e (some c) ∷ []) c.status
    critic_rejects :
        {left n : ℕ} {v : Text} {f : Option EngineerFeedback} {e : EngineerRunResult} {p : Text}
        {c : CriticRunResult} {later : List RemediationAttemptRecord} {final : CriticStatus}
        → deps.engineer n (input_of v f) ≡ ok e
        → patch_of e ≡ some p
        → deps.critic n p ≡ ok c
        → c.status ≡ rejected
        → History left (suc n) e.vulnerability_id (next_feedback n c) later final
        → History (suc left) n v f (attempt_record n e (some c) ∷ later) final

  -- A result explains what was recorded after some records in hand.
  Tells : ℕ → ℕ → LoopState → RemediationLoopResult → Type 0
  Tells left n state result =
      (later : List RemediationAttemptRecord) × (result.attempts ≡ state.attempts ++ later)
      × History left n state.vulnerability_id state.feedback later result.final_status

  Rounds : ℕ → ℕ → Type 0
  Rounds left n = (state : LoopState) → Tells left n state (loop deps scan_id left n state)

  after_status-Tells :
      (left n : ℕ) (state : LoopState) (e : EngineerRunResult) (p : Text) (c : CriticRunResult)
      (s : CriticStatus)
      → Rounds left (suc n)
      → deps.engineer n (input_of state.vulnerability_id state.feedback) ≡ ok e
      → patch_of e ≡ some p
      → deps.critic n p ≡ ok c
      → c.status ≡ s
      → Tells (suc left) n state (
          rest_of
            (λ next. loop deps scan_id left (suc n) next)
            (after_status scan_id n (state.attempts ++ attempt_record n e (some c) ∷ []) e c s))
  unfolding after_status Tells Rounds
  after_status-Tells left n state e p c approved rounds engineer patch critic status = (
    attempt_record n e (some c) ∷ [],
    refl,
    subst
        (λ s.
          History (suc left) n state.vulnerability_id state.feedback
            (attempt_record n e (some c) ∷ []) s)
        status (critic_decides engineer patch critic (λ same. absurd (cc same))),
  )
  after_status-Tells left n state e p c failed rounds engineer patch critic status = (
    attempt_record n e (some c) ∷ [],
    refl,
    subst
        (λ s.
          History (suc left) n state.vulnerability_id state.feedback
            (attempt_record n e (some c) ∷ []) s)
        status (critic_decides engineer patch critic (λ same. absurd (cc same))),
  )
  after_status-Tells left n state e p c rejected rounds engineer patch critic status =
      let (later, recorded, history) = rounds (record {
        vulnerability_id = e.vulnerability_id;
        feedback = next_feedback n c;
        attempts = state.attempts ++ attempt_record n e (some c) ∷ [];
      }) in
      (
        attempt_record n e (some c) ∷ later,
        recorded ∙ append_assoc state.attempts (attempt_record n e (some c) ∷ []) later,
        critic_rejects engineer patch critic status history,
      )

  after_critic-Tells :
      (left n : ℕ) (state : LoopState) (e : EngineerRunResult) (p : Text)
      (answer : Result Thrown CriticRunResult)
      → Rounds left (suc n)
      → deps.engineer n (input_of state.vulnerability_id state.feedback) ≡ ok e
      → patch_of e ≡ some p
      → deps.critic n p ≡ answer
      → Tells (suc left) n state (
          rest_of
            (λ next. loop deps scan_id left (suc n) next)
            (after_critic scan_id n state.attempts e answer))
  unfolding after_critic Tells
  after_critic-Tells left n state e p (err error) rounds engineer patch critic =
      (attempt_record n e none ∷ [], refl, critic_throws engineer patch critic)
  after_critic-Tells left n state e p (ok c) rounds engineer patch critic =
      after_status-Tells left n state e p c c.status rounds engineer patch critic refl

  after_patch_id-Tells :
      (left n : ℕ) (state : LoopState) (e : EngineerRunResult) (p : Option Text)
      → Rounds left (suc n)
      → deps.engineer n (input_of state.vulnerability_id state.feedback) ≡ ok e
      → patch_of e ≡ p
      → Tells (suc left) n state (
          rest_of
            (λ next. loop deps scan_id left (suc n) next)
            (after_patch_id deps scan_id n state e p))
  unfolding after_patch_id Tells
  after_patch_id-Tells left n state e none rounds engineer patch =
      (attempt_record n e none ∷ [], refl, engineer_has_no_patch engineer patch)
  after_patch_id-Tells left n state e (some p) rounds engineer patch =
      after_critic-Tells left n state e p (deps.critic n p) rounds engineer patch refl

  after_engineer-Tells :
      (left n : ℕ) (state : LoopState) (answer : Result Thrown EngineerRunResult)
      → Rounds left (suc n)
      → deps.engineer n (input_of state.vulnerability_id state.feedback) ≡ answer
      → Tells (suc left) n state (
          rest_of
            (λ next. loop deps scan_id left (suc n) next)
            (after_engineer deps scan_id n state answer))
  unfolding after_engineer Tells
  after_engineer-Tells left n state (err error) rounds engineer =
      ([], sym (append-nil state.attempts), engineer_throws engineer)
  after_engineer-Tells left n state (ok e) rounds engineer =
      after_patch_id-Tells left n state e (patch_of e) rounds engineer refl

  loop-Tells : (left n : ℕ) → Rounds left n
  unfolding loop round Tells Rounds
  loop-Tells zero n state = ([], sym (append-nil state.attempts), no_attempt_left)
  loop-Tells (suc left) n state =
      after_engineer-Tells left n state
        (deps.engineer n (input_of state.vulnerability_id state.feedback)) (loop-Tells left (suc n))
        refl

  History-bounds :
      {left n : ℕ} {v : Text} {f : Option EngineerFeedback} {rs : List RemediationAttemptRecord}
      {final : CriticStatus}
      → History left n v f rs final
      → (length rs ≤ left) × IsNumbered n rs
  unfolding IsNumbered
  History-bounds no_attempt_left = (omega arith, tt)
  History-bounds (engineer_throws _) = (omega arith, tt)
  History-bounds (engineer_has_no_patch _ _) = (omega arith, (refl, tt))
  History-bounds (critic_throws _ _ _) = (omega arith, (refl, tt))
  History-bounds (critic_decides _ _ _ _) = (omega arith, (refl, tt))
  History-bounds (critic_rejects _ _ _ _ history) =
      let (bound, numbered) = History-bounds history in (omega arith, (refl, numbered))

  History-IsRetried :
      {left n : ℕ} {v : Text} {f : Option EngineerFeedback} {rs : List RemediationAttemptRecord}
      {final : CriticStatus}
      → History left n v f rs final
      → IsRetried rs
  unfolding IsRetried HasStatus
  History-IsRetried no_attempt_left = tt
  History-IsRetried (engineer_throws _) = tt
  History-IsRetried (engineer_has_no_patch _ _) = tt
  History-IsRetried (critic_throws _ _ _) = tt
  History-IsRetried (critic_decides _ _ _ _) = tt
  History-IsRetried (critic_rejects {later = []} _ _ _ status history) = tt
  History-IsRetried (critic_rejects {later = r ∷ rs} _ _ _ status history) =
      (status, History-IsRetried history)

  History-approved :
      {left n : ℕ} {v : Text} {f : Option EngineerFeedback} {rs : List RemediationAttemptRecord}
      {final : CriticStatus}
      → History left n v f rs final
      → (final ≡ approved) ↔ HasApproval rs
  unfolding HasApproval HasStatus
  History-approved no_attempt_left = (λ e. absurd (cc e), λ a. elim a [ ])
  History-approved (engineer_throws _) = (λ e. absurd (cc e), λ a. elim a [ ])
  History-approved (engineer_has_no_patch _ _) =
      (λ e. absurd (cc e), λ a. elim a [ inl b ↦ absurd b | inr b ↦ absurd b ])
  History-approved (critic_throws _ _ _) =
      (λ e. absurd (cc e), λ a. elim a [ inl b ↦ absurd b | inr b ↦ absurd b ])
  History-approved (critic_decides _ _ _ _) =
      (λ e. inl e, λ a. elim a [ inl b ↦ b | inr b ↦ absurd b ])
  History-approved (critic_rejects _ _ _ status history) = (
    λ e. inr ((History-approved history).0 e),
    λ a. elim a [ inl b ↦ absurd (cc (sym status ∙ b)) | inr b ↦ (History-approved history).1 b ],
  )

module _ (deps : RemediationLoopDependencies) (input : RemediationLoopInput) where
  -- The attempts that the loop returns, and its final status, are those of a history: each attempt
  -- asks the Engineer for the vulnerability in hand with the feedback of the rejection before it,
  -- asks the Critic about the patch, and is followed by another just when the Critic rejects and
  -- attempts are left. An error of either ends it as FAILED, no patch as REJECTED.
  pub run_loop-History :
      History deps input.scan_id deps.max_engineer_attempts 1
        (Option.get_or input.vulnerability_id [])
        none
        (run_loop deps input).attempts
        (run_loop deps input).final_status
  unfolding run_loop Tells Rounds
  run_loop-History =
      let (later, recorded, history) =
        loop-Tells deps input.scan_id deps.max_engineer_attempts 1 (first_state input) in
      subst
        (λ rs.
          History deps input.scan_id deps.max_engineer_attempts 1
            (Option.get_or input.vulnerability_id []) none rs (run_loop deps input).final_status)
        (sym recorded) history

  -- The loop makes at most the allowed number of attempts, numbers them from 1, and goes on to a
  -- next attempt only after the Critic has rejected the one before.
  pub run_loop-bounds :
      (length (run_loop deps input).attempts ≤ deps.max_engineer_attempts)
      × IsNumbered 1 (run_loop deps input).attempts
      × IsRetried (run_loop deps input).attempts
  run_loop-bounds =
      let (bound, numbered) = History-bounds deps input.scan_id run_loop-History in
      (bound, numbered, History-IsRetried deps input.scan_id run_loop-History)

  -- The loop ends as APPROVED exactly when the Critic has approved one of the attempts.
  pub run_loop-approved :
      ((run_loop deps input).final_status ≡ approved) ↔ HasApproval (run_loop deps input).attempts
  run_loop-approved = History-approved deps input.scan_id run_loop-History
