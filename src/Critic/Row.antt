-- ===== src/Critic/Row.antt =====
-- What a validation of critic.service.ts says, against the row of the patch and the feedback.
use autoforge.Common.{
  ◌≡◌, ◌⊎◌, refl, inl, inr, Option, none, some, ◌≢◌, ◌∙◌, ℕ, sym, ap, subst, Bool-cases,
}
use autoforge.Critic.{
  CriticStatus, CriticFeedback, ReviewablePatchStatus, rejected, Thrown, patch_approved, failed,
  exploit_still_succeeds_error, approved, patch_rejected_status, security_gate_error,
  patch_conflict_error, patch_not_found_error, invalid_patch_status_error,
  unsupported_vulnerability_error, sandbox_provision_error, baseline_invalid_error,
  application_start_error, exploit_inconclusive_error, validation_infrastructure_error, other_error,
  CriticDependencies, not_an_error, ReviewablePatch, CriticPatchContext, CriticFailureKind, Result,
  Text,
}
use autoforge.Critic.Outcome.{Failure, classify_failure, persist, CriticRunResult}
use autoforge.Critic.Service.{
  conclude, validate, kept_feedback, announce, tear_down_if, finish, attempt_checks,
}
use autoforge.Common.Result.{Result, ok, bind-ok, ok-injective, Result-cases, err}
use autoforge.Common.Texts.{Text}
use autoforge.Critic.Step.{Journal, continue_with, after_from}
use autoforge.Critic.Teardown.{
  Ended, made, tear_down-destroyed, ended_well, ended_badly, attempt_checks-Ended,
}

-- REJECTED comes with a feedback, and FAILED with none.
pub IsVerdict : CriticStatus → Option CriticFeedback → Type 0
IsVerdict approved feedback = feedback ≡ none
IsVerdict rejected feedback = (f : CriticFeedback) × (feedback ≡ some f)
IsVerdict failed feedback = feedback ≡ none

-- The row after a run of a status.
unfoldable pub row_after : CriticStatus → ReviewablePatchStatus → ReviewablePatchStatus
row_after approved before = patch_approved
row_after rejected before = patch_rejected_status
row_after failed before = before

pub IsFailure : Failure → Type 0
IsFailure failure =
    ((failure.status ≡ rejected) × (f : CriticFeedback) × (failure.feedback ≡ some f))
    ⊎ ((failure.status ≡ failed) × (failure.feedback ≡ none))

pub classify_failure-IsFailure : (error : Thrown) → IsFailure (classify_failure error)
unfolding classify_failure IsFailure
classify_failure-IsFailure (exploit_still_succeeds_error _) = inl (refl, _, refl)
classify_failure-IsFailure (security_gate_error _) = inl (refl, _, refl)
classify_failure-IsFailure (patch_conflict_error _) = inl (refl, _, refl)
classify_failure-IsFailure (patch_not_found_error _) = inr (refl, refl)
classify_failure-IsFailure (invalid_patch_status_error _) = inr (refl, refl)
classify_failure-IsFailure (unsupported_vulnerability_error _) = inr (refl, refl)
classify_failure-IsFailure (sandbox_provision_error _) = inr (refl, refl)
classify_failure-IsFailure (baseline_invalid_error _) = inr (refl, refl)
classify_failure-IsFailure (application_start_error _) = inr (refl, refl)
classify_failure-IsFailure (exploit_inconclusive_error _) = inr (refl, refl)
classify_failure-IsFailure (validation_infrastructure_error _) = inr (refl, refl)
classify_failure-IsFailure (other_error _) = inr (refl, refl)
classify_failure-IsFailure not_an_error = inr (refl, refl)

module _ (deps : CriticDependencies) (patch : ReviewablePatch) (context : CriticPatchContext)
    (n : ℕ) where
  pub persist-gives :
      (status : CriticStatus) (kind : Option CriticFailureKind) (feedback : Option CriticFeedback)
      (message : Option Text) {journal last : Journal} {result : CriticRunResult}
      → persist deps patch context n status kind feedback message journal ≡ (ok result, last)
      → (result.status ≡ status) × (result.feedback ≡ feedback) × (last ≡ journal)
  unfolding persist
  persist-gives status kind feedback message {journal} {last} {result} h =
      let (execution_id, _, rest) = bind-ok deps.record_execution _ (ap (λ out. out.0) h) in
      let (id, _, done) = bind-ok deps.save _ rest in
      let same = ok-injective done in
      (sym (ap (λ r. r.status) same), sym (ap (λ r. r.feedback) same), sym (ap (λ out. out.1) h))

  -- The row and the feedback that a result of a status comes with.
  unfoldable pub Settles : ReviewablePatchStatus → CriticRunResult → Journal → Type 0
  Settles before result after =
      (after.patch_status ≡ row_after result.status before)
      × IsVerdict result.status result.feedback

  persist-Settles :
      (status : CriticStatus) (kind : Option CriticFailureKind) (feedback : Option CriticFeedback)
      (message : Option Text) (before : ReviewablePatchStatus) (journal : Journal) {last : Journal}
      {result : CriticRunResult}
      → journal.patch_status ≡ row_after status before
      → IsVerdict status feedback
      → persist deps patch context n status kind feedback message journal ≡ (ok result, last)
      → Settles before result last
  unfolding Settles
  persist-Settles status kind feedback message before journal {last} {result} row verdict h =
      let (s, f, l) = persist-gives status kind feedback message h in
      (
        ap (λ j. j.patch_status) l ∙ row ∙ ap (λ t. row_after t before) (sym s),
        subst (λ t. IsVerdict t result.feedback) (sym s)
            (subst (λ g. IsVerdict status g) (sym f) verdict),
      )

  -- What announcing does to the row, if it does not throw.
  RowAfter : CriticStatus → Journal → Result Thrown (Unit {0}) × Journal → Type 0
  RowAfter status before (err error, after) = Unit
  RowAfter status before (ok _, after) = after.patch_status ≡ row_after status before.patch_status

  announce-RowAfter :
      (status : CriticStatus) (kind : CriticFailureKind) (journal : Journal)
      → status ≢ approved
      → RowAfter status journal (announce deps status kind journal)
  unfolding RowAfter row_after
  announce-RowAfter approved kind journal other = absurd (other refl)
  announce-RowAfter failed kind journal other = elim (Bool-cases deps.events_bridge) [
    | inl b ↦ rw b refl
    | inr b ↦ rw b refl
  ]
  announce-RowAfter rejected kind journal other = elim (Result-cases deps.set_verdict) [
    | inl (error, e) ↦ rw e tt
    | inr (_, e) ↦ elim (Bool-cases deps.events_bridge) [
      | inl b ↦ rw (e, b) refl
      | inr b ↦ rw (e, b) refl
    ]
  ]

  conclude-Settles :
      (failure : Failure) (journal : Journal) (out : Result Thrown (Unit {0}) × Journal)
      {last : Journal} {result : CriticRunResult}
      → RowAfter failure.status journal out
      → IsVerdict failure.status (kept_feedback failure.status failure.feedback)
      → continue_with
          (λ _.
            persist deps patch context n failure.status
              (some failure.failure_kind)
              (kept_feedback failure.status failure.feedback)
              (some failure.error_message))
          out
        ≡ (ok result, last)
      → Settles journal.patch_status result last
  unfolding RowAfter
  conclude-Settles failure journal (err error, middle) row verdict h = absurd (cc h)
  conclude-Settles failure journal (ok _, middle) row verdict h =
      persist-Settles failure.status (some failure.failure_kind)
        (kept_feedback failure.status failure.feedback) (some failure.error_message)
        journal.patch_status middle row verdict h

  pub kept-IsVerdict :
      (failure : Failure)
      → IsFailure failure
      → (failure.status ≢ approved)
        × IsVerdict failure.status (kept_feedback failure.status failure.feedback)
  unfolding IsFailure IsVerdict
  kept-IsVerdict failure (inl (s, f, e)) = (
    λ same. absurd (cc (sym s ∙ same)),
    subst (λ t. IsVerdict t (kept_feedback t failure.feedback)) (sym s) (f, e),
  )
  kept-IsVerdict failure (inr (s, e)) = (
    λ same. absurd (cc (sym s ∙ same)),
    subst (λ t. IsVerdict t (kept_feedback t failure.feedback)) (sym s) refl,
  )

  failure-Settles :
      (failure : Failure) (journal : Journal) {last : Journal} {result : CriticRunResult}
      → IsFailure failure
      → conclude deps patch context n failure journal ≡ (ok result, last)
      → Settles journal.patch_status result last
  unfolding conclude
  failure-Settles failure journal is h =
      let (other, verdict) = kept-IsVerdict failure is in
      conclude-Settles failure journal (announce deps failure.status failure.failure_kind journal)
        (announce-RowAfter failure.status failure.failure_kind journal other) verdict h

  torn-Settles :
      (before : ReviewablePatchStatus) (out : Result Thrown CriticRunResult × Journal)
      {result : CriticRunResult} {last : Journal}
      → ((r : CriticRunResult) (l : Journal) → out ≡ (ok r, l) → Settles before r l)
      → after_from (λ _ k. tear_down_if deps k.sandbox k) out ≡ (ok result, last)
      → Settles before result last
  unfolding Settles
  torn-Settles before (err error, middle) settles h = absurd (cc h)
  torn-Settles before (ok r, middle) {result} {last} settles h =
      let (row, verdict) = settles r middle refl in
      let same : r ≡ result = ok-injective (ap (λ out. out.0) h) in
      (
        sym (ap (λ out. out.1.patch_status) h)
            ∙ (tear_down-destroyed deps middle.sandbox middle).1
            ∙ row
            ∙ ap (λ q. row_after q.status before) same,
        subst (λ q. IsVerdict q.status q.feedback) same verdict,
      )

  -- When a validation that begins with no sandbox in hand returns a result, the row of the patch
  -- says APPROVED if the result does, REJECTED if the result does, and is as before if the result is
  -- FAILED; and a REJECTED result carries a feedback, and the others none.
  pub validate-Settles :
      (file_path diff_content : Text) (journal : Journal) {last : Journal}
      {result : CriticRunResult}
      → journal.sandbox ≡ none
      → validate deps patch context n file_path diff_content journal ≡ (ok result, last)
      → Settles journal.patch_status result last
  unfolding validate row_after IsVerdict
  validate-Settles file_path diff_content journal {last} {result} fresh h =
      go (attempt_checks deps patch context file_path diff_content journal)
        (attempt_checks-Ended deps patch context file_path diff_content journal fresh) h
    where
      go :
          (out : Result Thrown (Option Failure) × Journal)
          → Ended (made deps) journal out
          → after_from
              (λ _ k. tear_down_if deps k.sandbox k)
              (continue_with (finish deps patch context n) out)
            ≡ (ok result, last)
          → Settles journal.patch_status result last
      go (_, after) (ended_well r s d) h =
          torn-Settles journal.patch_status (finish deps patch context n none after)
            (λ _ _ e. persist-Settles approved none none none journal.patch_status after r refl e) h
      go (_, after) (ended_badly error r s d) h =
          torn-Settles journal.patch_status
            (finish deps patch context n (some (classify_failure error)) after)
            (λ q l e.
              subst (λ row. Settles row q l) r
                (failure-Settles (classify_failure error) after (classify_failure-IsFailure error)
                  e))
            h
