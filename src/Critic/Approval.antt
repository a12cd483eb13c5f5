-- ===== src/Critic/Approval.antt =====
-- What critic.service.ts has checked when it lets a patch through.
use autoforge.Critic.Step.{◌>>=◌, Journal, continue_with, catch_from, after_from, bridge}
use autoforge.Common.Texts.{Text}
use autoforge.Common.{◌≡◌, ◌≢◌, ℕ, refl, ap, some, ◌∙◌, none, Option, sym}
use autoforge.Critic.{CriticDependencies, CriticPatchContext, Thrown, ReviewablePatch, approved}
use autoforge.Common.Result.{ok, Result, err, ok-injective}
use autoforge.Critic.Service.{
  check_all, attempt_checks, conclude, validate, kept_feedback, tear_down_if, announce, finish,
  check_in_sandbox,
}
use autoforge.Critic.Teardown.{
  caught, approve_then, Ended, made, ended_well, ended_badly, attempt_checks-Ended,
  provision_fresh-made,
}
use autoforge.Critic.Outcome.{Failure, CriticRunResult, persist, classify_failure}
use autoforge.Critic.Row.{kept-IsVerdict, persist-gives, classify_failure-IsFailure}
use autoforge.Critic.Secures.{Passes, Secures, bind-rest, bind-first, secure}
use autoforge.Critic.Checks.{check_all-Passes}
use autoforge.Critic.Steps.{provision_fresh}

module _ (deps : CriticDependencies) (patch : ReviewablePatch) (context : CriticPatchContext)
    (n : ℕ) where
  caught-none :
      (out : Result Thrown (Unit {0}) × Journal)
      → (catch_from (caught deps patch) (continue_with (approve_then deps patch) out)).0 ≡ ok none
      → out.0 ≡ ok tt
  caught-none (err error, middle) h = absurd (cc h)
  caught-none (ok _, middle) h = refl

  attempt_checks-Passes :
      (path diff : Text) (journal : Journal)
      → (attempt_checks deps patch context path diff journal).0 ≡ ok none
      → Passes deps context path diff
  unfolding attempt_checks
  attempt_checks-Passes path diff journal h =
      (check_all-Passes deps context path diff).secured journal tt
        (caught-none (check_all deps context path diff journal) h)

  check_all-made :
      (path diff : Text)
      → Secures (check_all deps context path diff) ((id : Text) × (made deps ≡ some id))
  unfolding check_all
  check_all-made path diff =
      bind-rest (bridge deps "CRITIC_STARTED")
        (λ _. do id ← provision_fresh deps none; check_in_sandbox deps context path diff id)
        (λ _.
          bind-first (provision_fresh deps none) (check_in_sandbox deps context path diff)
            (secure (provision_fresh-made deps)))

  attempt_checks-made :
      (path diff : Text) (journal : Journal)
      → (attempt_checks deps patch context path diff journal).0 ≡ ok none
      → (id : Text) × (made deps ≡ some id)
  unfolding attempt_checks
  attempt_checks-made path diff journal h =
      (check_all-made path diff).secured journal tt
        (caught-none (check_all deps context path diff journal) h)

  concluded :
      (failure : Failure) (out : Result Thrown (Unit {0}) × Journal) {last : Journal}
      {result : CriticRunResult}
      → continue_with
          (λ _.
            persist deps patch context n failure.status
              (some failure.failure_kind)
              (kept_feedback failure.status failure.feedback)
              (some failure.error_message))
          out
        ≡ (ok result, last)
      → result.status ≡ failure.status
  concluded failure (err error, middle) h = absurd (cc h)
  concluded failure (ok _, middle) h =
      (persist-gives deps patch context n failure.status (some failure.failure_kind)
        (kept_feedback failure.status failure.feedback) (some failure.error_message) h).0

  conclude-status :
      (error : Thrown) (journal : Journal) {last : Journal} {result : CriticRunResult}
      → conclude deps patch context n (classify_failure error) journal ≡ (ok result, last)
      → result.status ≢ approved
  unfolding conclude
  conclude-status error journal h same =
      let failure = classify_failure error in
      (kept-IsVerdict deps patch context n failure (classify_failure-IsFailure error)).0 (
        sym (concluded failure (announce deps failure.status failure.failure_kind journal) h)
        ∙ same)

  torn :
      (out : Result Thrown CriticRunResult × Journal) {result : CriticRunResult} {last : Journal}
      → after_from (λ _ k. tear_down_if deps k.sandbox k) out ≡ (ok result, last)
      → out ≡ (ok result, out.1)
  torn (err error, middle) h = absurd (cc h)
  torn (ok r, middle) h = ap (λ q. (ok q, middle)) (ok-injective (ap (λ out. out.0) h))

  -- When a validation that begins with no sandbox in hand returns a result that is APPROVED, then
  -- provisioning handed over a sandbox, the verification run confirmed the exploit before the patch
  -- and did not confirm it after, the patch was applied, the health check answered before and after,
  -- the build check and the test run answered without failing (each may have been not available), and
  -- the deterministic security gate passed.
  pub validate-Passes :
      (path diff : Text) (journal : Journal) {last : Journal} {result : CriticRunResult}
      → journal.sandbox ≡ none
      → validate deps patch context n path diff journal ≡ (ok result, last)
      → result.status ≡ approved
      → ((id : Text) × (made deps ≡ some id)) × Passes deps context path diff
  unfolding validate
  validate-Passes path diff journal {last} {result} fresh h status =
      go (attempt_checks deps patch context path diff journal)
        (attempt_checks-Ended deps patch context path diff journal fresh) refl h
    where
      go :
          (out : Result Thrown (Option Failure) × Journal)
          → Ended (made deps) journal out
          → attempt_checks deps patch context path diff journal ≡ out
          → after_from
              (λ _ k. tear_down_if deps k.sandbox k)
              (continue_with (finish deps patch context n) out)
            ≡ (ok result, last)
          → ((id : Text) × (made deps ≡ some id)) × Passes deps context path diff
      go (_, after) (ended_well r s d) e h = (
        attempt_checks-made path diff journal (ap (λ o. o.0) e),
        attempt_checks-Passes path diff journal (ap (λ o. o.0) e),
      )
      go (_, after) (ended_badly error r s d) e h = absurd (
          conclude-status error after
            (torn (conclude deps patch context n (classify_failure error) after) h) status)
