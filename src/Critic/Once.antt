-- ===== src/Critic/Once.antt =====
-- `run` of critic.service.ts moves the patch on: a patch goes through one validation.
use autoforge.Critic.Step.{◌>>=◌, Journal, continue_with, call}
use autoforge.Common.Texts.{Text}
use autoforge.Common.{◌≡◌, ◌≢◌, ◌∙◌, ◌∷◌, ℕ, refl, sym, ap, Option, none, some, [], ◌⊎◌, inl, inr}
use autoforge.Critic.Row.{row_after, Settles, validate-Settles}
use autoforge.Critic.Service.{
  run_context, validate, fresh_locals, set_row, require_supported, run_patch, run,
  require_generated, require_patch, invalid_patch_status,
}
use autoforge.Critic.{
  generated, CriticStatus, CriticDependencies, under_review, ReviewablePatch, CriticPatchContext,
  approved, rejected, failed, Thrown, ReviewablePatchStatus, patch_approved, patch_rejected_status,
}
use autoforge.Critic.Outcome.{CriticRunResult}
use autoforge.Common.Result.{ok, Result, err}

-- The row of the patch when a run has returned a result.
Moved : Journal → Type 0
Moved journal = journal.patch_status ≢ generated

row_after-moved : (status : CriticStatus) → row_after status under_review ≢ generated
unfolding row_after
row_after-moved approved same = absurd (cc same)
row_after-moved rejected same = absurd (cc same)
row_after-moved failed same = absurd (cc same)

validate-Moved :
    (deps : CriticDependencies) (patch : ReviewablePatch) (context : CriticPatchContext) (n : ℕ)
    (path diff : Text) (journal : Journal) {last : Journal} {result : CriticRunResult}
    → journal.sandbox ≡ none
    → journal.patch_status ≡ under_review
    → validate deps patch context n path diff journal ≡ (ok result, last)
    → Moved last
unfolding Moved Settles
validate-Moved deps patch context n path diff journal {last} {result} fresh row h same =
    let settled = (validate-Settles deps patch context n path diff journal fresh h).0 in
    row_after-moved result.status
      (ap (λ s. row_after result.status s) (sym row) ∙ sym settled ∙ same)

run_context-Moved :
    (deps : CriticDependencies) (patch : ReviewablePatch) (n : ℕ) (context : CriticPatchContext)
    (journal : Journal) {last : Journal} {result : CriticRunResult}
    → run_context deps patch n context journal ≡ (ok result, last)
    → Moved last
unfolding run_context
run_context-Moved deps patch n context journal {last} {result} h =
    texts patch.file_path patch.diff_content refl refl
  where
    marked :
        (q : ReviewablePatch) (path diff : Text) (mark : Result Thrown (Unit {0}))
        → continue_with
            (λ _. fresh_locals >>= (λ _. validate deps q context n path diff))
            (set_row under_review mark journal)
          ≡ (ok result, last)
        → Moved last
    marked q path diff (err error) e = absurd (cc e)
    marked q path diff (ok _) e = validate-Moved deps q context n path diff _ refl refl e

    texts : (f d : Option Text) → patch.file_path ≡ f → patch.diff_content ≡ d → Moved last
    texts none d e g = absurd (cc (rw e at h))
    texts (some []) d e g = absurd (cc (rw e at h))
    texts (some (c ∷ path)) none e g = absurd (cc (rw (e, g) at h))
    texts (some (c ∷ path)) (some []) e g = absurd (cc (rw (e, g) at h))
    texts (some (c ∷ path)) (some (k ∷ diff)) e g =
        marked _ (c ∷ path) (k ∷ diff) deps.mark_under_review (rw (e, g) at h)

status-cases : (s : ReviewablePatchStatus) → (s ≡ generated) ⊎ (s ≢ generated)
status-cases generated = inl refl
status-cases under_review = inr (λ same. absurd (cc same))
status-cases patch_approved = inr (λ same. absurd (cc same))
status-cases patch_rejected_status = inr (λ same. absurd (cc same))

-- A patch that is not GENERATED is refused before anything is done.
require_generated-refuses :
    (patch_id : Text) (status : ReviewablePatchStatus) (journal : Journal)
    → status ≢ generated
    → require_generated patch_id status journal
      ≡ (err (invalid_patch_status patch_id status), journal)
require_generated-refuses patch_id generated journal other = absurd (other refl)
require_generated-refuses patch_id under_review journal other = refl
require_generated-refuses patch_id patch_approved journal other = refl
require_generated-refuses patch_id patch_rejected_status journal other = refl

resolved-Moved :
    (deps : CriticDependencies) (patch_id : Text) (patch : ReviewablePatch) (n : ℕ)
    (out : Result Thrown CriticPatchContext × Journal) {last : Journal} {result : CriticRunResult}
    → continue_with (run_context deps patch n) out ≡ (ok result, last)
    → Moved last
resolved-Moved deps patch_id patch n (err error, middle) h = absurd (cc h)
resolved-Moved deps patch_id patch n (ok context, middle) h =
    run_context-Moved deps patch n context middle h

found-Moved :
    (deps : CriticDependencies) (patch_id : Text) (patch : ReviewablePatch) (n : ℕ)
    (resolved : Result Thrown (Option CriticPatchContext)) (journal : Journal) {last : Journal}
    {result : CriticRunResult}
    → continue_with
        (λ found. require_supported patch_id found >>= run_context deps patch n)
        (resolved, journal)
      ≡ (ok result, last)
    → Moved last
found-Moved deps patch_id patch n (err error) journal h = absurd (cc h)
found-Moved deps patch_id patch n (ok found) journal h =
    resolved-Moved deps patch_id patch n (require_supported patch_id found journal) h

generated-Moved :
    (deps : CriticDependencies) (patch_id : Text) (patch : ReviewablePatch) (n : ℕ)
    (status : ReviewablePatchStatus) (journal : Journal) {last : Journal} {result : CriticRunResult}
    → continue_with
        (λ _.
          call deps.resolve_for_patch
          >>= (λ found. require_supported patch_id found >>= run_context deps patch n))
        (require_generated patch_id status journal)
      ≡ (ok result, last)
    → Moved last
generated-Moved deps patch_id patch n generated journal h =
    found-Moved deps patch_id patch n deps.resolve_for_patch journal h
generated-Moved deps patch_id patch n under_review journal h = absurd (cc h)
generated-Moved deps patch_id patch n patch_approved journal h = absurd (cc h)
generated-Moved deps patch_id patch n patch_rejected_status journal h = absurd (cc h)

patch-Moved :
    (deps : CriticDependencies) (patch_id : Text) (n : ℕ)
    (found : Result Thrown (Option ReviewablePatch)) (journal : Journal) {last : Journal}
    {result : CriticRunResult}
    → continue_with (λ p. require_patch patch_id p >>= run_patch deps patch_id n) (found, journal)
      ≡ (ok result, last)
    → Moved last
unfolding run_patch
patch-Moved deps patch_id n (err error) journal h = absurd (cc h)
patch-Moved deps patch_id n (ok none) journal h = absurd (cc h)
patch-Moved deps patch_id n (ok (some patch)) journal h =
    generated-Moved deps patch_id patch n journal.patch_status journal h

-- When a run has returned a result, APPROVED, REJECTED or FAILED, a later run on the same patch,
-- with whatever services, finds its row moved on: it throws that the status is not reviewable, and
-- does nothing. So a patch is validated once, and not again after a FAILED validation.
pub run-once :
    (deps later : CriticDependencies) (patch_id : Text) (n m : ℕ) (journal : Journal)
    {last : Journal} {result : CriticRunResult} {patch : ReviewablePatch}
    → run deps patch_id n journal ≡ (ok result, last)
    → later.get_patch ≡ ok (some patch)
    → run later patch_id m last ≡ (err (invalid_patch_status patch_id last.patch_status), last)
unfolding run run_patch Moved
run-once deps later patch_id n m journal {last} h found =
    let moved = patch-Moved deps patch_id n deps.get_patch journal h in
    rw (found, require_generated-refuses patch_id last.patch_status last moved) refl
