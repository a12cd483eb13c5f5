-- ===== src/Critic/Teardown.antt =====
-- The `try`, `catch` and `finally` of critic.service.ts: the sandbox that a validation makes is the
-- one that it asks to be destroyed.
use mathlib.Core.Option
use autoforge.Critic.Step.{◌>>=◌, Step, catch_from, return, try_catch, after_from}
use autoforge.Common.Texts.{Text}
use autoforge.Common.{
  ◌≡◌, ◌∷◌, refl, inl, inr, Option, none, some, List, [], ◌∙◌, Bool-cases, ◌++◌, ℕ, sym, ap,
  append-nil,
}
use autoforge.Critic.{
  CriticDependencies, Thrown, RuntimeRepositoryRef, CriticPatchContext, patch_approved,
  ReviewablePatch, CriticStatus, CriticFailureKind, CriticFeedback, rejected, approved, failed,
  FreshSandbox,
}
use autoforge.Common.Result.{Result, err, Result-cases, ok}
use autoforge.Critic.Steps.{provision_fresh, repository_of, nameless, teardown, to_runtime_context}
use autoforge.Critic.Step.{Journal, continue_with, bridge}
use autoforge.Critic.Frame.{
  Same, IsFrame, bridge-IsFrame, provision_fresh-IsFrame, bind-IsFrame, apply_in_sandbox-IsFrame,
  check_patched-IsFrame, check_exploit-IsFrame,
}
use autoforge.Critic.Service.{
  check_all, check_in_sandbox, apply_in_sandbox, check_patched, check_exploit, approve,
  attempt_checks, conclude, validate, finish, tear_down_if, announce, kept_feedback,
}
use autoforge.Critic.Outcome.{Failure, classify_failure, persist}

abbrev handed : Result Thrown Text → Option Text
handed (err error) = none
handed (ok id) = some id

abbrev made_by : Result Thrown FreshSandbox → Option Text
made_by (err error) = none
made_by (ok fresh) = handed (to_runtime_context fresh)

abbrev made_from : CriticDependencies → Result Thrown (Option RuntimeRepositoryRef) → Option Text
made_from deps (err error) = none
made_from deps (ok repo) = made_by (deps.create (Option.get_or repo nameless))

-- The sandbox that the services make in this run, if they make one and it has what a run connects to.
unfoldable pub made : CriticDependencies → Option Text
made deps = made_from deps (repository_of deps none)

abbrev pub listed : Option Text → List Text
listed none = []
listed (some id) = id ∷ []

-- Provisioning throws when no such sandbox is made, and gives the one that is made.
Gives : Option Text → Result Thrown Text × Journal → Type 0
Gives none out = (error : Thrown) × (out.0 ≡ err error)
Gives (some id) out = out.0 ≡ ok id

provision_fresh-Gives :
    (deps : CriticDependencies) (journal : Journal)
    → Gives (made deps) (provision_fresh deps none journal)
unfolding Gives made provision_fresh
provision_fresh-Gives deps journal = elim (Result-cases (repository_of deps none)) [
  | inl (error, e) ↦ rw e (_, refl)
  | inr (repo, e) ↦ elim (Result-cases (deps.create (Option.get_or repo nameless))) [
    | inl (error, f) ↦ rw (e, f) (_, refl)
    | inr (fresh, f) ↦ elim (Result-cases (to_runtime_context fresh)) [
      | inl (error, g) ↦ rw (e, f, g) (_, refl)
      | inr (id, g) ↦ rw (e, f, g) refl
    ]
  ]
]

given-made :
    (id : Option Text) (out : Result Thrown Text × Journal) {value : Text}
    → Gives id out
    → out.0 ≡ ok value
    → (made_id : Text) × (id ≡ some made_id)
unfolding Gives
given-made none out (error, e) h = absurd (cc (e, h))
given-made (some id) out e h = (id, refl)

-- Provisioning that does not throw hands over a sandbox.
pub provision_fresh-made :
    (deps : CriticDependencies) (journal : Journal) (value : Text)
    → (provision_fresh deps none journal).0 ≡ ok value
    → (id : Text) × (made deps ≡ some id)
provision_fresh-made deps journal value h =
    given-made (made deps) (provision_fresh deps none journal) (provision_fresh-Gives deps journal)
      h

-- Where a journal stands once its sandbox is settled.
unfoldable pub Stands : Option Text → Journal → Journal → Type 0
Stands id before after =
    (after.sandbox ≡ id)
    × (after.destroyed ≡ before.destroyed)
    × (after.patch_status ≡ before.patch_status)

Stands-after : (id : Option Text) (a b c : Journal) → Same a b → Stands id b c → Stands id a c
unfolding Stands Same
Stands-after id a b c (row, destroyed, sandbox) (s, d, r) = (s, d ∙ destroyed, r ∙ row)

module _ (deps : CriticDependencies) (context : CriticPatchContext)
    (file_path diff_content : Text) where
  checks-IsFrame :
      (id : Text)
      → IsFrame (do
        status ← apply_in_sandbox deps context file_path id
        _ ← check_patched deps file_path
        check_exploit deps context file_path diff_content status)
  checks-IsFrame id =
      bind-IsFrame _ _ (apply_in_sandbox-IsFrame deps context file_path id) (λ status.
        bind-IsFrame _ _ (check_patched-IsFrame deps file_path)
          (λ _. check_exploit-IsFrame deps context file_path diff_content status))

  check_in_sandbox-Stands :
      (id : Text) (journal : Journal)
      → Stands (some id) journal (check_in_sandbox deps context file_path diff_content id journal).1
  unfolding check_in_sandbox Stands IsFrame Same
  check_in_sandbox-Stands id journal =
      let (row, destroyed, sandbox) = checks-IsFrame id (record journal { sandbox = some id }) in
      (sandbox, destroyed, row)

  continue-Stands :
      (id : Option Text) (journal : Journal) (out : Result Thrown Text × Journal)
      → journal.sandbox ≡ none
      → Same journal out.1
      → Gives id out
      → Stands id journal
          (continue_with (check_in_sandbox deps context file_path diff_content) out).1
  unfolding Gives Stands Same
  continue-Stands none journal (result, middle) fresh (row, destroyed, sandbox) (error, e) =
      rw e (sandbox ∙ fresh, destroyed, row)
  continue-Stands (some id) journal (result, middle) fresh (row, destroyed, sandbox) e =
      let (s, d, r) = check_in_sandbox-Stands id middle in rw e (s, d ∙ destroyed, r ∙ row)

  -- From a journal with no sandbox in hand, the checks leave in hand the sandbox that was made.
  pub check_all-Stands :
      (journal : Journal)
      → journal.sandbox ≡ none
      → Stands (made deps) journal (check_all deps context file_path diff_content journal).1
  unfolding check_all Same IsFrame
  check_all-Stands journal fresh =
      let begun : Journal = (bridge deps "CRITIC_STARTED" journal).1 in
      let same : Same journal begun = bridge-IsFrame deps "CRITIC_STARTED" journal in
      Stands-after (made deps) journal begun _ same (
        continue-Stands (made deps) begun (provision_fresh deps none begun) (same.2 ∙ fresh)
          (provision_fresh-IsFrame deps none begun) (provision_fresh-Gives deps begun))

-- How `try` and its `catch` end: the row says APPROVED and nothing was thrown, or something was
-- thrown, which is classified, and the row is as before.
pub data Ended (id : Option Text) (before : Journal)
    : Result Thrown (Option Failure) × Journal → Type 0 where
  ended_well :
      {after : Journal}
      → after.patch_status ≡ patch_approved
      → after.sandbox ≡ id
      → after.destroyed ≡ before.destroyed
      → Ended id before (ok none, after)
  ended_badly :
      {after : Journal} (error : Thrown)
      → after.patch_status ≡ before.patch_status
      → after.sandbox ≡ id
      → after.destroyed ≡ before.destroyed
      → Ended id before (ok (some (classify_failure error)), after)

module _ (deps : CriticDependencies) (patch : ReviewablePatch) where
  abbrev pub approve_then : Unit {0} → Step (Option Failure)
  approve_then _ = do _ ← approve deps patch; return none

  abbrev pub caught : Thrown → Step (Option Failure)
  caught error = return (some (classify_failure error))

  approve-Ended :
      (id : Option Text) (before middle : Journal)
      → Stands id before middle
      → Ended id before (try_catch (approve_then tt) caught middle)
  unfolding approve Stands
  approve-Ended id before middle (s, d, r) = elim (Result-cases deps.set_verdict) [
    | inl (error, e) ↦ rw e (ended_badly error r s d)
    | inr (_, e) ↦ elim (Bool-cases deps.events_bridge) [
      | inl b ↦ rw (e, b) (ended_well refl s d)
      | inr b ↦ rw (e, b) (ended_well refl s d)
    ]
  ]

  checked-Ended :
      (id : Option Text) (before : Journal) (out : Result Thrown (Unit {0}) × Journal)
      → Stands id before out.1
      → Ended id before (catch_from caught (continue_with approve_then out))
  unfolding Stands
  checked-Ended id before (err error, middle) (s, d, r) = ended_badly error r s d
  checked-Ended id before (ok _, middle) stands = approve-Ended id before middle stands

  pub attempt_checks-Ended :
      (context : CriticPatchContext) (file_path diff_content : Text) (journal : Journal)
      → journal.sandbox ≡ none
      → Ended (made deps) journal (attempt_checks deps patch context file_path diff_content journal)
  unfolding attempt_checks
  attempt_checks-Ended context file_path diff_content journal fresh =
      checked-Ended (made deps) journal (check_all deps context file_path diff_content journal)
        (check_all-Stands deps context file_path diff_content journal fresh)

-- The destroyed sandboxes and the one in hand stay.
Kept : Journal → Journal → Type 0
Kept before after = (after.destroyed ≡ before.destroyed) × (after.sandbox ≡ before.sandbox)

module _ (deps : CriticDependencies) where
  announce-Kept :
      (status : CriticStatus) (kind : CriticFailureKind) (journal : Journal)
      → Kept journal (announce deps status kind journal).1
  unfolding Kept
  announce-Kept rejected kind journal = elim (Result-cases deps.set_verdict) [
    | inl (error, e) ↦ rw e (refl, refl)
    | inr (_, e) ↦ elim (Bool-cases deps.events_bridge) [
      | inl b ↦ rw (e, b) (refl, refl)
      | inr b ↦ rw (e, b) (refl, refl)
    ]
  ]
  announce-Kept approved kind journal = elim (Bool-cases deps.events_bridge) [
    | inl b ↦ rw b (refl, refl)
    | inr b ↦ rw b (refl, refl)
  ]
  announce-Kept failed kind journal = elim (Bool-cases deps.events_bridge) [
    | inl b ↦ rw b (refl, refl)
    | inr b ↦ rw b (refl, refl)
  ]

  persist-Kept :
      (patch : ReviewablePatch) (context : CriticPatchContext) (n : ℕ) (status : CriticStatus)
      (kind : Option CriticFailureKind) (feedback : Option CriticFeedback) (message : Option Text)
      (before : Journal) (out : Result Thrown (Unit {0}) × Journal)
      → Kept before out.1
      → Kept before
          (continue_with (λ _. persist deps patch context n status kind feedback message) out).1
  unfolding persist
  persist-Kept patch context n status kind feedback message before (err error, middle) kept = kept
  persist-Kept patch context n status kind feedback message before (ok _, middle) kept = kept

  finish-Kept :
      (patch : ReviewablePatch) (context : CriticPatchContext) (n : ℕ) (failure : Option Failure)
      (journal : Journal)
      → Kept journal (finish deps patch context n failure journal).1
  unfolding conclude persist Kept
  finish-Kept patch context n none journal = (refl, refl)
  finish-Kept patch context n (some failure) journal =
      persist-Kept patch context n failure.status (some failure.failure_kind)
        (kept_feedback failure.status failure.feedback) (some failure.error_message) journal
        (announce deps failure.status failure.failure_kind journal)
        (announce-Kept failure.status failure.failure_kind journal)

  pub tear_down-destroyed :
      (id : Option Text) (journal : Journal)
      → ((tear_down_if deps id journal).destroyed ≡ journal.destroyed ++ listed id)
        × ((tear_down_if deps id journal).patch_status ≡ journal.patch_status)
  unfolding teardown
  tear_down-destroyed none journal = (sym (append-nil journal.destroyed), refl)
  tear_down-destroyed (some id) journal = elim (Result-cases deps.destroy) [
    | inl (error, e) ↦ rw e (refl, refl)
    | inr (_, e) ↦ rw e (refl, refl)
  ]

  ended-destroyed :
      (patch : ReviewablePatch) (context : CriticPatchContext) (n : ℕ) (id : Option Text)
      (before middle : Journal) (failure : Option Failure)
      → middle.sandbox ≡ id
      → middle.destroyed ≡ before.destroyed
      → (after_from
          (λ _ k. tear_down_if deps k.sandbox k)
          (finish deps patch context n failure middle)).1.destroyed
        ≡ before.destroyed ++ listed id
  unfolding Kept
  ended-destroyed patch context n id before middle failure s d =
      let (destroyed, sandbox) = finish-Kept patch context n failure middle in
      let last : Journal = (finish deps patch context n failure middle).1 in
      (tear_down-destroyed last.sandbox last).0
      ∙ ap (λ ds. ds ++ listed last.sandbox) (destroyed ∙ d)
      ∙ ap (λ i. before.destroyed ++ listed i) (sandbox ∙ s)

  -- A validation that begins with no sandbox in hand asks for the destruction of the sandbox that
  -- provisioning handed it, and of no other, and exactly once, whatever the services answer and
  -- whatever is thrown. Provisioning hands over the sandbox that is created if it has its connection
  -- info; one that is created without it is not handed over, and its destruction is not asked for.
  pub validate-destroyed :
      (patch : ReviewablePatch) (context : CriticPatchContext) (n : ℕ)
      (file_path diff_content : Text) (journal : Journal)
      → journal.sandbox ≡ none
      → (validate deps patch context n file_path diff_content journal).1.destroyed
        ≡ journal.destroyed ++ listed (made deps)
  unfolding validate
  validate-destroyed patch context n file_path diff_content journal fresh =
      go (attempt_checks deps patch context file_path diff_content journal)
        (attempt_checks-Ended deps patch context file_path diff_content journal fresh)
    where
      go :
          (out : Result Thrown (Option Failure) × Journal)
          → Ended (made deps) journal out
          → (after_from
              (λ _ k. tear_down_if deps k.sandbox k)
              (continue_with (finish deps patch context n) out)).1.destroyed
            ≡ journal.destroyed ++ listed (made deps)
      go (_, after) (ended_well r s d) =
          ended-destroyed patch context n (made deps) journal after none s d
      go (_, after) (ended_badly error r s d) =
          ended-destroyed patch context n (made deps) journal after (some (classify_failure error))
            s d
