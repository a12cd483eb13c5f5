-- ===== src/Critic/Frame.antt =====
-- What the steps of critic-steps.ts and critic.service.ts leave alone: the row of the patch, the
-- sandbox in hand and those asked to be destroyed.
use autoforge.Critic.Step.{
  ◌>>=◌, Journal, Step, return, throw, call, emit, push_check, bridge, continue_with, catch_from,
  try_catch, after_from, try_finally,
}
use autoforge.Common.Texts.{Text}
use autoforge.Common.{
  ◌≡◌, ◌∙◌, if◌then◌else◌, String, refl, inl, inr, Bool, true, false, Option, Bool-cases, List,
}
use autoforge.Critic.{
  Thrown, CriticEventName, CriticCheck, ExploitCriticOutcome, CriticDependencies, RunStatus,
  RuntimeRepositoryRef, run_passed, run_failed, run_not_available, CriticPatchContext,
  BaselineStatus, ExploitStatus, baseline_check_started, reproduced, other_status, not_reproduced,
  not_confirmed, confirmed,
}
use autoforge.Common.Result.{Result, err, ok}
use autoforge.Critic.Steps.{
  record_created, provision_fresh, throw_on_failure, apply_patch, run_build, run_tests, run_retest,
  advisory, baseline_end, baseline_body, run_baseline,
}
use autoforge.Critic.Service.{
  set_exploit, review_gate, require_baseline, apply_in_sandbox, check_patched, check_exploit,
  require_fixed,
}

-- The journals agree on what is left alone.
unfoldable pub Same : Journal → Journal → Type 0
Same before after =
    (after.patch_status ≡ before.patch_status)
    × (after.destroyed ≡ before.destroyed)
    × (after.sandbox ≡ before.sandbox)

Same-refl : (journal : Journal) → Same journal journal
unfolding Same
Same-refl journal = (refl, refl, refl)

Same-trans : (a b c : Journal) → Same a b → Same b c → Same a c
unfolding Same
Same-trans a b c (p, q, r) (p', q', r') = (p' ∙ p, q' ∙ q, r' ∙ r)

unfoldable pub IsFrame : {A : Type 0} → Step A → Type 0
IsFrame step = (journal : Journal) → Same journal (step journal).1

pub throw-IsFrame : (B : Type 0) (error : Thrown) → IsFrame (throw {A = B} error)
unfolding IsFrame
throw-IsFrame B error journal = Same-refl journal

module _ {A : Type 0} where
  pub return-IsFrame : (value : A) → IsFrame (return value)
  unfolding IsFrame
  return-IsFrame value journal = Same-refl journal

  pub call-IsFrame : (result : Result Thrown A) → IsFrame (call result)
  unfolding IsFrame
  call-IsFrame result journal = Same-refl journal

pub emit-IsFrame : (name : CriticEventName) (detail : Text) → IsFrame (emit name detail)
unfolding IsFrame Same
emit-IsFrame name detail journal = (refl, refl, refl)

pub push_check-IsFrame : (c : CriticCheck) → IsFrame (push_check c)
unfolding IsFrame Same
push_check-IsFrame c journal = (refl, refl, refl)

pub record_created-IsFrame : (id : Text) → IsFrame (record_created id)
unfolding IsFrame Same
record_created-IsFrame id journal = (refl, refl, refl)

pub set_exploit-IsFrame : (exploit : ExploitCriticOutcome) → IsFrame (set_exploit exploit)
unfolding IsFrame Same
set_exploit-IsFrame exploit journal = (refl, refl, refl)

pub bridge-IsFrame : (deps : CriticDependencies) (type : String) → IsFrame (bridge deps type)
unfolding IsFrame Same
bridge-IsFrame deps type journal = elim (Bool-cases deps.events_bridge) [
  | inl b ↦ rw b (refl, refl, refl)
  | inr b ↦ rw b (refl, refl, refl)
]

module _ {A B : Type 0} where
  continue-Same :
      (next : A → Step B)
      → ((value : A) → IsFrame (next value))
      → (journal : Journal) (out : Result Thrown A × Journal) → Same journal out.1
      → Same journal (continue_with next out).1
  unfolding IsFrame
  continue-Same next frames journal (err thrown, middle) same = same
  continue-Same next frames journal (ok value, middle) same =
      Same-trans journal middle (next value middle).1 same (frames value middle)

  pub bind-IsFrame :
      (first : Step A) (next : A → Step B)
      → IsFrame first
      → ((value : A) → IsFrame (next value))
      → IsFrame (first >>= next)
  unfolding IsFrame
  bind-IsFrame first next frame frames journal =
      continue-Same next frames journal (first journal) (frame journal)

module _ {A : Type 0} where
  catch-Same :
      (handler : Thrown → Step A)
      → ((error : Thrown) → IsFrame (handler error))
      → (journal : Journal) (out : Result Thrown A × Journal) → Same journal out.1
      → Same journal (catch_from handler out).1
  unfolding IsFrame
  catch-Same handler frames journal (ok value, middle) same = same
  catch-Same handler frames journal (err error, middle) same =
      Same-trans journal middle (handler error middle).1 same (frames error middle)

  pub try_catch-IsFrame :
      (first : Step A) (handler : Thrown → Step A)
      → IsFrame first
      → ((error : Thrown) → IsFrame (handler error))
      → IsFrame (try_catch first handler)
  unfolding IsFrame
  try_catch-IsFrame first handler frame frames journal =
      catch-Same handler frames journal (first journal) (frame journal)

pub if-IsFrame :
    {A : Type 0} (b : Bool) (first second : Step A)
    → IsFrame first
    → IsFrame second
    → IsFrame (if b then first else second)
if-IsFrame true first second p q = p
if-IsFrame false first second p q = q

pub throw_on_failure-IsFrame :
    (status : RunStatus) (error : Thrown) → IsFrame (throw_on_failure status error)
throw_on_failure-IsFrame run_passed error = return-IsFrame tt
throw_on_failure-IsFrame run_failed error = throw-IsFrame _ error
throw_on_failure-IsFrame run_not_available error = return-IsFrame tt

pub ruleset frames = (
  return-IsFrame, throw-IsFrame, call-IsFrame, emit-IsFrame, push_check-IsFrame,
  record_created-IsFrame, set_exploit-IsFrame, bridge-IsFrame, bind-IsFrame, try_catch-IsFrame,
  if-IsFrame, throw_on_failure-IsFrame,
)

pub provision_fresh-IsFrame :
    (deps : CriticDependencies) (override : Option RuntimeRepositoryRef)
    → IsFrame (provision_fresh deps override)
unfolding provision_fresh
provision_fresh-IsFrame deps override = search frames depth 30

pub apply_patch-IsFrame :
    (deps : CriticDependencies) (id path : Text) → IsFrame (apply_patch deps id path)
unfolding apply_patch
apply_patch-IsFrame deps id path = search frames depth 30

pub run_build-IsFrame : (deps : CriticDependencies) (path : Text) → IsFrame (run_build deps path)
unfolding run_build
run_build-IsFrame deps path = search frames depth 30

pub run_tests-IsFrame : (deps : CriticDependencies) → IsFrame (run_tests deps)
unfolding run_tests
run_tests-IsFrame deps = search frames depth 30

pub run_retest-IsFrame :
    (deps : CriticDependencies) (context : CriticPatchContext) (status : BaselineStatus)
    → IsFrame (run_retest deps context status)
unfolding run_retest
run_retest-IsFrame deps context status = search frames depth 30

pub advisory-IsFrame : (deps : CriticDependencies) → IsFrame (advisory deps)
unfolding advisory
advisory-IsFrame deps = search frames depth 30

pub review_gate-IsFrame : (gate : Bool × List (Text × Bool)) → IsFrame (review_gate gate)
unfolding review_gate
review_gate-IsFrame gate = search frames depth 30

after-Same :
    {A : Type 0} (last : Result Thrown A → Journal → Journal)
    → ((result : Result Thrown A) (journal : Journal) → Same journal (last result journal))
    → (journal : Journal) (out : Result Thrown A × Journal) → Same journal out.1
    → Same journal (after_from last out).1
after-Same last keeps journal (result, middle) same =
    Same-trans journal middle (last result middle) same (keeps result middle)

baseline_end-Same :
    (result : Result Thrown BaselineStatus) (journal : Journal)
    → Same journal (baseline_end result journal)
unfolding Same
baseline_end-Same (err error) journal = (refl, refl, refl)
baseline_end-Same (ok status) journal = (refl, refl, refl)

-- The body of `runBaseline`, which `finally` follows.
baseline_body-IsFrame : (deps : CriticDependencies) → IsFrame (baseline_body deps)
unfolding baseline_body
baseline_body-IsFrame deps = search frames depth 30

baseline_finally-IsFrame :
    (deps : CriticDependencies) → IsFrame (try_finally (baseline_body deps) baseline_end)
unfolding IsFrame
baseline_finally-IsFrame deps journal =
    after-Same baseline_end baseline_end-Same journal (baseline_body deps journal)
      (baseline_body-IsFrame deps journal)

pub run_baseline-IsFrame :
    (deps : CriticDependencies) (context : CriticPatchContext) → IsFrame (run_baseline deps context)
unfolding run_baseline
run_baseline-IsFrame deps context =
    bind-IsFrame _ _ (emit-IsFrame baseline_check_started context.vulnerability_id)
      (λ _. baseline_finally-IsFrame deps)

pub require_baseline-IsFrame : (status : BaselineStatus) → IsFrame (require_baseline status)
require_baseline-IsFrame reproduced = return-IsFrame tt
require_baseline-IsFrame not_reproduced = throw-IsFrame _ _

pub require_fixed-IsFrame : (status : ExploitStatus) → IsFrame (require_fixed status)
require_fixed-IsFrame not_confirmed = return-IsFrame tt
require_fixed-IsFrame confirmed = throw-IsFrame _ _
require_fixed-IsFrame (other_status text) = throw-IsFrame _ _

pub ruleset step_frames = (
  frames, apply_patch-IsFrame, run_build-IsFrame, run_tests-IsFrame, run_retest-IsFrame,
  advisory-IsFrame, review_gate-IsFrame, run_baseline-IsFrame, require_baseline-IsFrame,
  require_fixed-IsFrame,
)

pub apply_in_sandbox-IsFrame :
    (deps : CriticDependencies) (context : CriticPatchContext) (path id : Text)
    → IsFrame (apply_in_sandbox deps context path id)
unfolding apply_in_sandbox
apply_in_sandbox-IsFrame deps context path id = search step_frames depth 30

pub check_patched-IsFrame :
    (deps : CriticDependencies) (path : Text) → IsFrame (check_patched deps path)
unfolding check_patched
check_patched-IsFrame deps path = search step_frames depth 30

pub check_exploit-IsFrame :
    (deps : CriticDependencies) (context : CriticPatchContext) (path diff : Text)
    (status : BaselineStatus)
    → IsFrame (check_exploit deps context path diff status)
unfolding check_exploit
check_exploit-IsFrame deps context path diff status = search step_frames depth 30
