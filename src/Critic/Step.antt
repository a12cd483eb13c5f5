-- ===== src/Critic/Step.antt =====
-- Code of the Critic that runs: it reads and writes what the run records, and may throw. What was
-- recorded before a throw stays recorded.
use autoforge.Common.Result.{Result, ok, err}
use autoforge.Common.{◌≡◌, ◌∷◌, ◌++◌, if◌then◌else◌, String, refl, Option, List, [], take}
use autoforge.Critic.{
  ReviewablePatchStatus, Thrown, CriticEventName, CriticCheck, CriticDependencies, Text,
  ExploitCriticOutcome,
}
use autoforge.Common.Texts.{Text}

-- What a run leaves behind: the status of the patch's row, the events of the Critic's sink with
-- their detail, the types published to the bridge, the sandboxes made and those asked to be
-- destroyed; and the variables of `validate` that its `catch` and `finally` read.
pub record Journal : Type 0 where
  pub patch_status : ReviewablePatchStatus
  pub events : List (CriticEventName × Text)
  pub bridged : List String
  pub created : List Text
  pub destroyed : List Text
  pub checks : List CriticCheck
  pub sandbox : Option Text
  pub exploit : Option ExploitCriticOutcome

abbrev pub Step : Type 0 → Type 0
Step A = Journal → Result Thrown A × Journal

abbrev pub continue_with :
    {A B : Type 0} → (A → Step B) → Result Thrown A × Journal → Result Thrown B × Journal
continue_with next (err thrown, journal) = (err thrown, journal)
continue_with next (ok value, journal) = next value journal

infixl 5 ◌>>=◌
abbrev pub ◌>>=◌ : {A B : Type 0} → Step A → (A → Step B) → Step B
(first >>= next) journal = continue_with next (first journal)

module _ {A : Type 0} where
  abbrev pub return : A → Step A
  return value journal = (ok value, journal)

  abbrev pub throw : Thrown → Step A
  throw thrown journal = (err thrown, journal)

  -- A call of a service.
  abbrev pub call : Result Thrown A → Step A
  call result journal = (result, journal)

  abbrev pub catch_from : (Thrown → Step A) → Result Thrown A × Journal → Result Thrown A × Journal
  catch_from handler (err thrown, journal) = handler thrown journal
  catch_from handler (ok value, journal) = (ok value, journal)

  -- `try { first } catch (thrown) { handler }`.
  abbrev pub try_catch : Step A → (Thrown → Step A) → Step A
  try_catch first handler journal = catch_from handler (first journal)

  abbrev pub after_from :
      (Result Thrown A → Journal → Journal) → Result Thrown A × Journal → Result Thrown A × Journal
  after_from last (result, journal) = (result, last result journal)

  -- `try { first } finally { last }`, where `last` does not throw.
  abbrev pub try_finally : Step A → (Result Thrown A → Journal → Journal) → Step A
  try_finally first last journal = after_from last (first journal)

abbrev pub emitted : CriticEventName → Text → Journal → Journal
emitted name detail journal = record journal {
  events = journal.events ++ (name, take 300 detail) ∷ [];
}

-- `this.emit(name, runId, detail)`.
abbrev pub emit : CriticEventName → Text → Step (Unit {0})
emit name detail journal = (ok tt, emitted name detail journal)

-- `checks.push(check)`.
abbrev pub push_check : CriticCheck → Step (Unit {0})
push_check check journal = (ok tt, record journal { checks = journal.checks ++ check ∷ [] })

-- `this.bridge(scanId, input)`, by the type of the event: it never throws.
abbrev pub bridge : CriticDependencies → String → Step (Unit {0})
bridge deps event_type journal = (
  ok tt,
  if deps.events_bridge
      then record journal { bridged = journal.bridged ++ event_type ∷ [] }
      else journal,
)

module _ {A B : Type 0} where
  -- What succeeds in two steps succeeds in the first, and then in the second.
  pub step-ok :
      (first : Step A) (next : A → Step B) {journal last : Journal} {result : B}
      → (first >>= next) journal ≡ (ok result, last)
      → (value : A) × (middle : Journal) × (first journal ≡ (ok value, middle))
        × (next value middle ≡ (ok result, last))
  step-ok first next {journal} {last} {result} h = go (first journal) refl h
    where
      go :
          (out : Result Thrown A × Journal)
          → first journal ≡ out
          → continue_with next out ≡ (ok result, last)
          → (value : A) × (middle : Journal) × (first journal ≡ (ok value, middle))
            × (next value middle ≡ (ok result, last))
      go (err thrown, middle) e h = absurd (cc h)
      go (ok value, middle) e h = (value, middle, e, h)
