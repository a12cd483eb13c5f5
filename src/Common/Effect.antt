-- ===== src/Common/Effect.antt =====
-- Code that reads and writes a state and may throw: what it wrote before a throw stays written.
use autoforge.Common.Tests.{if◌then◌else◌}
use mathlib.Core.Option.{Option, none, some}
use mathlib.Core.Bool.{Bool, true, false}
use autoforge.Common.Result.{Result, ok, err}

abbrev pub Effect : Type 0 → Type 0 → Type 0 → Type 0
Effect S E A = S → Result E A × S

abbrev pub continue_with : {S E A B : Type 0} → (A → Effect S E B) → Result E A × S → Result E B × S
continue_with next (err thrown, state) = (err thrown, state)
continue_with next (ok value, state) = next value state

infixl 5 ◌>>=◌
abbrev pub ◌>>=◌ : {S E A B : Type 0} → Effect S E A → (A → Effect S E B) → Effect S E B
(first >>= next) state = continue_with next (first state)

module _ {S E A : Type 0} where
  abbrev pub return : A → Effect S E A
  return value state = (ok value, state)

  abbrev pub throw : E → Effect S E A
  throw thrown state = (err thrown, state)

  abbrev pub catch_from : (E → Effect S E A) → Result E A × S → Result E A × S
  catch_from handler (err thrown, state) = handler thrown state
  catch_from handler (ok value, state) = (ok value, state)

  -- `try { first } catch (thrown) { handler }`.
  abbrev pub try_catch : Effect S E A → (E → Effect S E A) → Effect S E A
  try_catch first handler state = catch_from handler (first state)

  abbrev pub after_from : (S → S) → Result E A × S → Result E A × S
  after_from last (result, state) = (result, last state)

  -- `try { first } finally { last }`, where `last` does not throw.
  abbrev pub try_finally : Effect S E A → (S → S) → Effect S E A
  try_finally first last state = after_from last (first state)

-- A step that only writes.
abbrev pub modify : {S E : Type 0} → (S → S) → Effect S E (Unit {0})
modify change state = (ok tt, change state)

-- A step that only reads, and may throw.
abbrev pub reads : {S E A : Type 0} → (S → Result E A) → Effect S E A
reads get state = (get state, state)

-- The state that a step leaves, whether or not it throws.
abbrev pub ran : {S E A : Type 0} → Effect S E A → S → S
ran step state = (step state).1

-- A relation that every run of a step keeps, from the state before to the state after.
pub record Keeps {S E A : Type 0} (R : S → S → Type 0) (step : Effect S E A) : Type 0 where
  pub keeps : (state : S) → R state (step state).1

pub record IsPreorder {S : Type 0} (R : S → S → Type 0) : Type 0 where
  pub same : (s : S) → R s s
  pub chain : (s t u : S) → R s t → R t u → R s u

module _ {S E : Type 0} {R : S → S → Type 0} (order : IsPreorder R) where
  continue-Keeps :
      {A B : Type 0} (next : A → Effect S E B)
      → ((value : A) → Keeps R (next value))
      → (state : S) (out : Result E A × S) → R state out.1
      → R state (continue_with next out).1
  continue-Keeps next keep state (err thrown, middle) r = r
  continue-Keeps next keep state (ok value, middle) r =
      order.chain state middle (next value middle).1 r ((keep value).keeps middle)

  pub bind-Keeps :
      {A B : Type 0} (first : Effect S E A) (next : A → Effect S E B)
      → Keeps R first
      → ((value : A) → Keeps R (next value))
      → Keeps R (first >>= next)
  bind-Keeps first next keep keeps = record {
    keeps = λ state. continue-Keeps next keeps state (first state) (keep.keeps state);
  }

  pub return-Keeps : {A : Type 0} (value : A) → Keeps R (return {S = S} {E = E} {A = A} value)
  return-Keeps value = record { keeps = λ state. order.same state }

  pub throw-Keeps : {A : Type 0} (thrown : E) → Keeps R (throw {S = S} {E = E} {A = A} thrown)
  throw-Keeps thrown = record { keeps = λ state. order.same state }

  pub reads-Keeps : {A : Type 0} (get : S → Result E A) → Keeps R (reads get)
  reads-Keeps get = record { keeps = λ state. order.same state }

  pub modify-Keeps :
      (change : S → S) → ((s : S) → R s (change s)) → Keeps R (modify {S = S} {E = E} change)
  modify-Keeps change keep = record { keeps = keep }

  catch-Keeps :
      {A : Type 0} (handler : E → Effect S E A)
      → ((thrown : E) → Keeps R (handler thrown))
      → (state : S) (out : Result E A × S) → R state out.1
      → R state (catch_from handler out).1
  catch-Keeps handler keep state (ok value, middle) r = r
  catch-Keeps handler keep state (err thrown, middle) r =
      order.chain state middle (handler thrown middle).1 r ((keep thrown).keeps middle)

  pub try_catch-Keeps :
      {A : Type 0} (first : Effect S E A) (handler : E → Effect S E A)
      → Keeps R first
      → ((thrown : E) → Keeps R (handler thrown))
      → Keeps R (try_catch first handler)
  try_catch-Keeps first handler keep keeps = record {
    keeps = λ state. catch-Keeps handler keeps state (first state) (keep.keeps state);
  }

  after-Keeps :
      {A : Type 0} (last : S → S)
      → ((s : S) → R s (last s))
      → (state : S) (out : Result E A × S) → R state out.1
      → R state (after_from last out).1
  after-Keeps last keep state (result, middle) r =
      order.chain state middle (last middle) r (keep middle)

  pub try_finally-Keeps :
      {A : Type 0} (first : Effect S E A) (last : S → S)
      → Keeps R first
      → ((s : S) → R s (last s))
      → Keeps R (try_finally first last)
  try_finally-Keeps first last keep keeps = record {
    keeps = λ state. after-Keeps last keeps state (first state) (keep.keeps state);
  }

pub if-Keeps :
    {S E A : Type 0} {R : S → S → Type 0} (b : Bool) (first second : Effect S E A)
    → Keeps R first
    → Keeps R second
    → Keeps R (if b then first else second)
if-Keeps true first second keep other = keep
if-Keeps false first second keep other = other

pub option-Keeps :
    {S E A T : Type 0} {R : S → S → Type 0} (o : Option T) (absent : Effect S E A)
    (present : T → Effect S E A)
    → Keeps R absent
    → ((value : T) → Keeps R (present value))
    → Keeps R (elim o [ none ↦ absent | some value ↦ present value ])
option-Keeps none absent present keep keeps = keep
option-Keeps (some value) absent present keep keeps = keeps value
