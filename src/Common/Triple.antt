-- ===== src/Common/Triple.antt =====
-- What a step that may throw ensures: one condition of the value it gives, one of what it throws.
use autoforge.Common.Effect.{
  Effect, ◌>>=◌, continue_with, return, throw, modify, try_catch, catch_from, try_finally,
  after_from, ran,
}
use autoforge.Common.Result.{Result, ok, err}
use autoforge.Common.Tests.{if◌then◌else◌}
use mathlib.Core.Bool.{Bool, true, false}

-- The condition on an outcome.
unfoldable pub Post :
    {S E A : Type 0} → (A → S → Type 0) → (E → S → Type 0) → Result E A × S → Type 0
Post Q X (ok value, after) = Q value after
Post Q X (err thrown, after) = X thrown after

-- From a state where `P` holds, the step ends where `Q` holds of its value, or `X` of its error.
pub record Triple {S E A : Type 0} (P : S → Type 0) (step : Effect S E A) (Q : A → S → Type 0)
    (X : E → S → Type 0) : Type 0 where
  pub triple : (state : S) → P state → Post Q X (step state)

module _ {S E : Type 0} where
  continue-Post :
      {A B : Type 0} {Q : A → S → Type 0} {R : B → S → Type 0} {X : E → S → Type 0}
      (next : A → Effect S E B)
      → ((value : A) → Triple (Q value) (next value) R X)
      → (out : Result E A × S) → Post Q X out
      → Post R X (continue_with next out)
  unfolding Post
  continue-Post next rest (ok value, after) q = (rest value).triple after q
  continue-Post next rest (err thrown, after) x = x

  pub bind-Triple :
      {A B : Type 0} {P : S → Type 0} {R : B → S → Type 0} {X : E → S → Type 0} (Q : A → S → Type 0)
      (first : Effect S E A) (next : A → Effect S E B)
      → Triple P first Q X
      → ((value : A) → Triple (Q value) (next value) R X)
      → Triple P (first >>= next) R X
  bind-Triple Q first next head rest = record {
    triple = λ state p. continue-Post next rest (first state) (head.triple state p);
  }

  catch-Post :
      {A : Type 0} {Q : A → S → Type 0} {X Y : E → S → Type 0} (handler : E → Effect S E A)
      → ((thrown : E) → Triple (X thrown) (handler thrown) Q Y)
      → (out : Result E A × S) → Post Q X out
      → Post Q Y (catch_from handler out)
  unfolding Post
  catch-Post handler rest (ok value, after) q = q
  catch-Post handler rest (err thrown, after) x = (rest thrown).triple after x

  pub try_catch-Triple :
      {A : Type 0} {P : S → Type 0} {Q : A → S → Type 0} {Y : E → S → Type 0} (X : E → S → Type 0)
      (first : Effect S E A) (handler : E → Effect S E A)
      → Triple P first Q X
      → ((thrown : E) → Triple (X thrown) (handler thrown) Q Y)
      → Triple P (try_catch first handler) Q Y
  try_catch-Triple X first handler head rest = record {
    triple = λ state p. catch-Post handler rest (first state) (head.triple state p);
  }

  after-Post :
      {A : Type 0} {Q : A → S → Type 0} {X : E → S → Type 0} (R : A → S → Type 0)
      (Y : E → S → Type 0) (last : S → S)
      → ((value : A) (s : S) → Q value s → R value (last s))
      → ((thrown : E) (s : S) → X thrown s → Y thrown (last s))
      → (out : Result E A × S) → Post Q X out
      → Post R Y (after_from last out)
  unfolding Post
  after-Post R Y last good bad (ok value, after) q = good value after q
  after-Post R Y last good bad (err thrown, after) x = bad thrown after x

  pub try_finally-Triple :
      {A : Type 0} {P : S → Type 0} (R : A → S → Type 0) (Y : E → S → Type 0) (Q : A → S → Type 0)
      (X : E → S → Type 0) (first : Effect S E A) (last : S → S)
      → Triple P first Q X
      → ((value : A) (s : S) → Q value s → R value (last s))
      → ((thrown : E) (s : S) → X thrown s → Y thrown (last s))
      → Triple P (try_finally first last) R Y
  try_finally-Triple R Y Q X first last head good bad = record {
    triple = λ state p. after-Post R Y last good bad (first state) (head.triple state p);
  }

  weaken-Post :
      {A : Type 0} {Q R : A → S → Type 0} {X Y : E → S → Type 0}
      → ((value : A) (s : S) → Q value s → R value s)
      → ((thrown : E) (s : S) → X thrown s → Y thrown s)
      → (out : Result E A × S) → Post Q X out
      → Post R Y out
  unfolding Post
  weaken-Post good bad (ok value, after) q = good value after q
  weaken-Post good bad (err thrown, after) x = bad thrown after x

  -- A stronger condition may be put in the place of one of the three.
  pub weaken-Triple :
      {A : Type 0} {P O : S → Type 0} {Q R : A → S → Type 0} {X Y : E → S → Type 0}
      (step : Effect S E A)
      → ((s : S) → O s → P s)
      → ((value : A) (s : S) → Q value s → R value s)
      → ((thrown : E) (s : S) → X thrown s → Y thrown s)
      → Triple P step Q X
      → Triple O step R Y
  weaken-Triple step before good bad given = record {
    triple = λ state o. weaken-Post good bad (step state) (given.triple state (before state o));
  }

  pub return-Triple :
      {A : Type 0} {X : E → S → Type 0} (Q : A → S → Type 0) (value : A)
      → Triple (Q value) (return value) Q X
  unfolding Post
  return-Triple Q value = record { triple = λ state q. q }

  pub throw-Triple :
      {A : Type 0} {Q : A → S → Type 0} (X : E → S → Type 0) (thrown : E)
      → Triple (X thrown) (throw {A = A} thrown) Q X
  unfolding Post
  throw-Triple X thrown = record { triple = λ state x. x }

  pub modify-Triple :
      {P : S → Type 0} {X : E → S → Type 0} (Q : Unit {0} → S → Type 0) (change : S → S)
      → ((s : S) → P s → Q tt (change s))
      → Triple P (modify change) Q X
  unfolding Post
  modify-Triple Q change given = record { triple = given }

  pub if-Triple :
      {A : Type 0} {P : S → Type 0} {Q : A → S → Type 0} {X : E → S → Type 0} (b : Bool)
      (first second : Effect S E A)
      → Triple P first Q X
      → Triple P second Q X
      → Triple P (if b then first else second) Q X
  if-Triple true first second good other = good
  if-Triple false first second good other = other

  ran-Post :
      {A : Type 0} (C : S → Type 0) (out : Result E A × S) → Post (λ _. C) (λ _. C) out → C out.1
  unfolding Post
  ran-Post C (ok value, after) c = c
  ran-Post C (err thrown, after) c = c

  -- What a step ensures either way holds of the state that it leaves.
  pub ran-Triple :
      {A : Type 0} (P C : S → Type 0) (step : Effect S E A)
      → Triple P step (λ _. C) (λ _. C)
      → (state : S) → P state
      → C (ran step state)
  ran-Triple P C step given state p = ran-Post C (step state) (given.triple state p)

  -- What holds of a state holds of it with any outcome.
  pub either-Post :
      {A : Type 0} (C : S → Type 0) (result : Result E A) (after : S)
      → C after
      → Post (λ _. C) (λ _. C) (result, after)
  unfolding Post
  either-Post C (ok value) after c = c
  either-Post C (err thrown) after c = c
