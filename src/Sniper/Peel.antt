-- ===== src/Sniper/Peel.antt =====
-- Steps of a run, taken off one by one from the front of a `do` block.
use autoforge.Common.{◌≡◌, refl, ap, Bool, true, false, Option, none, some}
use autoforge.Common.Result.{Result, err, ok, ok-injective}
use autoforge.Sniper.{SniperError, SniperRun, Effect, lift, passed, passed_from}
use autoforge.Common.Effect.{Effect, continue_with, ◌>>=◌}
use autoforge.Sniper.Origin.{or_throw, require}

module _ {W A B : Type 0} (Q : Result SniperError B × SniperRun W → Type 0)
    (next : A → Effect (SniperRun W) SniperError B) where
  pub lift-cases :
      (result : Result SniperError A) (run : SniperRun W)
      → ((thrown : SniperError) → result ≡ err thrown → Q (err thrown, run))
      → ((value : A) → result ≡ ok value → Q (next value run))
      → Q ((lift result >>= next) run)
  lift-cases (err thrown) run bad good = bad thrown refl
  lift-cases (ok value) run bad good = good value refl

  passed_from-cases :
      (out : Result SniperError A × W) (run : SniperRun W)
      → ((thrown : SniperError) (world : W)
          → out ≡ (err thrown, world)
          → Q (err thrown, record run { world = world }))
      → ((value : A) (world : W)
          → out ≡ (ok value, world)
          → Q (next value (record run { world = world })))
      → Q (continue_with next (passed_from run out))
  passed_from-cases (err thrown, world) run bad good = bad thrown world refl
  passed_from-cases (ok value, world) run bad good = good value world refl

  pub passed-cases :
      (call : Effect W SniperError A) (run : SniperRun W)
      → ((thrown : SniperError) (world : W)
          → call run.world ≡ (err thrown, world)
          → Q (err thrown, record run { world = world }))
      → ((value : A) (world : W)
          → call run.world ≡ (ok value, world)
          → Q (next value (record run { world = world })))
      → Q ((passed call >>= next) run)
  passed-cases call run bad good = passed_from-cases (call run.world) run bad good

  -- Any step.
  pub step-cases :
      (out : Result SniperError A × SniperRun W)
      → ((thrown : SniperError) (after : SniperRun W)
          → out ≡ (err thrown, after)
          → Q (err thrown, after))
      → ((value : A) (after : SniperRun W) → out ≡ (ok value, after) → Q (next value after))
      → Q (continue_with next out)
  step-cases (err thrown, after) bad good = bad thrown after refl
  step-cases (ok value, after) bad good = good value after refl

pub require-ok :
    (b : Bool) (thrown : SniperError) {u : Unit {0}} → require b thrown ≡ ok u → b ≡ true
require-ok true thrown h = refl
require-ok false thrown h = cc

pub or_throw-ok :
    {A : Type 0} (thrown : SniperError) (o : Option A) {a : A}
    → or_throw thrown o ≡ ok a
    → o ≡ some a
or_throw-ok thrown none h = cc
or_throw-ok thrown (some value) h = ap some (ok-injective h)
