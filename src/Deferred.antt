-- ===== src/Deferred.antt =====
-- The publisher of the scan pipelines, which start before the scan has an id:
-- backend/src/observability/application/deferred-publisher.ts. The publisher behind it is a parameter:
-- a call of it may throw and changes a state of its own. A buffered event has no scanId, which is the
-- empty text here; a flush writes it.
pub mod Order
mod Tests
use autoforge.Common.{◌∷◌, ◌++◌, ℕ, Option, none, some, List, [], length}
use autoforge.Events.{AmassEventInput}
use autoforge.Common.Result.{Result}
use autoforge.Common.Effect.{◌>>=◌, Effect, modify, return}
use autoforge.Common.Texts.{Text}
use autoforge.Sandbox.Runtime.{truthy}

pub record Deferred (W : Type 0) : Type 0 where
  pub pending : List AmassEventInput
  pub world : W

module _ {W : Type 0} where
  abbrev pub new_deferred : W → Deferred W
  new_deferred world = record { pending = []; world = world }

  abbrev pub pending_count : Deferred W → ℕ
  pending_count d = length d.pending

module _ {W E : Type 0} where
  abbrev published_from : Deferred W → Result E (Unit {0}) × W → Result E (Unit {0}) × Deferred W
  published_from d (result, world) = (result, record d { world = world })

  -- A call of the publisher behind.
  abbrev pub passed_on : Effect W E (Unit {0}) → Effect (Deferred W) E (Unit {0})
  passed_on call d = published_from d (call d.world)

  abbrev emit_to :
      (AmassEventInput → Effect W E (Unit {0}))
      → Option Text
      → AmassEventInput
      → Effect (Deferred W) E (Unit {0})
  emit_to publish none input =
      modify (λ d. record d { pending = d.pending ++ record input { scan_id = [] } ∷ [] })
  emit_to publish (some scan_id) input = passed_on (publish (record input { scan_id = scan_id }))

  -- `emit`; an empty scanId counts as none.
  abbrev pub emit :
      Option (AmassEventInput → Effect W E (Unit {0}))
      → Option Text
      → AmassEventInput
      → Effect (Deferred W) E (Unit {0})
  emit none scan_id input = return tt
  emit (some publish) scan_id input = emit_to publish (truthy scan_id) input

  -- The loop of `flush`: an event that throws ends it.
  unfoldable pub publish_all :
      (AmassEventInput → Effect W E (Unit {0}))
      → Text
      → List AmassEventInput
      → Effect W E (Unit {0})
  publish_all publish scan_id [] = return tt
  publish_all publish scan_id (input ∷ inputs) = do
    _ ← publish (record input { scan_id = scan_id })
    publish_all publish scan_id inputs

  -- `discard`.
  abbrev pub discard : Effect (Deferred W) E (Unit {0})
  discard = modify (λ d. record d { pending = [] })

  -- `flush`: the buffer is emptied before the first event is published.
  abbrev pub flush :
      Option (AmassEventInput → Effect W E (Unit {0})) → Text → Effect (Deferred W) E (Unit {0})
  flush none scan_id d = discard d
  flush (some publish) scan_id d =
      passed_on (publish_all publish scan_id d.pending) (record d { pending = [] })
