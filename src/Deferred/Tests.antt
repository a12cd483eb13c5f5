-- ===== src/Deferred/Tests.antt =====
-- A publisher that keeps the phases of its events and throws at the phase "bad".
use autoforge.Common.Effect.{continue_with, Effect}
use autoforge.Common.{◌≡◌, ◌∷◌, ◌++◌, ◌==◌, if◌then◌else◌, ℕ, String, refl, none, some, List, []}
use autoforge.Events.{AmassEventInput}
use autoforge.Deferred.{publish_all, emit, flush, new_deferred}
use autoforge.Common.Texts.{codes, Text, text_eq}
use autoforge.Deferred.Order.{emit_all, flush-emit_all}
use autoforge.Common.Result.{err, ok}

abbrev input : String → AmassEventInput
input phase = record {
  scan_id = codes "x";
  event_type = "SCAN_PROGRESS";
  agent_type = none;
  phase = phase;
  level = none;
  status = "running";
  message = codes "m";
  metadata = none;
}

abbrev publish : AmassEventInput → Effect (List (Text × String)) ℕ (Unit {0})
publish event log = (
  if codes event.phase == codes "bad" then err 4 else ok tt,
  log ++ (event.scan_id, event.phase) ∷ [],
)

abbrev inputs : List AmassEventInput
inputs = input "clone" ∷ input "bad" ∷ input "lost" ∷ []

emit_test :
    emit (some publish) (some []) (input "clone") (new_deferred [])
    ≡ (ok tt, record { pending = record (input "clone") { scan_id = [] } ∷ []; world = [] })
emit_test = refl

-- The buffer is empty after a throw, so the event behind it is lost.
flush_test :
    continue_with
      (λ _. flush (some publish) (codes "s1"))
      (emit_all publish none inputs (new_deferred []))
    ≡ (err 4, record { pending = []; world = (codes "s1", "clone") ∷ (codes "s1", "bad") ∷ [] })
unfolding publish_all
flush_test = refl

flush-emit_all_example :
    continue_with
      (λ _. flush (some publish) (115 ∷ 49 ∷ []))
      (emit_all publish none inputs (new_deferred []))
    ≡ emit_all publish (some (115 ∷ 49 ∷ [])) inputs (new_deferred [])
flush-emit_all_example = flush-emit_all publish 115 (49 ∷ []) inputs []
