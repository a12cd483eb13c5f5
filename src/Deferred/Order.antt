-- ===== src/Deferred/Order.antt =====
-- What deferring changes of a run of events: deferred-publisher.ts.
use autoforge.Common.Effect.{◌>>=◌, Effect, return, continue_with}
use autoforge.Common.{
  ◌≡◌, ◌∙◌, ◌∷◌, ◌++◌, ℕ, refl, sym, ap, Option, none, some, List, [], map, append-nil,
  append_assoc,
}
use autoforge.Events.{AmassEventInput}
use autoforge.Common.Texts.{Text}
use autoforge.Deferred.{
  Deferred, publish_all, Result, passed_on, emit, published_from, flush, new_deferred,
}
use autoforge.Common.Result.{Result, ok, err}

module _ {W E : Type 0} (publish : AmassEventInput → Effect W E (Unit {0})) where
  -- Events emitted one after the other, with the id that the scan has so far.
  abbrev pub emit_all : Option Text → List AmassEventInput → Effect (Deferred W) E (Unit {0})
  emit_all scan_id [] = return tt
  emit_all scan_id (input ∷ inputs) = do
    _ ← emit (some publish) scan_id input
    emit_all scan_id inputs

  abbrev strip : AmassEventInput → AmassEventInput
  strip input = record input { scan_id = [] }

  abbrev buffered : Deferred W → List AmassEventInput → Result E (Unit {0}) × Deferred W
  buffered d inputs = (ok tt, record d { pending = inputs })

  emit_all-buffered :
      (inputs : List AmassEventInput) (d : Deferred W)
      → emit_all none inputs d ≡ buffered d (d.pending ++ map strip inputs)
  emit_all-buffered [] d = ap (buffered d) (sym (append-nil d.pending))
  emit_all-buffered (input ∷ inputs) d =
      emit_all-buffered inputs (record d { pending = d.pending ++ strip input ∷ [] })
      ∙ ap (buffered d) (append_assoc d.pending (strip input ∷ []) (map strip inputs))

  passed_on-continue :
      (d : Deferred W) (out : Result E (Unit {0}) × W) (f : Effect W E (Unit {0}))
      (g : Effect (Deferred W) E (Unit {0}))
      → ((world : W) → passed_on f (record d { world = world }) ≡ g (record d { world = world }))
      → published_from d (continue_with (λ _. f) out)
        ≡ continue_with (λ _. g) (published_from d out)
  passed_on-continue d (err thrown, world) f g same = refl
  passed_on-continue d (ok tt, world) f g same = same world

  publish_all-emit_all :
      (c : ℕ) (cs : Text) (inputs : List AmassEventInput) (d : Deferred W)
      → passed_on (publish_all publish (c ∷ cs) (map strip inputs)) d
        ≡ emit_all (some (c ∷ cs)) inputs d
  unfolding publish_all
  publish_all-emit_all c cs [] d = refl
  publish_all-emit_all c cs (input ∷ inputs) d =
      passed_on-continue d (publish (record input { scan_id = c ∷ cs }) d.world)
        (publish_all publish (c ∷ cs) (map strip inputs)) (emit_all (some (c ∷ cs)) inputs)
        (λ world. publish_all-emit_all c cs inputs (record d { world = world }))

  -- Deferring is not seen: events emitted before the scan has an id (which is not empty) and then
  -- flushed have the same result and leave the same state, with the same calls of the publisher up
  -- to the same throw, as the events emitted at once with the id.
  pub flush-emit_all :
      (c : ℕ) (cs : Text) (inputs : List AmassEventInput) (world : W)
      → continue_with
          (λ _. flush (some publish) (c ∷ cs))
          (emit_all none inputs (new_deferred world))
        ≡ emit_all (some (c ∷ cs)) inputs (new_deferred world)
  flush-emit_all c cs inputs world =
      ap (continue_with (λ _. flush (some publish) (c ∷ cs)))
        (emit_all-buffered inputs (new_deferred world))
      ∙ publish_all-emit_all c cs inputs (new_deferred world)
