-- ===== src/EventBus/Tests.antt =====
-- Runs of the bus, and its theorems at concrete buses.
use autoforge.Common.Result.{◌>>=◌, ok, err, Result}
use autoforge.Common.Texts.{Text, codes, trim, text_eq}
use autoforge.Common.JsMap.{get, has, set, remove, size}
use autoforge.Common.Decimal.{show_ℕ}
use autoforge.Events.{
  str, num, object, Node, empty, entry, AmassEventInput, AmassEvent, is_amass_event_type,
}
use autoforge.Events.Sanitize.{sanitize_message, sanitize_metadata, payload_bytes}
use autoforge.Events.Sanitize.Bounds.{IsClean, sanitize_message_lem, sanitize_metadata_bounds}
use autoforge.EventBus.{
  Options, EventBus, new_bus, Draw, Reaction, Delivery, publish, replay, replay_key, members,
  subscribe_key, unsubscribe, release_key, store, make_room, evict, notify, record_event,
  bound_scan_id, unknown_event_type, scan_id_required, BusError,
}
use autoforge.EventBus.Refinement.{Log, Refines, replay_key-Refines}
use autoforge.EventBus.Subscriptions.{IsLinked}
use autoforge.EventBus.Unsubscribe.{unsubscribe_stale}
use autoforge.Common.{
  ◌≤◌, ◌<◌, ◌≡◌, ◌∷◌, ◌==◌, if◌then◌else◌, ℕ, refl, true, false, none, some, [], arith, nat_eqb,
  length, take, ==_iff, inl, inr, Bool-cases,
}

run : Unit {0}
unfolding publish record_event store make_room evict notify bound_scan_id trim get has set remove
    is_amass_event_type sanitize_message sanitize_metadata replay
run = tt

-- Two events a ring, one scan, messages of five units.
abbrev small : Options
small = record { ring_per_scan = 2; max_scans = 1; message_max_chars = 5; metadata_max_bytes = 40 }

abbrev plain : Text → Text
plain text = text

-- Subscriber 7 throws; subscriber 8 unsubscribes subscriber 7.
abbrev scan : Text
scan = codes "s1"

abbrev calls : ℕ → AmassEvent → Reaction
calls s event =
    if nat_eqb s 8
    then (λ bus. (unsubscribe bus (record { key = scan; ref = 0; subscriber = 7 }), false))
    else (λ bus. (bus, true))

abbrev input : AmassEventInput
input = record {
  scan_id = codes " s1 ";
  event_type = "SCAN_STARTED";
  agent_type = none;
  phase = "scan";
  level = none;
  status = "STARTED";
  message = codes "hello";
  metadata = none;
}

abbrev draw : Draw
draw = record { event_id = "evt_1"; timestamp = "2026-01-01T00:00:00.000Z"; epoch = 5 }

abbrev event1 : AmassEvent
event1 = record {
  event_id = "evt_1";
  scan_id = scan;
  sequence = 1;
  timestamp = "2026-01-01T00:00:00.000Z";
  event_type = "SCAN_STARTED";
  agent_type = none;
  phase = "scan";
  level = "INFO";
  status = "STARTED";
  message = codes "hello";
  metadata = none;
}

-- Subscribers 8 and 7 of one scan, and nothing published.
abbrev bus0 : EventBus
bus0 = record new_bus { subscribers = (scan, 0) ∷ []; sets = (0, 8 ∷ 7 ∷ []) ∷ []; next_ref = 1 }

abbrev bus1 : EventBus
bus1 = record {
  sequences = (scan, 1) ∷ [];
  rings = (scan, event1 ∷ []) ∷ [];
  subscribers = (scan, 0) ∷ [];
  touched = (scan, 5) ∷ [];
  counts = (scan, 1) ∷ [];
  sets = (0, 8 ∷ []) ∷ [];
  next_ref = 1;
}

abbrev delivery1 : Delivery
delivery1 = record { called = 8 ∷ 7 ∷ []; warned = 7 ∷ [] }

publish_unknown_test :
    publish plain small calls bus0 draw (record input { event_type = "NO_SUCH_EVENT" })
    ≡ err unknown_event_type
unfolding run
publish_unknown_test = refl

blank_scan_test :
    publish plain small calls bus0 draw (record input { scan_id = codes "  " })
    ≡ err scan_id_required
unfolding run
blank_scan_test = refl

bus0-IsLinked : IsLinked bus0
unfolding get
bus0-IsLinked = record {
  fresh = λ k ref h. ground (arith, ==_iff scan k);
  unshared = λ j k ref h h'. ground (arith, ==_iff scan j, ==_iff scan k);
}

-- The id of a scan that is cut right after a space: the eviction trims it and releases no scan, so
-- that the bus, whose cap is one scan, tracks two.
abbrev spaced : Text
spaced = codes "aaaaaaaaaaaaaaaaaaaaaaaaaaaaaaaaaaaaaaaaaaaaaaaaaaaaaaaaaaaaaaa b"

abbrev published_spaced : Result BusError (EventBus × Delivery)
published_spaced = do
  first ← publish plain small calls new_bus draw (record input { scan_id = spaced })
  publish plain small calls first.0 draw input

abbrev tracked_scans : Result BusError (EventBus × Delivery) → ℕ
tracked_scans (err error) = 0
tracked_scans (ok (bus, delivery)) = size bus.sequences

spaced_test : tracked_scans published_spaced ≡ 2
unfolding run
spaced_test = refl

abbrev log1 : Log
log1 k = if scan == k then event1 ∷ [] else []

bus1-Refines : Refines small bus1 log1
unfolding get
bus1-Refines k = elim (Bool-cases (scan == k)) [
  | inl same ↦
      rw same (record { ring = rw same refl; counter = rw same refl; numbered = (refl, tt) })
  | inr other ↦ rw other (record { ring = rw other refl; counter = rw other refl; numbered = tt })
]

replay_key-Refines_example : replay_key bus1 scan 0 ≡ event1 ∷ []
replay_key-Refines_example = replay_key-Refines small bus1 log1 scan 0 bus1-Refines

unsubscribe_stale_example :
    let subscribed = subscribe_key new_bus scan 1 in
    let again = subscribe_key (release_key subscribed.0 scan) scan 2 in
    (members again.0 scan ≡ 2 ∷ []) × (members (unsubscribe again.0 subscribed.1) scan ≡ [])
unfolding get
unsubscribe_stale_example = unsubscribe_stale new_bus scan 1 2 refl

abbrev long_message : Text
long_message = codes "a message that is too long"

sanitize_message_lem_example :
    let kept = sanitize_message plain 5 long_message in
    (26 ≤ 5 → kept ≡ long_message) × (5 < 26 → (take 5 kept ≡ codes "a mes") × (15 ≤ length kept))
sanitize_message_lem_example = sanitize_message_lem plain 5 long_message

abbrev given : Node
given =
    entry (codes "n") (num 3) (entry (codes "o") (object (entry (codes "x") (str []) empty)) empty)

sanitize_metadata_bounds_example :
    (payload_bytes (entry (codes "n") (num 3) empty) ≤ 40)
    × IsClean (entry (codes "n") (num 3) empty)
unfolding sanitize_metadata show_ℕ
sanitize_metadata_bounds_example = sanitize_metadata_bounds plain 40 (some given) refl
